-- ===== src/RandGen/Tests.antt =====
-- Tests of the random generators, with whole numbers in the place of doubles, and the theorems at
-- concrete inputs.
use lancet_tool.Base.{ℕ, ◌<◌, ◌≡◌, refl, ◌⊎◌, some, none, ok, fault, Fault, arith, ◌∷◌, []}
use lancet_tool.RandGen.Sample.{whole_numbers, memory, three_draws, read_number}
use lancet_tool.Libc.Strings.{codes}
use lancet_tool.RandGen.{RandGen, Drawn, GenType, generate_draw, Generate}
use lancet_tool.RandGen.Init.{init_rand}
use lancet_tool.RandGen.Init.Drawing.{init_rand-generate_draw}
use lancet_tool.RandGen.Init.RoundRobin.{draw_after, rr_visits}

abbrev uni_gen : RandGen whole_numbers
uni_gen = record {
  gen_type = GenType.gen_other;
  set_avg = none;
  inv_cdf = none;
  generate = some Generate.uni_generate;
  params = record { a = 10; b = 0; c = 0 };
}

uni_init_test : init_rand whole_numbers memory (codes "uni:10") ≡ ok (some uni_gen)
unfolding init_rand read_number
uni_init_test = refl

unknown_test : init_rand whole_numbers memory (codes "zipf:10") ≡ ok none
unfolding init_rand
unknown_test = refl

missing_test : init_rand whole_numbers memory (codes "bimodal:1:2") ≡ fault Fault.null_pointer
unfolding init_rand read_number
missing_test = refl

gamma_test : init_rand whole_numbers memory (codes "gamma:1:2") ≡ fault Fault.assertion
unfolding init_rand
gamma_test = refl

init_rand-generate_draw_example :
    ((d : Drawn whole_numbers) × (generate_draw whole_numbers three_draws 0 uni_gen ≡ ok d))
    ⊎ ((generate_draw whole_numbers three_draws 0 uni_gen ≡ fault Fault.div_by_zero)
        × (whole_numbers.to_u64 uni_gen.params.a ≡ 0))
init_rand-generate_draw_example =
    init_rand-generate_draw whole_numbers memory (codes "uni:10") uni_gen three_draws 0
      uni_init_test

rr_visits_example :
    (g : RandGen whole_numbers) × (i : ℕ) × (next : ℕ) × (init_rand whole_numbers memory
        (codes "rr:10")
      ≡ ok (some g))
    × (i < 10)
    × (draw_after whole_numbers i three_draws 7 g ≡ ok (3, next))
unfolding read_number
rr_visits_example =
    rr_visits whole_numbers memory b'1' (b'0' ∷ []) three_draws 7 3 (omega arith) (omega arith)
      (omega arith)
