-- ===== src/RandGen/Sample.antt =====
-- Whole numbers in the place of doubles, for tests: a generator in fresh memory, and draws.
use lancet_tool.Base.{◌+◌, ◌*◌, ◌/◌, ◌-◌, ◌^◌, ℕ, List, none, ltb, leb, pos, pos_part}
use lancet_tool.Libc.{read_digits}
use lancet_tool.RandGen.{Floating, RandGen, Draws, GenType}

-- The leading digits of a text.
unfoldable pub read_number : List ℕ → ℕ
unfolding read_digits
read_number s = read_digits 0 s

abbrev pub whole_numbers : Floating
whole_numbers = record {
  D = ℕ;
  of_int = pos_part;
  of_u64 = λ n. n;
  to_u64 = λ n. n;
  to_int = pos;
  lround = pos;
  neg = λ n. 0;
  add = ◌+◌;
  sub = ◌-◌;
  mul = ◌*◌;
  div = ◌/◌;
  pow = ◌^◌;
  log = λ n. n;
  exp = λ n. n;
  le = leb;
  lt = ltb;
  atof = read_number;
}

abbrev pub memory : RandGen whole_numbers
memory = record {
  gen_type = GenType.gen_other;
  set_avg = none;
  inv_cdf = none;
  generate = none;
  params = record { a = 0; b = 0; c = 0 };
}

abbrev pub three_draws : Draws whole_numbers
three_draws = record { rand = 17; drand48 = 1; normal_rand = 2; gamma_rand = 3 }
