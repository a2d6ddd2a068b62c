-- ===== src/RandGen/Init/RoundRobin.antt =====
-- The order of the round robin, and the selectors with a maximum (agents/rand_gen.c:64-93).
use lancet_tool.Base.{
  ℕ, zero, suc, ◌+◌, ◌%◌, ◌^◌, ◌<◌, ◌≡◌, refl, ap, ◌∙◌, List, [], ◌∷◌, ◌++◌, Option, some, none,
  false, ◌==◌, Outcome, ok, ◌>>=◌, arith,
}
use native.Mathlib.Nat.{mod-lt}
use lancet_tool.Base.Rounds.{turn_lem}
use lancet_tool.Libc.Decimal.{AllNe}
use lancet_tool.Libc.Strings.{codes, is_prefix, next_token, next_token-found, next_token-last}
use lancet_tool.RandGen.{Floating, RandGen, Draws, Drawn, Generate, generate_draw}
use lancet_tool.RandGen.Init.{init_rand, rr_init, uni_init, parse_param_1}

module _ (F : Floating) where
  -- The draw after `i` others of the same generator.
  pub draw_after : ℕ → Draws F → ℕ → RandGen F → Outcome (Drawn F)
  draw_after zero draws prev_rr g = generate_draw F draws prev_rr g
  draw_after (suc i) draws prev_rr g =
      generate_draw F draws prev_rr g >>= λ d. draw_after i draws d.1 g

  rr_draw :
      (draws : Draws F) (prev_rr : ℕ) (g : RandGen F)
      → g.generate ≡ some Generate.rr_generate
      → 0 < F.to_u64 g.params.a
      → prev_rr + 1 < 2 ^ 64
      → generate_draw F draws prev_rr g ≡ ok (F.of_u64 (prev_rr % F.to_u64 g.params.a), prev_rr + 1)
  unfolding generate_draw
  rr_draw draws prev_rr g rr h small =
      let nonzero : (F.to_u64 g.params.a == 0) ≡ false = ground arith in
      let next : (prev_rr + 1) % 2 ^ 64 ≡ prev_rr + 1 = omega arith in rw (rr, nonzero, next) refl

  rr_draw_after :
      (i : ℕ) (draws : Draws F) (prev_rr : ℕ) (g : RandGen F)
      → g.generate ≡ some Generate.rr_generate
      → 0 < F.to_u64 g.params.a
      → prev_rr + i + 1 < 2 ^ 64
      → draw_after i draws prev_rr g
        ≡ ok (F.of_u64 ((prev_rr + i) % F.to_u64 g.params.a), prev_rr + i + 1)
  unfolding draw_after
  rr_draw_after zero draws prev_rr g rr h small =
      let at : prev_rr ≡ prev_rr + 0 = omega arith in
      rr_draw draws prev_rr g rr h (omega arith)
      ∙ ap (λ t. ok (F.of_u64 (t % F.to_u64 g.params.a), t + 1)) at
  rr_draw_after (suc i) draws prev_rr g rr h small =
      let at : prev_rr + 1 + i ≡ prev_rr + suc i = omega arith in
      rw (rr_draw draws prev_rr g rr h (omega arith)) (
        rr_draw_after i draws (prev_rr + 1) g rr h (omega arith)
        ∙ ap (λ t. ok (F.of_u64 (t % F.to_u64 g.params.a), t + 1)) at)

  -- The parameter of a selector with one.
  parse_param_1_lem :
      (n c : ℕ) (name w : List ℕ)
      → AllNe b':' (n ∷ name)
      → AllNe b':' (c ∷ w)
      → parse_param_1 F (n ∷ name ++ b':' ∷ c ∷ w) ≡ F.atof (c ∷ w)
  unfolding parse_param_1
  parse_param_1_lem n c name w h k =
      let value : Option (List ℕ) → F.D = λ o. elim o [ none ↦ F.of_u64 0 | some t ↦ F.atof t ] in
      ap (λ p. value (next_token b':' p.1).0) (next_token-found b':' n name (c ∷ w) h)
      ∙ ap (λ p. value p.0) (next_token-last b':' c w k)

  -- The selectors of the round robin and of the uniform draw, as the protocols write them.
  pub init_rand-rr :
      (mem : RandGen F) (c : ℕ) (w : List ℕ)
      → AllNe b':' (c ∷ w)
      → init_rand F mem (codes "rr" ++ b':' ∷ c ∷ w) ≡ ok (some (rr_init F mem (F.atof (c ∷ w))))
  unfolding init_rand is_prefix
  init_rand-rr mem c w h =
      ap (λ a. ok (some (rr_init F mem a))) (parse_param_1_lem b'r' c (b'r' ∷ []) w (omega arith) h)

  pub init_rand-uni :
      (mem : RandGen F) (c : ℕ) (w : List ℕ)
      → AllNe b':' (c ∷ w)
      → init_rand F mem (codes "uni" ++ b':' ∷ c ∷ w) ≡ ok (some (uni_init F mem (F.atof (c ∷ w))))
  unfolding init_rand is_prefix
  init_rand-uni mem c w h =
      ap (λ a. ok (some (uni_init F mem a)))
        (parse_param_1_lem b'u' c (b'n' ∷ b'i' ∷ []) w (omega arith) h)

  -- With the selector `rr:` and a text that atof reads as a maximum that is not 0, any `max` draws of one
  -- thread in a row bring every number below the maximum, as long as the counter stays below 2^64.
  pub rr_visits :
      (mem : RandGen F) (c : ℕ) (w : List ℕ) (draws : Draws F) (prev_rr j : ℕ)
      → AllNe b':' (c ∷ w)
      → j < F.to_u64 (F.atof (c ∷ w))
      → prev_rr + F.to_u64 (F.atof (c ∷ w)) < 2 ^ 64
      → (g : RandGen F) × (i : ℕ) × (next : ℕ) × (init_rand F mem (codes "rr" ++ b':' ∷ c ∷ w)
          ≡ ok (some g))
        × (i < F.to_u64 (F.atof (c ∷ w)))
        × (draw_after i draws prev_rr g ≡ ok (F.of_u64 j, next))
  unfolding rr_init
  rr_visits mem c w draws prev_rr j h inside small =
      let max = F.to_u64 (F.atof (c ∷ w)) in
      let g = rr_init F mem (F.atof (c ∷ w)) in
      let (i, lt, turn) = turn_lem max prev_rr j inside in
      (
        g,
        i,
        prev_rr + i + 1,
        init_rand-rr mem c w h,
        lt,
        rr_draw_after i draws prev_rr g refl (omega arith) (omega arith)
            ∙ ap (λ t. ok (F.of_u64 t, prev_rr + i + 1)) turn,
      )

  -- What a draw of either selector gives is below the maximum.
  pub rr_below :
      (mem : RandGen F) (a : F.D) (draws : Draws F) (prev_rr : ℕ)
      → 0 < F.to_u64 a
      → (k : ℕ) × (next : ℕ) × (k < F.to_u64 a)
        × (generate_draw F draws prev_rr (rr_init F mem a) ≡ ok (F.of_u64 k, next))
  unfolding rr_init generate_draw
  rr_below mem a draws prev_rr h =
      let nonzero : (F.to_u64 a == 0) ≡ false = ground arith in
      (prev_rr % F.to_u64 a, (prev_rr + 1) % 2 ^ 64, mod-lt prev_rr h, rw nonzero refl)

  pub uni_below :
      (mem : RandGen F) (a : F.D) (draws : Draws F) (prev_rr : ℕ)
      → 0 < F.to_u64 a
      → (k : ℕ) × (next : ℕ) × (k < F.to_u64 a)
        × (generate_draw F draws prev_rr (uni_init F mem a) ≡ ok (F.of_u64 k, next))
  unfolding uni_init generate_draw
  uni_below mem a draws prev_rr h =
      let nonzero : (F.to_u64 a == 0) ≡ false = ground arith in
      (draws.rand % F.to_u64 a, prev_rr, mod-lt draws.rand h, rw nonzero refl)
