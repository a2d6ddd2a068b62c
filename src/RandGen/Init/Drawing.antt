-- ===== src/RandGen/Init/Drawing.antt =====
-- What `init_rand` makes can be drawn from (agents/rand_gen.c), and the order of the round robin.
use lancet_tool.Base.{
  ℕ, ◌+◌, ◌%◌, ◌^◌, ◌≡◌, refl, subst, ap, ◌⊎◌, inl, inr, List, some, none, Bool, true, false,
  if◌then◌else◌, ◌==◌, ==_iff, Bool-cases, Outcome, ok, fault, Fault, ◌>>=◌, arith,
}
use lancet_tool.Libc.Strings.{codes, is_prefix, same_text}
use lancet_tool.RandGen.{Floating, Params, RandGen, Draws, Drawn, generate_draw}
use lancet_tool.RandGen.Init.{
  Made, init_rand, init_named, made, fixed_init, rr_init, uni_init, exp_init, gpar_init, gev_init,
  bimodal_init, lognormal_init, gamma_init, parse_param_1, parse_param_2, parse_param_3,
}

module _ (F : Floating) where
  -- A draw gives a number, or divides by a maximum of 0.
  abbrev pub IsDrawable : RandGen F → Type 0
  IsDrawable g =
      (draws : Draws F) (prev_rr : ℕ)
      → ((d : Drawn F) × (generate_draw F draws prev_rr g ≡ ok d))
        ⊎ ((generate_draw F draws prev_rr g ≡ fault Fault.div_by_zero) × (F.to_u64 g.params.a ≡ 0))

  -- The generator that comes out, if one does, is one.
  record AllDrawable (o : Made F) : Type 0 where
    each : (g : RandGen F) → o ≡ ok (some g) → IsDrawable g

  AllDrawable-if :
      (b : Bool) {x y : Made F} → AllDrawable x → AllDrawable y → AllDrawable (if b then x else y)
  AllDrawable-if true h k = h
  AllDrawable-if false h k = k

  AllDrawable-ok : (g : RandGen F) → IsDrawable g → AllDrawable (ok (some g))
  AllDrawable-ok g h = record {
    each = λ g' e.
        subst IsDrawable
          (ap (λ (o : Made F). elim o [ ok (some x) ↦ x | ok none ↦ g | fault f ↦ g ]) e) h;
  }

  AllDrawable-none : AllDrawable (ok none)
  AllDrawable-none = record { each = λ g e. absurd (ground arith) }

  AllDrawable-fault : (e : Fault) → AllDrawable (fault e)
  AllDrawable-fault e = record { each = λ g e. absurd (ground arith) }

  AllDrawable-bind :
      {A : Type 0} (o : Outcome A) (f : A → RandGen F)
      → ((a : A) → IsDrawable (f a))
      → AllDrawable (made F (o >>= λ a. ok (f a)))
  unfolding made
  AllDrawable-bind (ok a) f h = AllDrawable-ok (f a) (h a)
  AllDrawable-bind (fault e) f h = AllDrawable-fault e

  -- The generators that draw below a maximum.
  rr_init-IsDrawable : (mem : RandGen F) (a : F.D) → IsDrawable (rr_init F mem a)
  unfolding rr_init generate_draw
  rr_init-IsDrawable mem a draws prev = elim (Bool-cases (F.to_u64 a == 0)) [
    | inl zero_max ↦ inr (rw zero_max refl, (==_iff _ _).0 zero_max)
    | inr some_max ↦ inl ((F.of_u64 (prev % F.to_u64 a), (prev + 1) % 2 ^ 64), rw some_max refl)
  ]

  uni_init-IsDrawable : (mem : RandGen F) (a : F.D) → IsDrawable (uni_init F mem a)
  unfolding uni_init generate_draw
  uni_init-IsDrawable mem a draws prev = elim (Bool-cases (F.to_u64 a == 0)) [
    | inl zero_max ↦ inr (rw zero_max refl, (==_iff _ _).0 zero_max)
    | inr some_max ↦ inl ((F.of_u64 (draws.rand % F.to_u64 a), prev), rw some_max refl)
  ]

  -- The generators that draw through their inverse distribution function.
  bimodal_init-IsDrawable : (mem : RandGen F) (p : Params F) → IsDrawable (bimodal_init F mem p)
  unfolding bimodal_init generate_draw
  bimodal_init-IsDrawable mem p draws prev = inl (_, refl)

  gpar_init-IsDrawable : (mem : RandGen F) (p : Params F) → IsDrawable (gpar_init F mem p)
  unfolding gpar_init generate_draw
  gpar_init-IsDrawable mem p draws prev = inl (_, refl)

  gev_init-IsDrawable : (mem : RandGen F) (p : Params F) → IsDrawable (gev_init F mem p)
  unfolding gev_init generate_draw
  gev_init-IsDrawable mem p draws prev = inl (_, refl)

  lognormal_init-IsDrawable :
      (mem : RandGen F) (p : F.D × F.D) → IsDrawable (lognormal_init F mem p)
  unfolding lognormal_init generate_draw
  lognormal_init-IsDrawable mem p draws prev = inl (_, refl)

  fixed_init-AllDrawable : (mem : RandGen F) (a : F.D) → AllDrawable (made F (fixed_init F mem a))
  unfolding made fixed_init generate_draw
  fixed_init-AllDrawable mem a = AllDrawable-ok _ (λ draws prev. inl (_, refl))

  exp_init-AllDrawable : (mem : RandGen F) (a : F.D) → AllDrawable (made F (exp_init F mem a))
  unfolding made exp_init generate_draw
  exp_init-AllDrawable mem a = AllDrawable-ok _ (λ draws prev. inl (_, refl))

  gamma_init-AllDrawable :
      (mem : RandGen F) (o : Outcome (F.D × F.D))
      → AllDrawable (made F (o >>= λ p. gamma_init F mem p))
  unfolding made gamma_init
  gamma_init-AllDrawable mem (ok p) = AllDrawable-fault Fault.assertion
  gamma_init-AllDrawable mem (fault e) = AllDrawable-fault e

  init_named-AllDrawable : (mem : RandGen F) (s : List ℕ) → AllDrawable (init_named F mem s)
  unfolding init_named
  init_named-AllDrawable mem s =
      AllDrawable-if (same_text s (codes "fb_key"))
        (AllDrawable-bind (parse_param_3 F (codes "gev:30.7984:8.20449:0.078688")) (gev_init F mem)
          (gev_init-IsDrawable mem))
        (AllDrawable-if (same_text s (codes "fb_ia"))
          (AllDrawable-bind (parse_param_3 F (codes "gpar:0:16.0292:0.154971")) (gpar_init F mem)
            (gpar_init-IsDrawable mem))
          (AllDrawable-if (same_text s (codes "fb_val"))
            (AllDrawable-bind (parse_param_3 F (codes "gpar:15.0:214.476:0.348238"))
              (gpar_init F mem) (gpar_init-IsDrawable mem))
            (AllDrawable-if (is_prefix (codes "bimodal") s)
              (AllDrawable-bind (parse_param_3 F s) (bimodal_init F mem)
                (bimodal_init-IsDrawable mem))
              (AllDrawable-if (is_prefix (codes "lognorm") s)
                (AllDrawable-bind (parse_param_2 F s) (lognormal_init F mem)
                  (lognormal_init-IsDrawable mem))
                (AllDrawable-if (is_prefix (codes "gamma") s)
                  (gamma_init-AllDrawable mem (parse_param_2 F s)) AllDrawable-none)))))

  init_rand-AllDrawable : (mem : RandGen F) (s : List ℕ) → AllDrawable (init_rand F mem s)
  unfolding init_rand
  init_rand-AllDrawable mem s =
      AllDrawable-if (is_prefix (codes "fixed") s) (fixed_init-AllDrawable mem (parse_param_1 F s))
        (AllDrawable-if (is_prefix (codes "rr") s)
          (AllDrawable-ok (rr_init F mem (parse_param_1 F s)) (rr_init-IsDrawable mem _))
          (AllDrawable-if (is_prefix (codes "uni") s)
            (AllDrawable-ok (uni_init F mem (parse_param_1 F s)) (uni_init-IsDrawable mem _))
            (AllDrawable-if (is_prefix (codes "exp") s)
              (exp_init-AllDrawable mem (parse_param_1 F s))
              (AllDrawable-if (is_prefix (codes "pareto") s)
                (AllDrawable-bind (parse_param_3 F s) (gpar_init F mem) (gpar_init-IsDrawable mem))
                (AllDrawable-if (is_prefix (codes "gev") s)
                  (AllDrawable-bind (parse_param_3 F s) (gev_init F mem) (gev_init-IsDrawable mem))
                  (init_named-AllDrawable mem s))))))

  -- Whatever the selector and the memory from malloc are, a generator that `init_rand` returns can be
  -- drawn from: `generate` calls no null pointer and meets no assertion. It gives a number, or it
  -- divides by zero, and that only with a maximum of 0 as its first parameter.
  pub init_rand-generate_draw :
      (mem : RandGen F) (s : List ℕ) (g : RandGen F) (draws : Draws F) (prev_rr : ℕ)
      → init_rand F mem s ≡ ok (some g)
      → ((d : Drawn F) × (generate_draw F draws prev_rr g ≡ ok d))
        ⊎ ((generate_draw F draws prev_rr g ≡ fault Fault.div_by_zero) × (F.to_u64 g.params.a ≡ 0))
  init_rand-generate_draw mem s g draws prev_rr e =
      (init_rand-AllDrawable mem s).each g e draws prev_rr
