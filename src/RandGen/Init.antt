-- ===== src/RandGen/Init.antt =====
-- agents/rand_gen.c: the selector strings, and the generator that `init_rand` makes of each.
pub mod Drawing
pub mod RoundRobin
use lancet_tool.Base.{
  ℕ, List, Option, some, none, Bool, true, false, if◌then◌else◌, Outcome, ok, fault, Fault, ◌>>=◌,
  ◌>>◌,
}
use lancet_tool.Libc.Strings.{codes, is_prefix, same_text, next_token}
use lancet_tool.RandGen.{
  Floating, GenType, gen_other, gen_fixed, gen_exp, SetAvg, InvCdf, Generate, Params, RandGen,
  call_set_avg,
}

-- The tokens of a text with the delimiter `:`, in their order; the rest of the calls get NULL.
abbrev colon : ℕ
colon = b':'

module _ (F : Floating) where
  -- `atof` of a token that may be NULL
  pub atof_token : Option (List ℕ) → Outcome F.D
  atof_token none = fault Fault.null_pointer
  atof_token (some t) = ok (F.atof t)

  -- `parse_param_1`
  pub parse_param_1 : List ℕ → F.D
  unfolding next_token
  parse_param_1 type =
      let first = next_token colon type in
      let second = next_token colon first.1 in
      elim second.0 [ none ↦ F.of_u64 0 | some t ↦ F.atof t ]

  -- `parse_param_2`
  pub parse_param_2 : List ℕ → Outcome (F.D × F.D)
  unfolding next_token atof_token
  parse_param_2 type =
      let first = next_token colon type in
      let second = next_token colon first.1 in
      let third = next_token colon second.1 in
      atof_token second.0 >>= λ a. atof_token third.0 >>= λ b. ok (a, b)

  -- `parse_param_3`
  pub parse_param_3 : List ℕ → Outcome (Params F)
  unfolding next_token atof_token
  parse_param_3 type =
      let first = next_token colon type in
      let second = next_token colon first.1 in
      let third = next_token colon second.1 in
      let fourth = next_token colon third.1 in
      atof_token second.0 >>= λ a.
      atof_token third.0 >>= λ b. atof_token fourth.0 >>= λ c. ok (record { a = a; b = b; c = c })

  -- `fixed_init`
  fixed_init : RandGen F → F.D → Outcome (RandGen F)
  unfolding call_set_avg
  fixed_init gen a =
      call_set_avg F SetAvg.fixed_set_avg
        (record gen {
          set_avg = some SetAvg.fixed_set_avg;
          inv_cdf = some InvCdf.fixed_inv_cdf;
          generate = none;
          gen_type = gen_fixed;
        })
        a

  -- `rr_init`
  pub rr_init : RandGen F → F.D → RandGen F
  rr_init gen a = record gen {
    generate = some Generate.rr_generate;
    params = record gen.params { a = a };
  }

  -- `uni_init`
  pub uni_init : RandGen F → F.D → RandGen F
  uni_init gen a = record gen {
    generate = some Generate.uni_generate;
    params = record gen.params { a = a };
  }

  -- `exp_init`
  exp_init : RandGen F → F.D → Outcome (RandGen F)
  unfolding call_set_avg
  exp_init gen a =
      call_set_avg F SetAvg.exp_set_avg
        (record gen {
          set_avg = some SetAvg.exp_set_avg;
          inv_cdf = some InvCdf.exp_inv_cdf;
          generate = none;
          gen_type = gen_exp;
        })
        a

  -- `gpar_init`
  gpar_init : RandGen F → Params F → RandGen F
  gpar_init gen p = record gen {
    params = p;
    set_avg = some SetAvg.gpar_set_avg;
    inv_cdf = some InvCdf.gpar_inv_cdf;
    generate = none;
    gen_type = gen_other;
  }

  -- `gev_init`
  gev_init : RandGen F → Params F → RandGen F
  gev_init gen p = record gen {
    params = p;
    set_avg = some SetAvg.gev_set_avg;
    inv_cdf = some InvCdf.gev_inv_cdf;
    generate = none;
    gen_type = gen_other;
  }

  -- `bimodal_init`
  bimodal_init : RandGen F → Params F → RandGen F
  bimodal_init gen p = record gen {
    params = p;
    set_avg = some SetAvg.bimodal_set_avg;
    inv_cdf = some InvCdf.bimodal_inv_cdf;
    generate = none;
    gen_type = gen_other;
  }

  -- `lognormal_init`
  lognormal_init : RandGen F → F.D × F.D → RandGen F
  lognormal_init gen p = record gen {
    params = record gen.params { b = p.0; a = p.1 };
    generate = some Generate.lognorm_generate;
    set_avg = some SetAvg.lognorm_set_avg;
    inv_cdf = some InvCdf.lognorm_inv_cdf;
    gen_type = gen_other;
  }

  -- `gamma_init` stops at its first line.
  gamma_init : RandGen F → F.D × F.D → Outcome (RandGen F)
  gamma_init gen p =
      fault Fault.assertion
      >> ok (record gen {
        generate = some Generate.gamma_generate;
        set_avg = some SetAvg.gamma_set_avg;
        inv_cdf = some InvCdf.gamma_inv_cdf;
        gen_type = gen_other;
      })

  -- A generator, where `init_rand` does not return NULL.
  abbrev pub Made : Type 0
  Made = Outcome (Option (RandGen F))

  made : Outcome (RandGen F) → Made
  made o = o >>= λ g. ok (some g)

  -- The three selectors without parameters, and those behind them.
  init_named : RandGen F → List ℕ → Made
  unfolding is_prefix same_text parse_param_2 parse_param_3 gev_init gpar_init bimodal_init
      lognormal_init gamma_init made
  init_named gen gen_type =
      if same_text gen_type (codes "fb_key")
      then made (parse_param_3 (codes "gev:30.7984:8.20449:0.078688") >>= λ p. ok (gev_init gen p))
      else if same_text gen_type (codes "fb_ia")
      then made (parse_param_3 (codes "gpar:0:16.0292:0.154971") >>= λ p. ok (gpar_init gen p))
      else if same_text gen_type (codes "fb_val")
      then made (parse_param_3 (codes "gpar:15.0:214.476:0.348238") >>= λ p. ok (gpar_init gen p))
      else if is_prefix (codes "bimodal") gen_type
      then made (parse_param_3 gen_type >>= λ p. ok (bimodal_init gen p))
      else if is_prefix (codes "lognorm") gen_type
      then made (parse_param_2 gen_type >>= λ p. ok (lognormal_init gen p))
      else if is_prefix (codes "gamma") gen_type
      then made (parse_param_2 gen_type >>= λ p. gamma_init gen p)
      else ok none

  -- `init_rand`, where `gen` is what the memory from malloc holds.
  unfoldable pub init_rand : RandGen F → List ℕ → Made
  unfolding is_prefix parse_param_1 parse_param_3 fixed_init rr_init uni_init exp_init gpar_init
      gev_init made init_named
  init_rand gen gen_type =
      if is_prefix (codes "fixed") gen_type
      then made (fixed_init gen (parse_param_1 gen_type))
      else if is_prefix (codes "rr") gen_type
      then ok (some (rr_init gen (parse_param_1 gen_type)))
      else if is_prefix (codes "uni") gen_type
      then ok (some (uni_init gen (parse_param_1 gen_type)))
      else if is_prefix (codes "exp") gen_type
      then made (exp_init gen (parse_param_1 gen_type))
      else if is_prefix (codes "pareto") gen_type
      then made (parse_param_3 gen_type >>= λ p. ok (gpar_init gen p))
      else if is_prefix (codes "gev") gen_type
      then made (parse_param_3 gen_type >>= λ p. ok (gev_init gen p))
      else init_named gen gen_type
