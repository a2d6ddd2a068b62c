-- ===== src/RandGen/Distributions.antt =====
-- The functions that the pointers of a generator are set to (agents/rand_gen.c:41-267).
use lancet_tool.Base.{ℕ, ◌+◌, ◌%◌, ◌^◌, ◌==◌, if◌then◌else◌, Outcome, ok, fault, Fault}
use lancet_tool.RandGen.Types.{Floating, Params, RandGen, Draws, Drawn}

module _ (F : Floating) where
  abbrev one : F.D
  one = F.of_u64 1

  unfoldable pub fixed_inv_cdf : RandGen F → F.D → Outcome F.D
  fixed_inv_cdf gen y = ok gen.params.a

  unfoldable pub fixed_set_avg : RandGen F → F.D → Outcome (RandGen F)
  fixed_set_avg gen avg = ok (record gen { params = record gen.params { a = avg } })

  unfoldable pub rr_generate : Draws F → ℕ → RandGen F → Outcome (Drawn F)
  rr_generate draws prev_rr gen =
      let max = F.to_u64 gen.params.a in
      if max == 0
      then fault Fault.div_by_zero
      else ok (F.of_u64 (prev_rr % max), (prev_rr + 1) % 2 ^ 64)

  unfoldable pub uni_generate : Draws F → ℕ → RandGen F → Outcome (Drawn F)
  uni_generate draws prev_rr gen =
      let max = F.to_u64 gen.params.a in
      if max == 0 then fault Fault.div_by_zero else ok (F.of_u64 (draws.rand % max), prev_rr)

  unfoldable pub exp_inv_cdf : RandGen F → F.D → Outcome F.D
  exp_inv_cdf gen y = ok (F.div (F.neg (F.log y)) gen.params.a)

  unfoldable pub exp_set_avg : RandGen F → F.D → Outcome (RandGen F)
  exp_set_avg gen avg = ok (record gen { params = record gen.params { a = F.div one avg } })

  -- loc + scale * (pow(base, -shape) - 1) / shape
  abbrev lss_quantile : Params F → F.D → F.D
  lss_quantile p base = F.add p.a (F.div (F.mul p.b (F.sub (F.pow base (F.neg p.c)) one)) p.c)

  unfoldable pub gpar_inv_cdf : RandGen F → F.D → Outcome F.D
  gpar_inv_cdf gen y = ok (lss_quantile gen.params (F.sub one y))

  unfoldable pub gpar_set_avg : RandGen F → F.D → Outcome (RandGen F)
  gpar_set_avg gen avg = ok (record gen {
    params = record gen.params { b = F.mul (F.sub avg gen.params.a) (F.sub one gen.params.c) };
  })

  unfoldable pub gev_inv_cdf : RandGen F → F.D → Outcome F.D
  gev_inv_cdf gen y = ok (lss_quantile gen.params (F.neg (F.exp y)))

  unfoldable pub gev_set_avg : RandGen F → F.D → Outcome (RandGen F)
  gev_set_avg gen avg = fault Fault.assertion

  unfoldable pub bimodal_set_avg : RandGen F → F.D → Outcome (RandGen F)
  bimodal_set_avg gen avg = fault Fault.assertion

  unfoldable pub bimodal_inv_cdf : RandGen F → F.D → Outcome F.D
  bimodal_inv_cdf gen y = ok (if F.le y gen.params.c then gen.params.a else gen.params.b)

  unfoldable pub lognorm_generate : Draws F → ℕ → RandGen F → Outcome (Drawn F)
  lognorm_generate draws prev_rr gen =
      ok (F.exp (F.add gen.params.b (F.mul draws.normal_rand gen.params.a)), prev_rr)

  unfoldable pub lognorm_inv_cdf : RandGen F → F.D → Outcome F.D
  lognorm_inv_cdf gen y = fault Fault.assertion

  unfoldable pub lognorm_set_avg : RandGen F → F.D → Outcome (RandGen F)
  lognorm_set_avg gen avg = fault Fault.assertion

  unfoldable pub gamma_generate : Draws F → ℕ → RandGen F → Outcome (Drawn F)
  gamma_generate draws prev_rr gen = ok (F.of_int (F.to_int draws.gamma_rand), prev_rr)

  unfoldable pub gamma_inv_cdf : RandGen F → F.D → Outcome F.D
  gamma_inv_cdf gen y = fault Fault.assertion

  unfoldable pub gamma_set_avg : RandGen F → F.D → Outcome (RandGen F)
  gamma_set_avg gen avg = fault Fault.assertion
