-- ===== src/RandGen.antt =====
-- agents/rand_gen.c and inc/lancet/rand_gen.h: the random generators and their dispatch.
pub mod Types
pub mod Distributions
pub mod Init
pub mod Sample
mod Tests
use lancet_tool.Base.{ℕ, Option, some, none, Outcome, ok, fault, Fault, ◌>>=◌}
use lancet_tool.RandGen.Distributions
pub use lancet_tool.RandGen.Types.{
  Floating, GenType, gen_other, gen_fixed, gen_exp, SetAvg, InvCdf, Generate, Params, RandGen,
  Draws, Drawn,
}

module _ (F : Floating) where
  -- A call of a `set_avg` function.
  pub call_set_avg : SetAvg → RandGen F → F.D → Outcome (RandGen F)
  unfolding Distributions.fixed_set_avg Distributions.exp_set_avg Distributions.gpar_set_avg
      Distributions.gev_set_avg Distributions.bimodal_set_avg Distributions.lognorm_set_avg
      Distributions.gamma_set_avg
  call_set_avg SetAvg.fixed_set_avg gen avg = Distributions.fixed_set_avg F gen avg
  call_set_avg SetAvg.exp_set_avg gen avg = Distributions.exp_set_avg F gen avg
  call_set_avg SetAvg.gpar_set_avg gen avg = Distributions.gpar_set_avg F gen avg
  call_set_avg SetAvg.gev_set_avg gen avg = Distributions.gev_set_avg F gen avg
  call_set_avg SetAvg.bimodal_set_avg gen avg = Distributions.bimodal_set_avg F gen avg
  call_set_avg SetAvg.lognorm_set_avg gen avg = Distributions.lognorm_set_avg F gen avg
  call_set_avg SetAvg.gamma_set_avg gen avg = Distributions.gamma_set_avg F gen avg

  -- A call of an `inv_cdf` function.
  pub call_inv_cdf : InvCdf → RandGen F → F.D → Outcome F.D
  unfolding Distributions.fixed_inv_cdf Distributions.exp_inv_cdf Distributions.gpar_inv_cdf
      Distributions.gev_inv_cdf Distributions.bimodal_inv_cdf Distributions.lognorm_inv_cdf
      Distributions.gamma_inv_cdf
  call_inv_cdf InvCdf.fixed_inv_cdf gen y = Distributions.fixed_inv_cdf F gen y
  call_inv_cdf InvCdf.exp_inv_cdf gen y = Distributions.exp_inv_cdf F gen y
  call_inv_cdf InvCdf.gpar_inv_cdf gen y = Distributions.gpar_inv_cdf F gen y
  call_inv_cdf InvCdf.gev_inv_cdf gen y = Distributions.gev_inv_cdf F gen y
  call_inv_cdf InvCdf.bimodal_inv_cdf gen y = Distributions.bimodal_inv_cdf F gen y
  call_inv_cdf InvCdf.lognorm_inv_cdf gen y = Distributions.lognorm_inv_cdf F gen y
  call_inv_cdf InvCdf.gamma_inv_cdf gen y = Distributions.gamma_inv_cdf F gen y

  -- A call of a `generate` function.
  pub call_generate : Generate → Draws F → ℕ → RandGen F → Outcome (Drawn F)
  unfolding Distributions.rr_generate Distributions.uni_generate Distributions.lognorm_generate
      Distributions.gamma_generate
  call_generate Generate.rr_generate draws prev_rr gen =
      Distributions.rr_generate F draws prev_rr gen
  call_generate Generate.uni_generate draws prev_rr gen =
      Distributions.uni_generate F draws prev_rr gen
  call_generate Generate.lognorm_generate draws prev_rr gen =
      Distributions.lognorm_generate F draws prev_rr gen
  call_generate Generate.gamma_generate draws prev_rr gen =
      Distributions.gamma_generate F draws prev_rr gen

  -- A call of `gen->inv_cdf(gen, y)`.
  unfoldable pub inv_cdf_of : RandGen F → F.D → Outcome F.D
  unfolding call_inv_cdf
  inv_cdf_of gen y = elim gen.inv_cdf [
    | none ↦ fault Fault.null_pointer
    | some f ↦ call_inv_cdf f gen y
  ]

  -- `generate`
  pub generate_draw : Draws F → ℕ → RandGen F → Outcome (Drawn F)
  unfolding call_generate inv_cdf_of
  generate_draw draws prev_rr gen = elim gen.generate [
    | some f ↦ call_generate f draws prev_rr gen
    | none ↦ inv_cdf_of gen draws.drand48 >>= λ x. ok (x, prev_rr)
  ]

  -- `set_avg`
  pub set_avg_of : RandGen F → F.D → Outcome (RandGen F)
  unfolding call_set_avg
  set_avg_of gen avg = elim gen.set_avg [
    | none ↦ fault Fault.null_pointer
    | some f ↦ call_set_avg f gen avg
  ]

  -- `set_avg_ext`
  pub set_avg_ext : RandGen F → F.D → Outcome (RandGen F)
  unfolding call_set_avg
  set_avg_ext gen avg = elim gen.gen_type [
    | gen_fixed ↦ call_set_avg SetAvg.fixed_set_avg gen avg
    | gen_exp ↦ call_set_avg SetAvg.exp_set_avg gen avg
    | gen_other ↦ fault Fault.assertion
  ]
