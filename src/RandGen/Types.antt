-- ===== src/RandGen/Types.antt =====
-- The data of agents/rand_gen.c and inc/lancet/rand_gen.h. The arithmetic of doubles, and the draws of
-- rand, drand48 and the C++ generators, are parameters.
use lancet_tool.Base.{ℕ, ℤ, List, Option, Bool}

-- The doubles, and what the code uses of them.
pub record Floating : Type 1 where
  pub D : Type 0
  pub of_int : ℤ → D
  pub of_u64 : ℕ → D
  -- `(uint64_t)x` and `(int)x`
  pub to_u64 : D → ℕ
  pub to_int : D → ℤ
  pub lround : D → ℤ
  pub neg : D → D
  pub add : D → D → D
  pub sub : D → D → D
  pub mul : D → D → D
  pub div : D → D → D
  pub pow : D → D → D
  pub log : D → D
  pub exp : D → D
  -- `x <= y` and `x < y`
  pub le : D → D → Bool
  pub lt : D → D → Bool
  -- `atof`, and `strtod(s, NULL)`
  pub atof : List ℕ → D

-- `gen_type`
pub data GenType : Type 0 where
  gen_other gen_fixed gen_exp : GenType

-- The functions that the three pointers of a generator are set to.
pub data SetAvg : Type 0 where
  fixed_set_avg exp_set_avg gpar_set_avg gev_set_avg bimodal_set_avg : SetAvg
  lognorm_set_avg gamma_set_avg : SetAvg

pub data InvCdf : Type 0 where
  fixed_inv_cdf exp_inv_cdf gpar_inv_cdf gev_inv_cdf bimodal_inv_cdf : InvCdf
  lognorm_inv_cdf gamma_inv_cdf : InvCdf

pub data Generate : Type 0 where
  rr_generate uni_generate lognorm_generate gamma_generate : Generate

module _ (F : Floating) where
  -- `union rand_params`: three doubles in a row. `p1.a`, `lss.loc`, `bp.low` and `lgp.sigma` are the
  -- first, `lss.scale`, `bp.up` and `lgp.mu` the second, `lss.shape` and `bp.prob` the third. The C++
  -- generators behind `lgp.ng` and `gp.gg` are in the draws.
  pub record Params : Type 0 where
    pub a : F.D
    pub b : F.D
    pub c : F.D

  -- `struct rand_gen`; `none` is NULL.
  pub record RandGen : Type 0 where
    pub gen_type : GenType
    pub set_avg : Option SetAvg
    pub inv_cdf : Option InvCdf
    pub generate : Option Generate
    pub params : Params

  -- What the sources of randomness would give to one call of `generate`.
  pub record Draws : Type 0 where
    pub rand : ℕ
    pub drand48 : F.D
    pub normal_rand : F.D
    pub gamma_rand : F.D

  -- A draw, and the counter `prev_rr` of the thread after it.
  abbrev pub Drawn : Type 0
  Drawn = F.D × ℕ
