-- ===== src/Base/Loop.antt =====
-- The shape of the C loops `while (test) { body }`, with `break`, `goto OUT` and a failing body.
use Prim.Native.Nat.{ℕ, zero, suc}
use mathlib.Core.Path.{◌≡◌}
use mathlib.Core.Bool.{Bool, true, false}
use lancet_tool.Base.Failure.{Outcome, ok, fault, Fault}

-- How one round of a loop ends.
pub data Next {ℓ} (S : Type ℓ) : Type ℓ where
  continue : S → Next S
  stop : S → Next S
  crash : Fault → Next S

module _ {ℓ} {S : Type ℓ} where
  unfoldable pub run_loop : ℕ → (S → Bool) → (S → Next S) → S → Outcome S
  run_loop zero test body s = fault Fault.out_of_fuel
  run_loop (suc fuel) test body s = elim (test s) [
    | false ↦ ok s
    | true ↦ elim (body s) [
      | continue s' ↦ run_loop fuel test body s'
      | stop s' ↦ ok s'
      | crash e ↦ fault e
    ]
  ]

  module _ (fuel : ℕ) (test : S → Bool) (body : S → Next S) (s : S) where
    pub run_loop-exit : test s ≡ false → run_loop (suc fuel) test body s ≡ ok s
    unfolding run_loop
    run_loop-exit h = rw (h, run_loop)

    pub run_loop-continue :
        {s' : S}
        → test s ≡ true
        → body s ≡ continue s'
        → run_loop (suc fuel) test body s ≡ run_loop fuel test body s'
    unfolding run_loop
    run_loop-continue h e = rw (h, e, run_loop)

    pub run_loop-stop :
        {s' : S} → test s ≡ true → body s ≡ stop s' → run_loop (suc fuel) test body s ≡ ok s'
    unfolding run_loop
    run_loop-stop h e = rw (h, e, run_loop)

    pub run_loop-crash :
        {x : Fault} → test s ≡ true → body s ≡ crash x → run_loop (suc fuel) test body s ≡ fault x
    unfolding run_loop
    run_loop-crash h e = rw (h, e, run_loop)
