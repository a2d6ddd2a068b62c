-- ===== src/Base/Rounds.antt =====
-- Counting on modulo `n`.
use Prim.Native.Nat.{ℕ, ◌+◌, ◌-◌, ◌<◌, ◌%◌}
use mathlib.Core.Path.{◌≡◌, sym, ap, ◌∙◌}
use mathlib.Core.Logic.{inl, inr}
use native.Mathlib.Omega.{arith}
use native.Mathlib.Nat.{mod-lt, mod-add-mod, add-mod_right, mod-eq_of_lt}
use lancet_tool.Base.Tests.{ltb, Bool-cases}

-- Every `j` below `n` comes within one round.
pub turn_lem : (n idx j : ℕ) → j < n → (k : ℕ) × (k < n) × ((idx + k) % n ≡ j)
turn_lem n idx j h =
    let r = idx % n in
    let small : r < n = mod-lt idx (omega arith) in
    elim (Bool-cases (ltb j r)) [
      | inl wraps ↦
          let e : r + (j + n - r) ≡ j + n = ground arith in
          (
            j + n - r,
            ground arith,
            sym (mod-add-mod idx n (j + n - r))
                ∙ ap (λ t. t % n) e
                ∙ add-mod_right j n
                ∙ mod-eq_of_lt h,
          )
      | inr ahead ↦
          let e : r + (j - r) ≡ j = ground arith in
          (j - r, omega arith, sym (mod-add-mod idx n (j - r)) ∙ ap (λ t. t % n) e ∙ mod-eq_of_lt h)
    ]
