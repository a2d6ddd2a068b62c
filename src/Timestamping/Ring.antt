-- ===== src/Timestamping/Ring.antt =====
-- The ring under the pending timestamps: entries at different places of the last `max` stay apart.
use lancet_tool.Base.{
  ℕ, zero, suc, ◌+◌, ◌/◌, ◌%◌, ◌≤◌, ◌<◌, ◌≡◌, ◌≢◌, refl, sym, ap, List, [], ◌∷◌, ◌++◌, arith,
  length, set, get_or, get_or-set_ne,
}
use mathlib.Core.Path.{ap₂}
use native.Mathlib.Nat.{div-add-mod, mul-le-mul_left, mod-lt}
use native.Mathlib.Decide.{dec_le}
use lancet_tool.Timestamping.{TimestampInfo, no_info}

-- Two numbers less than `m` apart leave different remainders.
pub mod-ne : (m j k : ℕ) → k < j → j < k + m → j % m ≢ k % m
mod-ne m j k lo hi e = elim (dec_le (j / m) (k / m)) [
  | yes le ↦ omega (arith, div-add-mod j m, div-add-mod k m, mul-le-mul_left m le)
  | no gt ↦ omega (
    arith,
    div-add-mod j m,
    div-add-mod k m,
    mul-le-mul_left {m = k / m + 1} {n = j / m} m (omega arith),
  )
]

module _ {ℓ} {B : Type ℓ} (view : TimestampInfo → B) (m : ℕ) where
  -- What `view` sees of the `n` entries from the `i`-th on.
  abbrev pub slice : List TimestampInfo → ℕ → ℕ → List B
  slice ring i zero = []
  slice ring i (suc n) = view (get_or ring (i % m) no_info) ∷ slice ring (suc i) n

  -- A write to an entry outside the slice does not change it.
  pub slice-set_after :
      (ring : List TimestampInfo) (i n j : ℕ) (v : TimestampInfo)
      → i + n ≤ j
      → j < i + m
      → slice (set ring (j % m) v) i n ≡ slice ring i n
  slice-set_after ring i zero j v lo hi = refl
  slice-set_after ring i (suc n) j v lo hi =
      ap₂ ◌∷◌
        (ap view (get_or-set_ne ring (j % m) (i % m) v no_info (mod-ne m j i (omega arith) hi)))
        (slice-set_after ring (suc i) n j v (omega arith) (omega arith))

  pub slice-set_before :
      (ring : List TimestampInfo) (i n j : ℕ) (v : TimestampInfo)
      → j < i
      → i + n ≤ j + m
      → slice (set ring (j % m) v) i n ≡ slice ring i n
  slice-set_before ring i zero j v lo hi = refl
  slice-set_before ring i (suc n) j v lo hi =
      ap₂ ◌∷◌
        (ap view (
          get_or-set_ne ring (j % m) (i % m) v no_info
            (λ e. mod-ne m i j lo (omega arith) (sym e))))
        (slice-set_before ring (suc i) n j v (omega arith) (omega arith))

  pub slice-snoc :
      (ring : List TimestampInfo) (i n k : ℕ)
      → k ≡ i + n
      → slice ring i (suc n) ≡ slice ring i n ++ view (get_or ring (k % m) no_info) ∷ []
  slice-snoc ring i zero k e =
      ap (λ t. view (get_or ring (t % m) no_info) ∷ []) (let h : i ≡ k = omega arith in h)
  slice-snoc ring i (suc n) k e =
      ap (◌∷◌ (view (get_or ring (i % m) no_info))) (slice-snoc ring (suc i) n k (omega arith))

  pub slice-cons :
      (ring : List TimestampInfo) (i n k : ℕ)
      → n ≡ suc k
      → slice ring i n ≡ view (get_or ring (i % m) no_info) ∷ slice ring (suc i) k
  slice-cons ring i n k e = ap (slice ring i) e

pub entry_in : (m i : ℕ) (ring : List TimestampInfo) → 0 < m → length ring ≡ m → i % m < length ring
entry_in m i ring h e = omega (arith, mod-lt i h)

-- What a slice that is not empty begins with.
pub slice-inv {ℓ} :
    {B : Type ℓ} (view : TimestampInfo → B) (m : ℕ) (ring : List TimestampInfo) (i n : ℕ) (b : B)
    (rest : List B)
    → slice view m ring i n ≡ b ∷ rest
    → (k : ℕ) × (n ≡ suc k)
      × (view (get_or ring (i % m) no_info) ≡ b)
      × (slice view m ring (suc i) k ≡ rest)
slice-inv view m ring i zero b rest e = absurd (nil≢cons e)
  where
    nil≢cons : [] ≡ b ∷ rest → ⊥
    nil≢cons h = cc
slice-inv view m ring i (suc k) b rest e = (k, refl, cc, cc)
