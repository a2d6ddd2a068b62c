-- ===== src/KeyGen.antt =====
-- agents/key_gen.c: the keys of the key-value protocols. The inverse distribution function of the key
-- sizes, rounded as the source rounds it, is an argument.
pub mod Keys
pub mod Init
mod Tests
use lancet_tool.Base.{
  ℕ, zero, suc, ◌+◌, ◌-◌, ◌/◌, ◌%◌, ◌==◌, if◌then◌else◌, List, [], ◌∷◌, ◌++◌, take, length,
  replicate, get_elem?, Option, some, none, Outcome, ok, fault, Fault,
}
use lancet_tool.AppProto.{Iovec}
use lancet_tool.Libc.{decimal}

-- `snprintf(base, key_size + 1, "%0*d", key_size, i)`
unfoldable pub padded : (key_size i : ℕ) → List ℕ
padded key_size i = take key_size (replicate (key_size - length (decimal i)) b'0' ++ decimal i)

-- One round of `generate_keys`; the division is one of integers.
unfoldable pub generate_key : (inv_cdf : ℕ → ℕ) (key_count i : ℕ) → Iovec
unfolding padded
generate_key inv_cdf key_count i =
    let key_size = inv_cdf (i / key_count) in
    record { iov_base = padded key_size i ++ 0 ∷ []; iov_len = key_size }

-- The loop of `generate_keys` from `i` on, with `left` rounds to go.
pub keys_from : (ℕ → ℕ) → (key_count left i : ℕ) → List Iovec
unfolding generate_key
keys_from inv_cdf key_count zero i = []
keys_from inv_cdf key_count (suc left) i =
    generate_key inv_cdf key_count i ∷ keys_from inv_cdf key_count left (suc i)

-- `generate_keys`
pub generate_keys : (ℕ → ℕ) → ℕ → List Iovec
unfolding keys_from
generate_keys inv_cdf key_count = keys_from inv_cdf key_count key_count 0

-- `uniform_get_key`, for the number that `rand()` gives.
pub uniform_get_key : List Iovec → (key_count idx : ℕ) → Outcome Iovec
uniform_get_key keys key_count idx =
    if key_count == 0 then fault Fault.div_by_zero else elim (get_elem? keys (idx % key_count)) [
      | none ↦ fault Fault.out_of_bounds
      | some key ↦ ok key
    ]
