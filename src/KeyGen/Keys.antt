-- ===== src/KeyGen/Keys.antt =====
-- The keys are of one size, and number themselves (agents/key_gen.c:34-56).
use lancet_tool.Base.{
  some_inj, ℕ, zero, suc, ◌+◌, ◌-◌, ◌/◌, ◌%◌, ◌^◌, ◌≤◌, ◌<◌, ◌≡◌, ◌≢◌, refl, sym, ap, ◌∙◌, [], ◌∷◌,
  ◌++◌, false, ◌==◌, take, length, replicate, get_elem?, some, ok, arith, take-of_le, length-append,
  length-replicate, take-append_of_le,
}
use native.Mathlib.Nat.{div-eq_of_lt, mod-lt}
use lancet_tool.AppProto.{Iovec}
use lancet_tool.Libc.{read_digits, decimal}
use lancet_tool.Libc.Padded.{padded_value, length-decimal}
use lancet_tool.KeyGen.{padded, generate_key, keys_from, generate_keys, uniform_get_key}

-- The number `i`, printed in `size` digits.
pub record IsKey (size i : ℕ) (key : Iovec) : Type 0 where
  pub sized : key.iov_len ≡ size
  pub full : length (take key.iov_len key.iov_base) ≡ size
  pub number : read_digits 0 (take key.iov_len key.iov_base) ≡ i

padded_lem :
    (size i : ℕ)
    → 0 < size
    → i < 10 ^ size
    → (length (padded size i) ≡ size) × (read_digits 0 (padded size i) ≡ i)
unfolding padded
padded_lem size i p lt =
    let k = size - length (decimal i) in
    let zeros = replicate k b'0' in
    let short : length (decimal i) ≤ size = length-decimal i size p lt in
    let n : length (zeros ++ decimal i) ≡ size =
      omega (arith, length-append zeros (decimal i), length-replicate {A = ℕ} k b'0') in
    let whole : take size (zeros ++ decimal i) ≡ zeros ++ decimal i =
      take-of_le size (zeros ++ decimal i) (omega arith) in
    (ap length whole ∙ n, ap (read_digits 0) whole ∙ padded_value k i)

generate_key-IsKey :
    (inv_cdf : ℕ → ℕ) (key_count i : ℕ)
    → i < key_count
    → 0 < inv_cdf 0
    → key_count ≤ 10 ^ inv_cdf 0
    → IsKey (inv_cdf 0) i (generate_key inv_cdf key_count i)
unfolding generate_key
generate_key-IsKey inv_cdf key_count i lt p room =
    let size = inv_cdf 0 in
    let one_size : inv_cdf (i / key_count) ≡ size = ap inv_cdf (div-eq_of_lt lt) in
    let (n, value) = padded_lem size i p (omega arith) in
    let cut : take size (padded size i ++ 0 ∷ []) ≡ padded size i =
      take-append_of_le size (padded size i) (0 ∷ []) (omega arith)
      ∙ take-of_le size (padded size i) (omega arith) in
    rw one_size
      (record { sized = refl; full = ap length cut ∙ n; number = ap (read_digits 0) cut ∙ value })

get_elem?-keys_from :
    (inv_cdf : ℕ → ℕ) (key_count left i j : ℕ)
    → j < left
    → get_elem? (keys_from inv_cdf key_count left i) j
      ≡ some (generate_key inv_cdf key_count (i + j))
unfolding keys_from
get_elem?-keys_from inv_cdf key_count zero i j h = absurd (omega arith)
get_elem?-keys_from inv_cdf key_count (suc left) i zero h =
    ap (λ n. some (generate_key inv_cdf key_count n)) (omega arith)
get_elem?-keys_from inv_cdf key_count (suc left) i (suc j) h =
    get_elem?-keys_from inv_cdf key_count left (suc i) j (omega arith)
    ∙ ap (λ n. some (generate_key inv_cdf key_count n))
        (let e : suc i + j ≡ i + suc j = omega arith in e)

-- Whatever number `rand()` gives: `uniform_get_key` finds a key among those of `generate_keys`, which is
-- the number modulo the count, printed in as many digits as the size distribution has at 0, if those are
-- enough for all keys.
pub uniform_get_key_lem :
    (inv_cdf : ℕ → ℕ) (key_count idx : ℕ)
    → 0 < key_count
    → 0 < inv_cdf 0
    → key_count ≤ 10 ^ inv_cdf 0
    → (key : Iovec) × (uniform_get_key (generate_keys inv_cdf key_count) key_count idx ≡ ok key)
      × IsKey (inv_cdf 0) (idx % key_count) key
unfolding uniform_get_key generate_keys
uniform_get_key_lem inv_cdf key_count idx some_key p room =
    let i = idx % key_count in
    let lt : i < key_count = mod-lt idx some_key in
    let there = get_elem?-keys_from inv_cdf key_count key_count 0 i lt in
    let start : 0 + i ≡ i = omega arith in
    let counted : (key_count == 0) ≡ false = ground arith in
    (
      generate_key inv_cdf key_count i,
      rw (counted, there ∙ ap (λ n. some (generate_key inv_cdf key_count n)) start) refl,
      generate_key-IsKey inv_cdf key_count i lt p room,
    )

-- Two keys of `generate_keys` at different indices differ in their bytes, if the digits of the size
-- distribution at 0 are enough for all keys.
pub generate_keys_distinct :
    (inv_cdf : ℕ → ℕ) (key_count i j : ℕ) (k l : Iovec)
    → i < key_count
    → j < key_count
    → 0 < inv_cdf 0
    → key_count ≤ 10 ^ inv_cdf 0
    → get_elem? (generate_keys inv_cdf key_count) i ≡ some k
    → get_elem? (generate_keys inv_cdf key_count) j ≡ some l
    → i ≢ j
    → take k.iov_len k.iov_base ≢ take l.iov_len l.iov_base
unfolding generate_keys
generate_keys_distinct inv_cdf key_count i j k l lt lt' p room at at' ne =
    λ same. ne (sym (number i k lt at) ∙ ap (read_digits 0) same ∙ number j l lt' at')
  where
    number :
        (m : ℕ) (key : Iovec)
        → m < key_count
        → get_elem? (keys_from inv_cdf key_count key_count 0) m ≡ some key
        → read_digits 0 (take key.iov_len key.iov_base) ≡ m
    number m key small found =
        let start : 0 + m ≡ m = omega arith in
        let is : generate_key inv_cdf key_count m ≡ key = some_inj (
          ap (λ n. some (generate_key inv_cdf key_count n)) (sym start)
          ∙ sym (get_elem?-keys_from inv_cdf key_count key_count 0 m small)
          ∙ found) in
        ap (λ t. read_digits 0 (take t.iov_len t.iov_base)) (sym is)
        ∙ (generate_key-IsKey inv_cdf key_count m small p room).number
