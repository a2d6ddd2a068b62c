-- ===== src/AppProto/Requests.antt =====
-- The requests of the echo and synthetic protocols (agents/app_proto.c:46-67 and 98-125).
use lancet_tool.Base.{
  ℕ, zero, suc, ◌+◌, ◌*◌, ◌/◌, ◌%◌, ◌^◌, ◌<◌, ◌≡◌, refl, ap, ◌∙◌, List, [], ◌∷◌, append-nil, Option,
  some, none, arith, ok, length, take, set, get_elem?, ◌==◌, false,
}
use native.Mathlib.Nat.{div_self, mod-add-div, div-lt_iff_lt-mul, pow-suc}
use lancet_tool.AppProto.{
  one_message, Iovec, Request, gather, payload, echo_create_request, echo_consume_response,
  synthetic_create_request, long_bytes, read_le,
}

-- A request of one iovec is the bytes of that iovec.
first_only :
    (iovs : List Iovec) (v : Iovec)
    → 0 < length iovs
    → gather (take 1 (set iovs 0 v)) ≡ take v.iov_len v.iov_base
first_only [] v h = absurd (omega arith)
first_only (w ∷ iovs) v h = append-nil (take v.iov_len v.iov_base)

-- The request of the echo protocol is the fixed message, and the parser counts what comes back as one
-- response of its size.
pub echo_round_trip :
    (msg : Iovec) (req : Request)
    → 0 < length req.iovs
    → 0 < msg.iov_len
    → msg.iov_len < 2 ^ 64
    → (payload (echo_create_request msg req) ≡ take msg.iov_len msg.iov_base)
      × (echo_consume_response msg
            (record { iov_base = payload (echo_create_request msg req); iov_len = msg.iov_len })
          ≡ ok (one_message msg.iov_len))
unfolding echo_create_request echo_consume_response
echo_round_trip msg req some_iov pos_len small =
    let one_whole : msg.iov_len / msg.iov_len ≡ 1 = div_self pos_len in
    let tested : (msg.iov_len == 0) ≡ false = ground arith in
    let size : 1 * msg.iov_len % 2 ^ 64 ≡ msg.iov_len = omega arith in
    (first_only req.iovs msg some_iov, rw (tested, one_whole, size) refl)

-- A `long` is read back from its bytes.
read_le-suc : (n b i : ℕ) (xs : List ℕ) → read_le n (b ∷ xs) (suc i) ≡ read_le n xs i
unfolding read_le
read_le-suc zero b i xs = refl
read_le-suc (suc n) b i xs =
    let rest : Option ℕ → Option ℕ = λ o. elim (get_elem? xs i) [
      | none ↦ none
      | some c ↦ elim o [ none ↦ none | some v ↦ some (c + 256 * v) ]
    ] in
    ap rest (read_le-suc n b (suc i) xs)

read_le-long_bytes : (n v : ℕ) → v < 256 ^ n → read_le n (long_bytes n v) 0 ≡ some v
unfolding read_le
read_le-long_bytes zero v h = ap some (omega arith)
read_le-long_bytes (suc n) v h =
    let split : v % 256 + 256 * (v / 256) ≡ v = mod-add-div v 256 in
    let small : v / 256 < 256 ^ n =
      (div-lt_iff_lt-mul {k = 256} (omega arith)).1 (rw (pow-suc 256 n) at h) in
    rw (read_le-suc n (v % 256) 0 (long_bytes n (v / 256)), read_le-long_bytes n (v / 256) small)
      (ap some split)

-- The request of the synthetic protocol is eight bytes, from which a server on a little-endian machine
-- reads the service time that was drawn.
pub synthetic_create_request_lem :
    (v : ℕ) (req : Request)
    → 0 < length req.iovs
    → v < 2 ^ 64
    → (length (payload (synthetic_create_request v req)) ≡ 8)
      × (read_le 8 (payload (synthetic_create_request v req)) 0 ≡ some v)
unfolding synthetic_create_request
synthetic_create_request_lem v req some_iov small =
    let message : Iovec = record { iov_base = long_bytes 8 v; iov_len = 8 } in
    let bytes : payload (synthetic_create_request v req) ≡ long_bytes 8 v =
      first_only req.iovs message some_iov in
    (ap length bytes, ap (λ t. read_le 8 t 0) bytes ∙ read_le-long_bytes 8 v small)
