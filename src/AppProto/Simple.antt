-- ===== src/AppProto/Simple.antt =====
-- The protocols with messages of one size: echo (agents/app_proto.c:46-67) and synthetic
-- (agents/app_proto.c:98-125).
use lancet_tool.Base.{
  ℕ, zero, suc, ◌+◌, ◌-◌, ◌*◌, ◌/◌, ◌^◌, ◌≤◌, ◌<◌, ◌≡◌, refl, List, Option, some, none, arith, ok,
  ◌++◌, ap, ◌∙◌, length, drop, length-drop, ltb, if◌then◌else◌, Bool-cases, inl, inr, ltb→lt,
  length-append,
}
use native.Mathlib.Nat.{div-eq_of_lt, div-eq-sub-div, div-mul-le_self}
use lancet_tool.AppProto.{
  ByteReqPair, plus, one_message, Iovec, echo_consume_response, synthetic_consume_response,
}
use lancet_tool.AppProto.Framing.{IsFraming, scan, decode, scan-none, scan-some}

-- A message is any `m` bytes.
abbrev pub fixed_frame : ℕ → List ℕ → Option ℕ
fixed_frame m xs = if ltb (length xs) m then none else some m

pub fixed_frame-IsFraming : (m : ℕ) → 0 < m → IsFraming (fixed_frame m)
fixed_frame-IsFraming m h = record {
  pos = λ xs n e. ground arith;
  within = λ xs n e. ground arith;
  stable = λ xs ys n e. ground (arith, length-append xs ys);
}

-- `q` messages of `m` bytes.
abbrev whole : ℕ → ℕ → ByteReqPair
whole m q = record { bytes = q * m; reqs = q }

plus-whole : (m q r : ℕ) → r ≡ q + 1 → plus (one_message m) (whole m q) ≡ whole m r
plus-whole m q r e = ground (arith, ap (λ t. t * m) e)

scan-fixed :
    (m : ℕ)
    → 0 < m
    → (f : ℕ) (xs : List ℕ) → length xs ≤ f
    → scan (fixed_frame m) f xs ≡ whole m (length xs / m)
unfolding scan
scan-fixed m h zero xs k = rw (div-eq_of_lt {n = length xs} {m = m} (omega arith)) (ground arith)
scan-fixed m h (suc f) xs k = elim (Bool-cases (ltb (length xs) m)) [
  | inl short ↦
      scan-none (fixed_frame m) (suc f) xs (rw short refl)
      ∙ rw (div-eq_of_lt (ltb→lt _ _ short)) (ground arith)
  | inr long ↦
      let le : m ≤ length xs = ground arith in
      let few : length (drop m xs) ≤ f = omega (arith, length-drop m xs) in
      scan-some (fixed_frame m) f xs m (rw long refl)
      ∙ rw (scan-fixed m h f (drop m xs) few, length-drop m xs)
          (plus-whole m ((length xs - m) / m) (length xs / m) (div-eq-sub-div h le))
]

-- For a message size that is not 0 and a response shorter than 2^64 bytes, the echo parser counts
-- the whole messages at the front of the response, whatever the bytes are.
pub echo_consume_response-decode :
    (msg : Iovec) (xs stale : List ℕ)
    → 0 < msg.iov_len
    → length xs < 2 ^ 64
    → echo_consume_response msg (record { iov_base = xs ++ stale; iov_len = length xs })
      ≡ ok (decode (fixed_frame msg.iov_len) xs)
unfolding echo_consume_response
echo_consume_response-decode msg xs stale h k =
    rw (scan-fixed msg.iov_len h (length xs) xs (omega arith))
      (ground (arith, div-mul-le_self (length xs) msg.iov_len))

-- On a response shorter than 2^64 bytes, the synthetic parser counts the whole 8-byte messages at its
-- front, whatever the bytes are.
pub synthetic_consume_response-decode :
    (xs stale : List ℕ)
    → length xs < 2 ^ 64
    → synthetic_consume_response (record { iov_base = xs ++ stale; iov_len = length xs })
      ≡ ok (decode (fixed_frame 8) xs)
unfolding synthetic_consume_response
synthetic_consume_response-decode xs stale k =
    rw (scan-fixed 8 (omega arith) (length xs) xs (omega arith)) (ground arith)
