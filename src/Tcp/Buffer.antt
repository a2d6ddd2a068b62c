-- ===== src/Tcp/Buffer.antt =====
-- `handle_response` (agents/tp_tcp.c:722-756) keeps the bytes that no whole response has used.
use lancet_tool.Base.{
  ℕ, ◌+◌, ◌-◌, ◌%◌, ◌^◌, ◌≤◌, ◌<◌, ◌≡◌, refl, sym, ap, ◌∙◌, List, ◌++◌, Outcome, ok, fault, Fault,
  true, arith, Option, length, take, drop, length-append, length-take, length-drop,
  take-append-drop, drop-of_le, Bool-cases, inl, inr, ◌==◌, drop-take, take-length_append,
  append_assoc,
}
use lancet_tool.AppProto.{ByteReqPair, Iovec}
use lancet_tool.AppProto.Framing.{IsFraming, decode, scan_bounds}
use lancet_tool.Tcp.{Connection, max_payload, received, handle_response, no_bytes, some_bytes}

-- What a response parser owes to its callers: on what the buffer can hold it returns, and counts
-- the whole messages at the front.
pub record Parses (consume : Iovec → Outcome ByteReqPair) (frame : List ℕ → Option ℕ) : Type 0 where
  pub framing : IsFraming frame
  pub counts :
      (xs stale : List ℕ)
      → length xs ≤ max_payload
      → consume (record { iov_base = xs ++ stale; iov_len = length xs }) ≡ ok (decode frame xs)

-- The buffer has its size, and the index is within it.
pub record IsValid (c : Connection) : Type 0 where
  pub size : length c.buffer ≡ max_payload
  pub index : c.buffer_idx ≤ max_payload

-- The bytes that wait for the rest of their response.
abbrev pub waiting : Connection → List ℕ
waiting c = take c.buffer_idx c.buffer

pub length-waiting : (c : Connection) → IsValid c → length (waiting c) ≡ c.buffer_idx
length-waiting c v = omega (arith, length-take c.buffer_idx c.buffer)

-- `recv` appends, as long as the bytes fit.
pub received_lem :
    (c : Connection) (bytes : List ℕ)
    → IsValid c
    → c.buffer_idx + length bytes ≤ max_payload
    → IsValid (received c bytes) × (waiting (received c bytes) ≡ waiting c ++ bytes)
unfolding received
received_lem c bytes v h =
    let kept = drop (c.buffer_idx + length bytes) c.buffer in
    let n : length (waiting c) ≡ c.buffer_idx = length-waiting c v in
    let m : length (waiting c ++ bytes) ≡ (c.buffer_idx + length bytes) % 2 ^ 16 =
      omega (arith, length-append (waiting c) bytes) in
    (
      record {
        size = omega (
          arith,
          length-append (waiting c) (bytes ++ kept),
          length-append bytes kept,
          length-drop (c.buffer_idx + length bytes) c.buffer,
        );
        index = omega arith;
      },
      rw (← m, ← append_assoc (waiting c) bytes kept)
          (take-length_append (waiting c ++ bytes) kept),
    )

-- The bytes that stay when `n` of the waiting ones are taken off, as `memmove` leaves them.
moved : Connection → ℕ → Connection
moved c n = record c {
  buffer = take (c.buffer_idx - n) (drop n c.buffer) ++ drop (c.buffer_idx - n) c.buffer;
  buffer_idx = c.buffer_idx - n;
}

moved_lem :
    (c : Connection) (n : ℕ)
    → IsValid c
    → n ≤ c.buffer_idx
    → IsValid (moved c n) × (waiting (moved c n) ≡ drop n (waiting c))
unfolding moved
moved_lem c n v h =
    let kept = drop (c.buffer_idx - n) c.buffer in
    let front = take (c.buffer_idx - n) (drop n c.buffer) in
    let m : length front ≡ c.buffer_idx - n =
      omega (arith, length-take (c.buffer_idx - n) (drop n c.buffer), length-drop n c.buffer) in
    (
      record {
        size = omega (arith, length-append front kept, length-drop (c.buffer_idx - n) c.buffer);
        index = omega arith;
      },
      ap (λ k. take k (front ++ kept)) (sym m)
          ∙ take-length_append front kept
          ∙ sym (drop-take n c.buffer_idx c.buffer h),
    )

no_bytes_lem :
    (c : Connection) (brp : ByteReqPair)
    → brp.bytes ≡ 0
    → brp.reqs ≤ brp.bytes
    → c.buffer_idx < max_payload
    → no_bytes c brp ≡ ok (brp, c)
unfolding no_bytes
no_bytes_lem c brp z le h = ground arith

some_bytes_lem :
    (c : Connection) (brp : ByteReqPair)
    → IsValid c
    → 0 < brp.bytes
    → brp.bytes ≤ c.buffer_idx
    → 0 < brp.reqs
    → (c' : Connection) × (some_bytes c brp ≡ ok (brp, c'))
      × (waiting c' ≡ drop brp.bytes (waiting c))
      × IsValid c'
      × ((c'.pending_reqs ≡ c.pending_reqs) × (c'.closed ≡ c.closed))
unfolding some_bytes moved
some_bytes_lem c brp v pos le h = elim (Bool-cases (brp.bytes == c.buffer_idx)) [
  | inl all ↦ (
    record c { buffer_idx = 0 },
    ground arith,
    sym (drop-of_le brp.bytes (waiting c) (ground (arith, length-waiting c v))),
    record { size = v.size; index = omega arith },
    (refl, refl),
  )
  | inr part ↦
      let (valid, kept) = moved_lem c brp.bytes v le in
      (moved c brp.bytes, ground arith, kept, valid, (refl, refl))
]

-- What a call of `handle_response` did: it counted the whole messages of the waiting bytes, and left
-- the other bytes waiting. Nothing else of the connection changed.
pub record Handled (frame : List ℕ → Option ℕ) (c : Connection) (r : ByteReqPair × Connection)
    : Type 0 where
  pub counted : r.0 ≡ decode frame (waiting c)
  pub kept : waiting r.1 ≡ drop r.0.bytes (waiting c)
  pub valid : IsValid r.1
  pub pending : r.1.pending_reqs ≡ c.pending_reqs
  pub open_still : r.1.closed ≡ c.closed

module _ (consume : Iovec → Outcome ByteReqPair) (frame : List ℕ → Option ℕ)
    (p : Parses consume frame) where
  consume_waiting :
      (c : Connection)
      → IsValid c
      → consume (record { iov_base = c.buffer; iov_len = c.buffer_idx })
        ≡ ok (decode frame (waiting c))
  consume_waiting c v =
      let n : length (waiting c) ≡ c.buffer_idx = length-waiting c v in
      ap (λ b. consume (record { iov_base = b; iov_len = c.buffer_idx }))
        (sym (take-append-drop c.buffer_idx c.buffer))
      ∙ ap
          (λ k.
            consume (record { iov_base = waiting c ++ drop c.buffer_idx c.buffer; iov_len = k }))
          (sym n)
      ∙ p.counts (waiting c) (drop c.buffer_idx c.buffer) (omega arith)

  -- A parser that keeps its contract fails no assertion of `handle_response`: unless the buffer is full
  -- with no whole message in it, the call counts the whole messages that wait and keeps the rest.
  pub handle_response_lem :
      (c : Connection)
      → IsValid c
      → ((decode frame (waiting c)).bytes ≡ 0 → length (waiting c) < max_payload)
      → (r : ByteReqPair × Connection) × (handle_response consume c ≡ ok r) × Handled frame c r
  unfolding handle_response
  handle_response_lem c v room =
      let brp = decode frame (waiting c) in
      let n : length (waiting c) ≡ c.buffer_idx = length-waiting c v in
      let bounds = scan_bounds frame p.framing (length (waiting c)) (waiting c) in
      let run = consume_waiting c v in
      elim (Bool-cases (brp.bytes == 0)) [
        | inl none_whole ↦
            let zero_bytes : brp.bytes ≡ 0 = ground arith in
            (
              (brp, c),
              rw (
                run,
                none_whole,
                no_bytes_lem c brp zero_bytes (omega arith) (omega (arith, room zero_bytes)),
              ),
              record {
                counted = refl;
                kept = ap (λ k. drop k (waiting c)) (sym zero_bytes);
                valid = v;
                pending = refl;
                open_still = refl;
              },
            )
        | inr some_whole ↦
            let positive : 0 < brp.bytes = ground arith in
            let (c', ran, kept, valid, same) =
              some_bytes_lem c brp v positive (omega arith) (omega arith) in
            (
              (brp, c'),
              rw (run, some_whole, ran),
              record {
                counted = refl;
                kept = kept;
                valid = valid;
                pending = same.0;
                open_still = same.1;
              },
            )
      ]

  -- A buffer that is full of one response, of which more is still to come: the call fails its assertion.
  pub handle_response_full :
      (c : Connection)
      → IsValid c
      → c.buffer_idx ≡ max_payload
      → (decode frame (waiting c)).bytes ≡ 0
      → handle_response consume c ≡ fault Fault.assertion
  unfolding handle_response no_bytes
  handle_response_full c v full none_whole =
      let brp = decode frame (waiting c) in
      let bounds = scan_bounds frame p.framing (length (waiting c)) (waiting c) in
      let no_reqs : (brp.reqs == 0) ≡ true = ground (arith, bounds) in
      let no_whole : (brp.bytes == 0) ≡ true = ground arith in
      let at_end : (c.buffer_idx == max_payload) ≡ true = ground arith in
      rw (consume_waiting c v, no_whole, no_reqs, at_end) refl
