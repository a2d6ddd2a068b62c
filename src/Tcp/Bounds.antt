-- ===== src/Tcp/Bounds.antt =====
-- The bounds of a connection's buffer under handle_response (agents/tp_tcp.c:720-756).
use lancet_tool.Base.{
  refl, ◌^◌, ℕ, ◌+◌, ◌-◌, ◌≤◌, ◌<◌, ◌≡◌, ◌∙◌, List, Outcome, Fault, arith, length, take, drop,
  length-append, length-take, length-drop, ◌==◌, ltb, ◌&&◌, not, check, Bool, true, ltb→lt,
}
use lancet_tool.Base.Each.{Each, Each-ok, Each-fault, Each-bind, Each-after, Each-if}
use lancet_tool.AppProto.{ByteReqPair, Iovec}
use lancet_tool.Tcp.{
  Connection, max_payload, received, handle_response, keep_leftover, no_bytes, some_bytes,
  on_readable, process_response, move_front,
}
use lancet_tool.Tcp.Buffer.{IsValid, received_lem}

length-move_front :
    (n leftover : ℕ) (buffer : List ℕ)
    → n + leftover ≤ length buffer
    → length (move_front n leftover buffer) ≡ length buffer
unfolding move_front
length-move_front n leftover buffer h = omega (
  arith,
  length-append (take leftover (drop n buffer)) (drop leftover buffer),
  length-take leftover (drop n buffer),
  length-drop n buffer,
  length-drop leftover buffer,
)

both_true : (a b : Bool) → (a && b) ≡ true → (a ≡ true) × (b ≡ true)
both_true a b h = ground arith

abbrev ValidResult : ByteReqPair × Connection → Type 0
ValidResult r = IsValid r.1

keep_leftover-IsValid :
    (c : Connection) (brp : ByteReqPair) → IsValid c → Each IsValid (keep_leftover c brp)
unfolding keep_leftover
keep_leftover-IsValid c brp v =
    Each-if (brp.bytes == c.buffer_idx)
      (λ whole. Each-ok IsValid _ (record { size = v.size; index = omega arith }))
      (λ more.
        Each-if (ltb 0 brp.bytes && ltb brp.bytes c.buffer_idx)
          (λ within.
            Each-after (check (ltb (c.buffer_idx - brp.bytes) max_payload))
              (λ u. Each-ok IsValid _ (moved within)))
          (λ strange. Each-fault IsValid Fault.assertion))
  where
    moved :
        (ltb 0 brp.bytes && ltb brp.bytes c.buffer_idx) ≡ true
        → IsValid (record c {
          buffer = move_front brp.bytes (c.buffer_idx - brp.bytes) c.buffer;
          buffer_idx = c.buffer_idx - brp.bytes;
        })
    moved within =
        let below : brp.bytes < c.buffer_idx =
          ltb→lt brp.bytes c.buffer_idx
            (both_true (ltb 0 brp.bytes) (ltb brp.bytes c.buffer_idx) within).1 in
        record {
          size =
              length-move_front brp.bytes (c.buffer_idx - brp.bytes) c.buffer
                (omega (arith, v.size, v.index))
              ∙ v.size;
          index = omega (arith, v.index);
        }

-- For any parser.
pub handle_response-IsValid :
    (consume : Iovec → Outcome ByteReqPair) (c : Connection)
    → IsValid c
    → Each ValidResult (handle_response consume c)
unfolding handle_response no_bytes some_bytes
handle_response-IsValid consume c v =
    Each-after (process_response consume c.buffer c.buffer_idx) (λ brp.
      Each-if (brp.bytes == 0)
        (λ none_whole. Each-after (check (brp.reqs == 0)) (λ u.
          Each-after (check (not (c.buffer_idx == max_payload)))
            (λ u'. Each-ok ValidResult (brp, c) v)))
        (λ some_whole.
          Each-bind IsValid (keep_leftover-IsValid c brp v)
            (λ c' v'. Each-after (check (ltb 0 brp.reqs)) (λ u. Each-ok ValidResult (brp, c') v'))))

pub on_readable-IsValid :
    (consume : Iovec → Outcome ByteReqPair) (c : Connection) (bytes : List ℕ)
    → IsValid c
    → c.buffer_idx + length bytes ≤ max_payload
    → Each ValidResult (on_readable consume c bytes)
unfolding on_readable
on_readable-IsValid consume c bytes v fits =
    Each-bind ValidResult
      (handle_response-IsValid consume (received c bytes) (received_lem c bytes v fits).0)
      (λ r v'. Each-ok ValidResult _ (record { size = v'.size; index = v'.index }))

-- The count of `struct byte_req_pair` has 64 bits.
abbrev pub Counts64 : (Iovec → Outcome ByteReqPair) → Type 0
Counts64 consume = (v : Iovec) → Each (λ b. b.reqs < 2 ^ 64) (consume v)

-- What a call leaves of `pending_reqs`, and what it counts.
abbrev pub Left : Connection → ByteReqPair × Connection → Type 0
Left c r = (r.1.pending_reqs ≡ c.pending_reqs) × (r.0.reqs < 2 ^ 64)

keep_leftover-pending :
    (c : Connection) (brp : ByteReqPair)
    → Each (λ c'. c'.pending_reqs ≡ c.pending_reqs) (keep_leftover c brp)
unfolding keep_leftover
keep_leftover-pending c brp =
    Each-if (brp.bytes == c.buffer_idx) (λ whole. Each-ok _ _ refl)
      (λ more.
        Each-if (ltb 0 brp.bytes && ltb brp.bytes c.buffer_idx)
          (λ within.
            Each-after (check (ltb (c.buffer_idx - brp.bytes) max_payload))
              (λ u. Each-ok (λ c'. c'.pending_reqs ≡ c.pending_reqs) _ refl))
          (λ strange. Each-fault _ Fault.assertion))

pub handle_response-Left :
    (consume : Iovec → Outcome ByteReqPair)
    → Counts64 consume
    → (c : Connection) → Each (Left c) (handle_response consume c)
unfolding handle_response no_bytes some_bytes process_response
handle_response-Left consume small c =
    Each-bind (λ b. b.reqs < 2 ^ 64)
      (small (record { iov_base = c.buffer; iov_len = c.buffer_idx }))
      (λ brp lt.
        Each-if (brp.bytes == 0)
          (λ none_whole. Each-after (check (brp.reqs == 0)) (λ u.
            Each-after (check (not (c.buffer_idx == max_payload)))
              (λ u'. Each-ok (Left c) (brp, c) (refl, lt))))
          (λ some_whole.
            Each-bind (λ c'. c'.pending_reqs ≡ c.pending_reqs) (keep_leftover-pending c brp)
              (λ c' same.
                Each-after (check (ltb 0 brp.reqs)) (λ u. Each-ok (Left c) (brp, c') (same, lt)))))
