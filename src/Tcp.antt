-- ===== src/Tcp.antt =====
-- agents/tp_tcp.c: the connections, the buffer of partial responses, and the partial writes.
pub mod Buffer
pub mod Bounds
pub mod Stream
pub mod Parsers
pub mod Send
pub mod Pick
pub mod Symmetric
pub mod Throughput
pub mod Loops
pub mod Latency
mod Tests
use lancet_tool.Base.{
  ℕ, zero, suc, ◌+◌, ◌-◌, ◌*◌, ◌/◌, ◌%◌, ◌^◌, List, [], ◌∷◌, ◌++◌, Outcome, ok, fault, Fault, ◌>>=◌,
  ◌>>◌, check, Bool, true, false, not, ◌&&◌, ◌==◌, ltb, if◌then◌else◌, take, drop, length, Option,
  some, none, get_elem?,
}
use lancet_tool.AppProto.{ByteReqPair, zero_pair, plus, Iovec}

-- `MAX_PAYLOAD` of inc/lancet/tp_proto.h
abbrev pub max_payload : ℕ
max_payload = 16384

-- `struct tcp_connection` of inc/lancet/tp_proto.h
pub record Connection : Type 0 where
  pub fd : ℕ
  pub idx : ℕ
  pub closed : Bool
  pub pending_reqs : ℕ
  pub buffer_idx : ℕ
  pub buffer : List ℕ

-- `uint16_t` arithmetic
abbrev pub add_u16 : ℕ → ℕ → ℕ
add_u16 a b = (a + b) % 2 ^ 16

abbrev pub sub_u16 : ℕ → ℕ → ℕ
sub_u16 a b = (a + 2 ^ 64 - b) % 2 ^ 16

-- `process_response(buf, size)` of agents/agent.c, for the parser of the application protocol.
pub process_response : (Iovec → Outcome ByteReqPair) → List ℕ → ℕ → Outcome ByteReqPair
process_response consume buf size = consume (record { iov_base = buf; iov_len = size })

-- What `recv(fd, &buffer[buffer_idx], MAX_PAYLOAD - buffer_idx, 0)` does to the connection when it
-- returns these bytes, with `buffer_idx += ret`.
unfoldable pub received : Connection → List ℕ → Connection
received c bytes = record c {
  buffer = take c.buffer_idx c.buffer ++ (bytes ++ drop (c.buffer_idx + length bytes) c.buffer);
  buffer_idx = add_u16 c.buffer_idx (length bytes);
}

-- `memmove(buffer, &buffer[n], leftover)`
move_front : ℕ → ℕ → List ℕ → List ℕ
move_front n leftover buffer = take leftover (drop n buffer) ++ drop leftover buffer

-- The branches of `handle_response` where bytes were consumed.
keep_leftover : Connection → ByteReqPair → Outcome Connection
unfolding move_front
keep_leftover c brp =
    let leftover = c.buffer_idx - brp.bytes in
    if brp.bytes == c.buffer_idx
    then ok (record c { buffer_idx = 0 })
    else if ltb 0 brp.bytes && ltb brp.bytes c.buffer_idx
    then (check (ltb leftover max_payload)
        >> ok (record c { buffer = move_front brp.bytes leftover c.buffer; buffer_idx = leftover }))
    else fault Fault.assertion

-- The branch where nothing was consumed: a full buffer will never hold the response.
no_bytes : Connection → ByteReqPair → Outcome (ByteReqPair × Connection)
no_bytes c brp = do check (brp.reqs == 0); check (not (c.buffer_idx == max_payload)); ok (brp, c)

some_bytes : Connection → ByteReqPair → Outcome (ByteReqPair × Connection)
unfolding keep_leftover
some_bytes c brp = do c' ← keep_leftover c brp; check (ltb 0 brp.reqs); ok (brp, c')

-- `handle_response`
unfoldable pub handle_response :
    (Iovec → Outcome ByteReqPair) → Connection → Outcome (ByteReqPair × Connection)
unfolding process_response no_bytes some_bytes
handle_response consume c = process_response consume c.buffer c.buffer_idx >>= λ brp.
    if brp.bytes == 0 then no_bytes c brp else some_bytes c brp

-- What the event loops do with the bytes of one `recv`, until the response is accounted for:
-- `pending_reqs -= reqs`.
pub on_readable :
    (Iovec → Outcome ByteReqPair) → Connection → List ℕ → Outcome (ByteReqPair × Connection)
unfolding handle_response received
on_readable consume c bytes = do
  (brp, c') ← handle_response consume (received c bytes)
  ok (brp, record c' { pending_reqs = sub_u16 c'.pending_reqs brp.reqs })

-- One `recv` after the other, with the counts summed as the statistics sum them.
pub read_chunks :
    (Iovec → Outcome ByteReqPair)
    → Connection
    → ByteReqPair
    → List (List ℕ)
    → Outcome (ByteReqPair × Connection)
read_chunks consume c total [] = ok (total, c)
read_chunks consume c total (bytes ∷ chunks) =
    on_readable consume c bytes >>= λ r. read_chunks consume r.1 (plus total r.0) chunks

-- `pick_conn`: the next connection in turn, if it is open and has room for a request. The index is a
-- 32-bit counter. `none` for the connection is NULL.
pub pick_conn :
    (per_thread_conn max_pending : ℕ) → List Connection → ℕ → Outcome (Option Connection × ℕ)
pick_conn per_thread_conn max_pending connections conn_idx =
    let next = (conn_idx + 1) % 2 ^ 32 in
    if per_thread_conn == 0
    then fault Fault.div_by_zero
    else elim (get_elem? connections (conn_idx % per_thread_conn)) [
      | none ↦ fault Fault.out_of_bounds
      | some c ↦
          if ltb c.pending_reqs max_pending && not c.closed
          then ok (some c, next)
          else ok (none, next)
    ]
