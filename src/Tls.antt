-- ===== src/Tls.antt =====
-- agents/tp_ssl.c: `symmetric_ssl_main` (233-361), the only agent of the TLS transport, from the point
-- where the connections are open. OpenSSL is not of this repository: what `SSL_write` and `SSL_read`
-- return are arguments, and so is malloc.
pub mod Copy
pub mod Reading
mod Tests
use lancet_tool.Base.{
  ℕ, zero, suc, ◌+◌, ◌-◌, ◌==◌, ltb, if◌then◌else◌, List, [], ◌∷◌, ◌++◌, Bool, true, false, Option,
  some, none, take, drop, length, ℤ, pos, eqb_ℤ, Outcome, ok, fault, Fault, ◌>>=◌, ◌>>◌, check,
}
use lancet_tool.AppProto.{ByteReqPair, Iovec, Request}
use lancet_tool.Timespec.{TimeSpec}
use lancet_tool.Stats.{ThreadStats, add_throughput_rx_sample, add_throughput_tx_sample}
use lancet_tool.Timestamping.{TimestampInfo, pop_pending_tx_timestamps, push_complete_tx_timestamp}
use lancet_tool.EventLoop.{Handlers}
use lancet_tool.Tcp.{Connection, max_payload, add_u16, sub_u16, received, handle_response}
use lancet_tool.Tcp.Send.{total_len}
use lancet_tool.Tcp.Symmetric.{SymState, record_latency}
use lancet_tool.Tcp.Loops.{pick_item}
use lancet_tool.Tcp.Loops.Timed.{Link, to_state, to_link}

-- `wbuf`, which grows when the request is larger. `malloc` gives the bytes of the new memory.
grow : (malloc : ℕ → List ℕ) → (bytes_to_send : ℕ) → List ℕ → List ℕ
grow malloc bytes_to_send wbuf =
    if ltb (length wbuf) bytes_to_send then malloc bytes_to_send else wbuf

-- `memcpy(&wbuf[copied], bytes, size)`
abbrev pub overwrite : List ℕ → ℕ → List ℕ → List ℕ
overwrite wbuf copied bytes = take copied wbuf ++ (bytes ++ drop (copied + length bytes) wbuf)

-- The loop that copies the request: the buffer, and `copied`.
pub copy_iovs : List ℕ → ℕ → List Iovec → Outcome (List ℕ × ℕ)
copy_iovs wbuf copied [] = ok (wbuf, copied)
copy_iovs wbuf copied (v ∷ vs) =
    let bytes = take v.iov_len v.iov_base in
    let rest = copy_iovs (overwrite wbuf copied bytes) (copied + v.iov_len) vs in
    if ltb (length wbuf) (copied + v.iov_len) then fault Fault.out_of_bounds else rest

-- The buffer that is handed to `SSL_write`.
pub fill_wbuf : (malloc : ℕ → List ℕ) → List ℕ → List Iovec → Outcome (List ℕ)
unfolding grow copy_iovs
fill_wbuf malloc wbuf iovs = copy_iovs (grow malloc (total_len iovs) wbuf) 0 iovs >>= λ r.
    check (r.1 == total_len iovs) >> ok r.0

-- The input of a send: the request, `wbuf` as the send before left it, what `SSL_write` returns, the time
-- behind it, the draw of `add_tx_timestamp` and a flag.
pub record TlsSend : Type 0 where
  pub request : Request
  pub wbuf : List ℕ
  pub ret : ℤ
  pub tx_timestamp : TimeSpec
  pub sampled : Bool
  pub should_measure : Bool

-- A request: the bytes that `SSL_write` took, and the new state.
pub on_tls_send : (malloc : ℕ → List ℕ) → ℕ → TlsSend → SymState → Outcome (List ℕ × SymState)
unfolding fill_wbuf
on_tls_send malloc max_pending x s =
    let iovs = take x.request.iov_cnt x.request.iovs in
    let c = s.conn in
    let a = s.times in
    let (ring, stats) =
      push_complete_tx_timestamp max_pending x.sampled a.ring x.tx_timestamp a.stats in
    let send_res : ByteReqPair = record { bytes = total_len iovs; reqs = 1 } in
    fill_wbuf malloc x.wbuf iovs >>= λ wbuf.
    check (eqb_ℤ x.ret (pos (total_len iovs)))
    >> ok (
      take (total_len iovs) wbuf,
      record s {
        conn = record c { pending_reqs = add_u16 c.pending_reqs 1 };
        times = record a {
          ring = ring;
          stats = add_throughput_tx_sample x.should_measure send_res stats;
        };
      },
    )

-- What `SSL_read` and `SSL_get_error` come to: some bytes, an incomplete record, the end of the
-- connection, or another error.
pub data TlsResult : Type 0 where
  decrypted : List ℕ → TlsResult
  want_read shut_down unexpected : TlsResult

-- The loop over `j`: every answered request has its time in the ring.
pub pop_times :
    ℕ → (reqs : ℕ) → Option TimestampInfo → SymState → Outcome (Option TimestampInfo × SymState)
pop_times max_pending zero pending_tx s = ok (pending_tx, s)
pop_times max_pending (suc reqs) pending_tx s =
    let a = s.times in
    pop_pending_tx_timestamps max_pending a.ring >>= λ r. elim r.0 [
      | none ↦ fault Fault.assertion
      | some info ↦
          pop_times max_pending reqs (some info) (record s { times = record a { ring = r.1 } })
    ]

-- What follows an `SSL_read` of these bytes at the time `rx_timestamp`, and whether the round came to
-- its end.
pub on_tls_readable :
    (Iovec → Outcome ByteReqPair)
    → Bool
    → ℕ
    → ℕ
    → TimeSpec
    → SymState
    → List ℕ
    → Outcome (SymState × Bool)
unfolding pop_times
on_tls_readable consume should_measure period max_pending rx_timestamp s bytes =
    handle_response consume (received s.conn bytes) >>= λ h.
    let read_res : ByteReqPair = h.0 in
    let c = h.1 in
    let left : SymState = record s {
      conn = record c { pending_reqs = sub_u16 c.pending_reqs read_res.reqs };
    } in
    if read_res.reqs == 0
    then ok (record s { conn = c }, false)
    else (pop_times max_pending read_res.reqs none left >>= λ m.
        let after : SymState = m.1 in
        let a = after.times in
        record_latency should_measure period rx_timestamp m.0 a.stats >>= λ stats. ok (
          record after {
            times = record a { stats = add_throughput_rx_sample should_measure read_res stats };
          },
          true,
        ))

-- The input of a read, and whether the event is `EPOLLIN`.
pub record TlsRead : Type 0 where
  pub epollin : Bool
  pub result : TlsResult
  pub time : TimeSpec
  pub should_measure : Bool
  pub period : ℕ

-- The branches behind `SSL_read`, which gives as many bytes as were asked for at most.
on_tls_result :
    (Iovec → Outcome ByteReqPair)
    → ℕ
    → TlsRead
    → TlsResult
    → SymState
    → Outcome (Option (SymState × Bool))
unfolding on_tls_readable
on_tls_result consume max_pending r want_read s = ok (some (s, false))
on_tls_result consume max_pending r shut_down s =
    let c = s.conn in ok (some (record s { conn = record c { closed = true } }, false))
on_tls_result consume max_pending r unexpected s = ok none
on_tls_result consume max_pending r (decrypted bytes) s =
    on_tls_readable consume r.should_measure r.period max_pending r.time s
      (take (max_payload - s.conn.buffer_idx) bytes)
    >>= λ t. ok (some t)

-- An event.
pub on_tls_event :
    (Iovec → Outcome ByteReqPair)
    → ℕ
    → TlsRead
    → Link
    → ThreadStats
    → Outcome (Option (Link × ThreadStats × Bool))
unfolding on_tls_result
on_tls_event consume max_pending r l stats =
    check r.epollin
    >> (on_tls_result consume max_pending r r.result (to_state l stats) >>= λ o.
        ok (elim o [ none ↦ none | some t ↦ some (to_link t.0, t.0.times.stats, t.1) ]))

-- `symmetric_ssl_main`. A connection is the one of TCP with an `SSL`; its error queue is not read.
pub symmetric_ssl_main :
    (malloc : ℕ → List ℕ) → (Iovec → Outcome ByteReqPair) → ℕ → Handlers Link TlsSend TlsRead
unfolding on_tls_send on_tls_event
symmetric_ssl_main malloc consume max_pending = record {
  pick = pick_item (λ l. l.conn) max_pending;
  send = λ x l stats. on_tls_send malloc max_pending x (to_state l stats) >>= λ r.
      ok (r.0, some (to_link r.1, r.1.times.stats));
  handle = on_tls_event consume max_pending;
  repeats = true;
  breaks = false;
}
