-- ===== src/Tcp/Symmetric.antt =====
-- `symmetric_tcp_main` (agents/tp_tcp.c:604-718) for one connection: a request that goes out, and a read
-- whose responses are matched with the transmit times of their requests.
pub mod Matching
pub mod Sending
pub mod Reading
pub mod Bounds
pub mod Uses
pub mod Quiet
mod Tests
use lancet_tool.Base.{
  ℕ, zero, suc, ◌+◌, ◌==◌, ltb, if◌then◌else◌, List, [], ◌∷◌, ◌++◌, Bool, true, false, Option, some,
  none, take, ℤ, ◌+ℤ◌, Outcome, ok, fault, Fault, ◌>>=◌, ◌>>◌, check,
}
use lancet_tool.AppProto.{ByteReqPair, Iovec, Request}
use lancet_tool.Timespec.{TimeSpec, timespec_diff, to_ns}
use lancet_tool.Stats.{
  ThreadStats, add_latency_sample, add_throughput_rx_sample, add_throughput_tx_sample,
}
use lancet_tool.Timestamping.{
  TimestampInfo, PendingTx, ControlMessage, Assign, pop_pending_tx_timestamps,
  push_complete_tx_timestamp, get_tx_timestamp,
}
use lancet_tool.Tcp.{Connection, add_u16, sub_u16, received, handle_response}
use lancet_tool.Tcp.Send.{SendResult, total_len, send_request}

-- The connection, its transmit times with the thread's statistics, the socket's error queue, and what
-- arrives in that queue before each later call of `recvmsg`.
pub record SymState : Type 0 where
  pub conn : Connection
  pub times : Assign
  pub queue : List (List ControlMessage)
  pub arrivals : List (List (List ControlMessage))

-- `while (ret != 1) ret = get_tx_timestamp(...)`, from the first call on. `junk` is what the calls find
-- in the struct that they leave uninitialised; the ring has `max_pending` entries, which bound the loop
-- inside a call.
pub poll_tx :
    ℕ
    → TimestampInfo
    → List (List (List ControlMessage))
    → List (List ControlMessage)
    → Assign
    → Outcome (Assign × List (List ControlMessage) × List (List (List ControlMessage)))
poll_tx max_pending junk [] queue a = fault Fault.out_of_fuel
poll_tx max_pending junk (new ∷ arrivals) queue a =
    get_tx_timestamp (suc max_pending) max_pending junk (queue ++ new) a >>= λ r.
    if r.0 then ok (r.1, r.2, arrivals) else poll_tx max_pending junk arrivals r.2 r.1

-- The branch of the loop over `j` where no time is there yet.
late_time : ℕ → TimestampInfo → SymState → Outcome (TimestampInfo × SymState)
unfolding poll_tx
late_time max_pending junk s = do
  (a, queue, arrivals) ← poll_tx max_pending junk s.arrivals s.queue s.times
  check (ltb a.ring.consumed a.ring.tail)
  (popped, ring) ← pop_pending_tx_timestamps max_pending a.ring
  elim popped [
    | none ↦ fault Fault.assertion
    | some info ↦
        ok (info, record s { times = record a { ring = ring }; queue = queue; arrivals = arrivals })
  ]

-- One round of the loop over `j`.
unfoldable pub next_time : ℕ → TimestampInfo → SymState → Outcome (TimestampInfo × SymState)
unfolding late_time
next_time max_pending junk s =
    let a = s.times in
    pop_pending_tx_timestamps max_pending a.ring >>= λ r. elim r.0 [
      | none ↦ late_time max_pending junk (record s { times = record a { ring = r.1 } })
      | some info ↦ ok (info, record s { times = record a { ring = r.1 } })
    ]

-- The loop over `j`: the time of the last request stays in `pending_tx`.
unfoldable pub match_times :
    ℕ
    → TimestampInfo
    → (reqs : ℕ) → Option TimestampInfo
    → SymState
    → Outcome (Option TimestampInfo × SymState)
match_times max_pending junk zero pending_tx s = ok (pending_tx, s)
match_times max_pending junk (suc reqs) pending_tx s =
    next_time max_pending junk s >>= λ r. match_times max_pending junk reqs (some r.0) r.1

-- The latency of the last response. The `double` in between is exact below 2 ^ 53 nanoseconds.
pub record_latency :
    Bool → ℕ → (rx_timestamp : TimeSpec) → Option TimestampInfo → ThreadStats → Outcome ThreadStats
record_latency should_measure period rx_timestamp none stats = fault Fault.null_pointer
record_latency should_measure period rx_timestamp (some pending_tx) stats =
    elim (timespec_diff (some rx_timestamp) (some pending_tx.time)) [
      | none ↦ fault Fault.assertion
      | some latency ↦
          add_latency_sample should_measure period (to_ns latency) (some pending_tx.time) stats
    ]

-- A read of `bytes` at the time `rx_timestamp`, up to the end of the loop's round.
unfoldable pub on_symmetric_readable :
    (Iovec → Outcome ByteReqPair)
    → Bool
    → ℕ
    → ℕ
    → TimestampInfo
    → TimeSpec
    → SymState
    → List ℕ
    → Outcome SymState
unfolding match_times next_time record_latency
on_symmetric_readable consume should_measure period max_pending junk rx_timestamp s bytes =
    handle_response consume (received s.conn bytes) >>= λ h.
    let read_res : ByteReqPair = h.0 in
    let c = h.1 in
    let left : SymState = record s {
      conn = record c { pending_reqs = sub_u16 c.pending_reqs read_res.reqs };
    } in
    if read_res.reqs == 0
    then ok (record s { conn = c })
    else (match_times max_pending junk read_res.reqs none left >>= λ m.
        let after : SymState = m.1 in
        let a = after.times in
        record_latency should_measure period rx_timestamp m.0 a.stats >>= λ stats.
        ok (record after {
          times = record a { stats = add_throughput_rx_sample should_measure read_res stats };
        }))

-- A request that goes out at the time `tx_timestamp`: what the calls of `sendmsg` took, and the new
-- state. The time of the next request is the event loop's.
unfoldable pub on_symmetric_send :
    Bool
    → ℕ
    → (sampled : Bool) → TimeSpec
    → List SendResult
    → Request
    → SymState
    → Outcome (List ℕ × SymState)
on_symmetric_send should_measure max_pending sampled tx_timestamp results req s =
    let iovs = take req.iov_cnt req.iovs in
    let c = s.conn in
    let a = s.times in
    let (ring, stats) =
      push_complete_tx_timestamp max_pending sampled a.ring tx_timestamp a.stats in
    let counted : ByteReqPair = record { bytes = total_len iovs; reqs = 1 } in
    send_request results iovs >>= λ r. ok (
      r.0,
      record s {
        conn = record c { pending_reqs = add_u16 c.pending_reqs 1 };
        times = record a {
          ring = ring;
          stats = add_throughput_tx_sample should_measure counted stats;
        };
      },
    )
