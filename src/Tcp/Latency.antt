-- ===== src/Tcp/Latency.antt =====
-- `latency_tcp_main` (agents/tp_tcp.c:341-413), from the point where the connections are open: one request at
-- a time over blocking sockets, and reads until the buffer holds no part of a response.
pub mod Exchange
mod Tests
use lancet_tool.Base.{
  ℕ, ◌-◌, ◌==◌, ltb, not, ◌||◌, if◌then◌else◌, List, [], ◌∷◌, Bool, true, false, Option, some, none,
  take, set, ℤ, ltb_ℤ, ◌+ℤ◌, ◌-ℤ◌, Outcome, ok, fault, Fault, ◌>>=◌, ◌>>◌, check,
}
use lancet_tool.AppProto.{ByteReqPair, Iovec, Request, gather}
use lancet_tool.Stats.{
  ThreadStats, add_latency_sample, add_throughput_rx_sample, add_throughput_tx_sample,
}
use lancet_tool.EventLoop.{After, again, done, returned, steps, Departure, Thread, item_at}
use lancet_tool.Tcp.{Connection, max_payload, received, handle_response}
use lancet_tool.Tcp.Send.{SendResult, total_len, written, as_failed}
use lancet_tool.Tcp.Loops.{
  RecvResult, chunk, Arrival, arrived, closing, broken, overrun, arrive, pick_item,
}

-- A call of `recv`, the time that is read behind it, and the interarrival time that may be drawn.
pub record LatencyRead : Type 0 where
  pub result : RecvResult
  pub end_time : ℤ
  pub ia : ℤ
  pub should_measure : Bool
  pub period : ℕ

-- The connection of the request, the thread's statistics, and the schedule.
pub record LatencyState : Type 0 where
  pub conn : Connection
  pub stats : ThreadStats
  pub next_tx : ℤ

-- An iteration of `while (1)`: `should_load()`, the time that a test reads, the request, what `writev`
-- returns, the time before it, and the reads.
pub record LatencyRound : Type 0 where
  pub should_load : Bool
  pub clock : ℤ
  pub request : Request
  pub result : SendResult
  pub start_time : ℤ
  pub should_measure : Bool
  pub reads : List LatencyRead

-- The end of the body of `do ... while (conn->buffer_idx)`.
abbrev pub while_waiting : LatencyState → After LatencyState
while_waiting s = if s.conn.buffer_idx == 0 then done s else again s

-- `is_memcached_bin` is `get_app_proto()->type == PROTO_MEMCACHED_BIN`.
module _ (consume : Iovec → Outcome ByteReqPair) (is_memcached_bin : Bool) where
  -- What follows `handle_response`.
  count_response : ℤ → LatencyRead → ByteReqPair → LatencyState → Outcome LatencyState
  count_response start_time r read_res s =
      if ltb 0 read_res.reqs
      then (check (not is_memcached_bin || read_res.reqs == 1)
          >> (add_latency_sample r.should_measure r.period (r.end_time -ℤ start_time) none
                (add_throughput_rx_sample r.should_measure read_res s.stats)
              >>= λ stats. ok (record s { stats = stats; next_tx = s.next_tx +ℤ r.ia })))
      else ok s

  on_latency_arrival : ℤ → LatencyRead → LatencyState → Arrival → Outcome (After LatencyState)
  unfolding count_response
  on_latency_arrival start_time r s broken = ok returned
  on_latency_arrival start_time r s overrun = fault Fault.out_of_bounds
  on_latency_arrival start_time r s (closing c) = ok (while_waiting (record s { conn = c }))
  on_latency_arrival start_time r s (arrived c bytes) =
      handle_response consume (received c bytes) >>= λ h.
      count_response start_time r h.0 (record s { conn = h.1 }) >>= λ s'. ok (while_waiting s')

  -- EWOULDBLOCK, after a timeout, is an error as any other.
  abbrev pub as_error : RecvResult → RecvResult
  as_error (chunk bytes) = chunk bytes
  as_error r = RecvResult.recv_error

  -- The body of the loop.
  pub latency_read : ℤ → LatencyRead → LatencyState → Outcome (After LatencyState)
  unfolding on_latency_arrival arrive
  latency_read start_time r s =
      check (ltb 0 (max_payload - s.conn.buffer_idx))
      >> on_latency_arrival start_time r s (arrive (as_error r.result) s.conn)

  -- The loop; the reads that follow its end are not made.
  pub latency_reads : ℤ → List LatencyRead → LatencyState → Outcome (Option LatencyState)
  unfolding latency_read steps
  latency_reads start_time reads s =
      steps (latency_read start_time) (λ u. fault Fault.out_of_fuel) reads s

  -- From `prepare_request` on, for the connection that was picked: `none` when the agent's function
  -- returned.
  pub latency_exchange : LatencyRound → LatencyState → Outcome (Option LatencyState)
  unfolding latency_reads written
  latency_exchange r s =
      let iovs = take r.request.iov_cnt r.request.iovs in
      written (as_failed r.result) (total_len iovs) >>= λ w. elim w [
        | none ↦ ok none
        | some ret ↦
            let send_res : ByteReqPair = record { bytes = ret; reqs = 1 } in
            check (s.conn.buffer_idx == 0)
            >> latency_reads r.start_time r.reads
                (record s { stats = add_throughput_tx_sample r.should_measure send_res s.stats })
      ]

  -- The exchange on the connection `i`.
  exchange_at : LatencyRound → Thread Connection → Option ℕ → Outcome (After (Thread Connection))
  unfolding latency_exchange item_at
  exchange_at r t none = ok (again t)
  exchange_at r t (some i) = item_at t.items i >>= λ c.
      latency_exchange r (record { conn = c; stats = t.stats; next_tx = t.next_tx }) >>= λ o.
      elim o [
        | none ↦ ok returned
        | some s ↦
            let left : Departure = record {
              item = i;
              bytes = gather (take r.request.iov_cnt r.request.iovs);
              clock = r.clock;
              due = t.next_tx;
              ia = s.next_tx -ℤ t.next_tx;
            } in
            ok (
              again (record t {
                items = set t.items i s.conn;
                stats = s.stats;
                next_tx = s.next_tx;
                departures = left ∷ t.departures;
              }))
      ]

  -- An iteration of `while (1)`.
  pub latency_round :
      (max_pending : ℕ) → LatencyRound → Thread Connection → Outcome (After (Thread Connection))
  unfolding exchange_at
  latency_round max_pending r t =
      if not r.should_load
      then ok (again (record t { next_tx = r.clock }))
      else if ltb_ℤ r.clock t.next_tx
      then ok (again t)
      else (pick_item (λ c. c) max_pending t.items t.turn >>= λ p.
          exchange_at r (record t { items = p.1; turn = p.2 }) p.0)

  -- `latency_tcp_main` for so many iterations.
  unfoldable pub latency_tcp_main :
      (max_pending : ℕ)
      → List LatencyRound
      → Thread Connection
      → Outcome (Option (Thread Connection))
  unfolding latency_round steps
  latency_tcp_main max_pending rounds t =
      steps (latency_round max_pending) (λ u. ok (some u)) rounds t
