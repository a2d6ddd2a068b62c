-- ===== src/Tcp/Loops/Timed.antt =====
-- symmetric_tcp_main (604-718) and symmetric_nic_tcp_main (415-548) of agents/tp_tcp.c as wholes.
pub mod Safe
mod Tests
use mathlib.Core.List.{map}
use lancet_tool.Base.{
  ℕ, suc, ◌+◌, ◌-◌, ◌%◌, ◌^◌, ◌==◌, ltb, not, if◌then◌else◌, List, [], ◌∷◌, ◌++◌, Bool, true, false,
  Option, some, none, take, length, Outcome, ok, fault, Fault, ◌>>=◌,
}
use lancet_tool.AppProto.{ByteReqPair, Iovec, Request, gather}
use lancet_tool.Timespec.{TimeSpec}
use lancet_tool.Stats.{ThreadStats, add_throughput_tx_sample}
use lancet_tool.Timestamping.{
  TimestampInfo, PendingTx, ControlMessage, Assign, add_pending_tx_timestamp, get_tx_timestamp,
}
use lancet_tool.EventLoop.{Handlers}
use lancet_tool.Tcp.{Connection, max_payload, pick_conn, add_u16, received, handle_response}
use lancet_tool.Tcp.Send.{SendResult, total_len, written}
use lancet_tool.Tcp.Throughput.{AgentState, on_throughput_send, on_throughput_readable}
use lancet_tool.Tcp.Symmetric.{SymState, on_symmetric_send, on_symmetric_readable}
use lancet_tool.Tcp.Loops.{
  RecvResult, Arrival, arrive, ReadInput, TcpEvent, epollin, epollerr, other_event, SendInput,
  pick_item, on_arrival,
}

-- A connection with its ring of transmit times, the draws for the times that the kernel will report, and
-- its error queue with what will arrive there.
pub record Link : Type 0 where
  pub conn : Connection
  pub ring : PendingTx
  pub draws : List Bool
  pub queue : List (List ControlMessage)
  pub arrivals : List (List (List ControlMessage))

abbrev pub to_state : Link → ThreadStats → SymState
to_state l stats = record {
  conn = l.conn;
  times = record { ring = l.ring; stats = stats; draws = l.draws };
  queue = l.queue;
  arrivals = l.arrivals;
}

abbrev pub to_link : SymState → Link
to_link s = record {
  conn = s.conn;
  ring = s.times.ring;
  draws = s.times.draws;
  queue = s.queue;
  arrivals = s.arrivals;
}

-- `symmetric_nic_tcp_main` sends once, and asks the kernel for the transmit time of the last byte.
pub on_nic_send : Bool → ℕ → SendResult → Request → SymState → Outcome (List ℕ × Option SymState)
unfolding written
on_nic_send should_measure max_pending result req s =
    let iovs = take req.iov_cnt req.iovs in
    let c = s.conn in
    let a = s.times in
    written result (total_len iovs) >>= λ w. elim w [
      | none ↦ ok ([], none)
      | some ret ↦
          let counted : ByteReqPair = record { bytes = ret; reqs = 1 } in
          let next : SymState = record s {
            conn = record c { pending_reqs = add_u16 c.pending_reqs 1 };
            times = record a {
              ring = add_pending_tx_timestamp max_pending a.ring (total_len iovs);
              stats = add_throughput_tx_sample should_measure counted a.stats;
            };
          } in
          ok (gather iovs, some next)
    ]

-- The only call of `sendmsg`.
abbrev pub first_result : List SendResult → SendResult
first_result [] = SendResult.failed
first_result (r ∷ rs) = r

module _ (consume : Iovec → Outcome ByteReqPair) (max_pending : ℕ) (junk : TimestampInfo) where
  -- A read of `symmetric_nic_tcp_main` at the time of reception that the kernel reports; it is that of
  -- `symmetric_tcp_main`. With it, whether the round came to its end.
  pub on_nic_readable : Bool → ℕ → TimeSpec → SymState → List ℕ → Outcome (SymState × Bool)
  on_nic_readable should_measure period rx_timestamp s bytes =
      handle_response consume (received s.conn bytes) >>= λ h.
      on_symmetric_readable consume should_measure period max_pending junk rx_timestamp s bytes
      >>= λ s'. ok (s', not (h.0.reqs == 0))

  read_symmetric :
      ReadInput → Link → ThreadStats → Connection → List ℕ → Outcome (Link × ThreadStats × Bool)
  unfolding on_nic_readable
  read_symmetric r l stats c bytes =
      on_nic_readable r.should_measure r.period r.time (to_state (record l { conn = c }) stats)
        bytes
      >>= λ s. ok (to_link s.0, s.0.times.stats, s.1)

  -- An event of `symmetric_tcp_main`.
  pub on_symmetric_event :
      TcpEvent → Link → ThreadStats → Outcome (Option (Link × ThreadStats × Bool))
  unfolding read_symmetric on_arrival arrive
  on_symmetric_event (epollin r) l stats =
      on_arrival (read_symmetric r l stats) (λ c. record l { conn = c }) stats
        (arrive r.result l.conn)
  on_symmetric_event e l stats = fault Fault.assertion

  -- The transmit times that an error event announces.
  fetch_times :
      List (List ControlMessage) → Link → ThreadStats → Outcome (Option (Link × ThreadStats × Bool))
  fetch_times new l stats =
      get_tx_timestamp (suc max_pending) max_pending junk (l.queue ++ new)
        (record { ring = l.ring; stats = stats; draws = l.draws })
      >>= λ r.
          ok (some (record l { ring = r.1.ring; draws = r.1.draws; queue = r.2 }, r.1.stats, true))

  -- An event of `symmetric_nic_tcp_main`.
  pub on_nic_event : TcpEvent → Link → ThreadStats → Outcome (Option (Link × ThreadStats × Bool))
  unfolding on_symmetric_event fetch_times
  on_nic_event (epollerr new) l stats = fetch_times new l stats
  on_nic_event e l stats = on_symmetric_event e l stats

  send_symmetric : SendInput → Link → ThreadStats → Outcome (List ℕ × Option (Link × ThreadStats))
  send_symmetric x l stats =
      on_symmetric_send x.should_measure max_pending x.sampled x.tx_timestamp x.results x.request
        (to_state l stats)
      >>= λ r. ok (r.0, some (to_link r.1, r.1.times.stats))

  send_nic : SendInput → Link → ThreadStats → Outcome (List ℕ × Option (Link × ThreadStats))
  unfolding on_nic_send
  send_nic x l stats =
      on_nic_send x.should_measure max_pending (first_result x.results) x.request (to_state l stats)
      >>= λ r. ok (r.0, elim r.1 [ none ↦ none | some s ↦ some (to_link s, s.times.stats) ])

  -- `symmetric_tcp_main`
  pub symmetric_tcp_main : Handlers Link SendInput TcpEvent
  unfolding on_symmetric_event send_symmetric pick_item
  symmetric_tcp_main = record {
    pick = pick_item (λ l. l.conn) max_pending;
    send = send_symmetric;
    handle = on_symmetric_event;
    repeats = true;
    breaks = false;
  }

  -- `symmetric_nic_tcp_main`
  pub symmetric_nic_tcp_main : Handlers Link SendInput TcpEvent
  unfolding on_nic_event send_nic pick_item
  symmetric_nic_tcp_main = record {
    pick = pick_item (λ l. l.conn) max_pending;
    send = send_nic;
    handle = on_nic_event;
    repeats = false;
    breaks = true;
  }
