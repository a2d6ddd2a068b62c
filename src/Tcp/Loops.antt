-- ===== src/Tcp/Loops.antt =====
-- The event loops of agents/tp_tcp.c as wholes, from the point where the connections are open: what they
-- share, and throughput_tcp_main (235-339). `Timed` has the loops that keep transmit times.
pub mod Safe
pub mod Timed
mod Tests
use mathlib.Core.List.{map}
use lancet_tool.Base.{
  ℕ, suc, ◌+◌, ◌-◌, ◌%◌, ◌^◌, ◌==◌, ltb, not, if◌then◌else◌, List, [], ◌∷◌, ◌++◌, Bool, true, false,
  Option, some, none, take, length, Outcome, ok, fault, Fault, ◌>>=◌,
}
use lancet_tool.AppProto.{ByteReqPair, Iovec, Request, gather}
use lancet_tool.Timespec.{TimeSpec}
use lancet_tool.Stats.{ThreadStats, add_throughput_tx_sample}
use lancet_tool.Timestamping.{
  TimestampInfo, PendingTx, ControlMessage, Assign, add_pending_tx_timestamp, get_tx_timestamp,
}
use lancet_tool.EventLoop.{Handlers}
use lancet_tool.Tcp.{Connection, max_payload, pick_conn, add_u16, received, handle_response}
use lancet_tool.Tcp.Send.{SendResult, total_len, written}
use lancet_tool.Tcp.Throughput.{AgentState, on_throughput_send, on_throughput_readable}
use lancet_tool.Tcp.Symmetric.{SymState, on_symmetric_send, on_symmetric_readable}

-- What `recv` comes to: the bytes that the kernel has (none, when the peer has closed), EWOULDBLOCK, or
-- another error.
pub data RecvResult : Type 0 where
  chunk : List ℕ → RecvResult
  nothing_there recv_error : RecvResult

-- What a loop makes of it.
pub data Arrival : Type 0 where
  arrived : Connection → List ℕ → Arrival
  closing : Connection → Arrival
  broken overrun : Arrival

-- `recv(fd, &buffer[buffer_idx], MAX_PAYLOAD - buffer_idx, 0)` and the tests behind it, up to
-- `buffer_idx += ret`, which takes the -1 of EWOULDBLOCK off the index. The kernel gives as many bytes
-- as were asked for at most; an index beyond the buffer makes that number wrap.
unfoldable pub arrive : RecvResult → Connection → Arrival
arrive recv_error c = broken
arrive nothing_there c = arrived (record c { buffer_idx = add_u16 c.buffer_idx (2 ^ 16 - 1) }) []
arrive (chunk bytes) c =
    let given = take (max_payload - c.buffer_idx) bytes in
    if ltb max_payload c.buffer_idx
    then overrun
    else if length given == 0
    then closing (record c { closed = true })
    else arrived c given

-- The input of a read: what `recv` comes to, the time behind it, and the flags of the agent.
pub record ReadInput : Type 0 where
  pub result : RecvResult
  pub time : TimeSpec
  pub should_measure : Bool
  pub period : ℕ

-- An event: `EPOLLIN`, `EPOLLERR` with what has come into the error queue, or another one.
pub data TcpEvent : Type 0 where
  epollin : ReadInput → TcpEvent
  epollerr : List (List ControlMessage) → TcpEvent
  other_event : TcpEvent

-- The input of a send: the request of `prepare_request`, what the calls that write come to, the time that
-- the code reads, the draw of `add_tx_timestamp` and a flag.
pub record SendInput : Type 0 where
  pub request : Request
  pub results : List SendResult
  pub tx_timestamp : TimeSpec
  pub sampled : Bool
  pub should_measure : Bool

-- `pick_conn` on the connections of a thread, with the index of the one that it gives.
pub pick_item :
    {C : Type 0}
    → (C → Connection)
    → (max_pending : ℕ) → List C
    → ℕ
    → Outcome (Option ℕ × List C × ℕ)
unfolding pick_conn
pick_item conn_of max_pending items conn_idx =
    pick_conn (length items) max_pending (map conn_of items) conn_idx >>= λ p.
    let picked : Option ℕ = elim p.0 [ none ↦ none | some c ↦ some (conn_idx % length items) ] in
    ok (picked, items, p.1)

-- The branches of a loop behind `recv`.
pub on_arrival :
    {C : Type 0}
    → (read : Connection → List ℕ → Outcome (C × ThreadStats × Bool)) → (closed : Connection → C)
    → ThreadStats
    → Arrival
    → Outcome (Option (C × ThreadStats × Bool))
on_arrival read closed stats broken = ok none
on_arrival read closed stats overrun = fault Fault.out_of_bounds
on_arrival read closed stats (closing c) = ok (some (closed c, stats, false))
on_arrival read closed stats (arrived c bytes) = read c bytes >>= λ r. ok (some r)

module _ (consume : Iovec → Outcome ByteReqPair) (max_pending : ℕ) where
  read_throughput :
      ReadInput → ThreadStats → Connection → List ℕ → Outcome (Connection × ThreadStats × Bool)
  read_throughput r stats c bytes =
      on_throughput_readable consume r.should_measure (record { conn = c; stats = stats }) bytes
      >>= λ s. ok (s.conn, s.stats, true)

  -- An event of `throughput_tcp_main`.
  pub on_throughput_event :
      TcpEvent → Connection → ThreadStats → Outcome (Option (Connection × ThreadStats × Bool))
  unfolding read_throughput on_arrival arrive
  on_throughput_event (epollin r) c stats =
      on_arrival (read_throughput r stats) (λ c'. c') stats (arrive r.result c)
  on_throughput_event e c stats = fault Fault.assertion

  send_throughput :
      SendInput → Connection → ThreadStats → Outcome (List ℕ × Option (Connection × ThreadStats))
  send_throughput x c stats =
      on_throughput_send x.should_measure x.sampled x.tx_timestamp x.results x.request
        (record { conn = c; stats = stats })
      >>= λ r. ok (r.0, elim r.1 [ none ↦ none | some s ↦ some (s.conn, s.stats) ])

  -- `throughput_tcp_main`
  pub throughput_tcp_main : Handlers Connection SendInput TcpEvent
  unfolding on_throughput_event send_throughput pick_item
  throughput_tcp_main = record {
    pick = pick_item (λ c. c) max_pending;
    send = send_throughput;
    handle = on_throughput_event;
    repeats = true;
    breaks = false;
  }
