-- ===== src/Udp/Loops.antt =====
-- The event loops of agents/tp_udp.c as wholes, from the point where the sockets are open:
-- throughput_udp_main (267-344), symmetric_nic_udp_main (346-467), symmetric_udp_main (469-562) and
-- latency_udp_main (203-265).
pub mod Closed
mod Tests
use lancet_tool.Base.{
  ℕ, List, Bool, true, false, Option, some, none, length, ℤ, Outcome, ok, fault, Fault, ◌>>=◌,
}
use lancet_tool.AppProto.{ByteReqPair, Iovec, Request}
use lancet_tool.Timespec.{TimeSpec}
use lancet_tool.Stats.{ThreadStats}
use lancet_tool.Timestamping.{ControlMessage}
use lancet_tool.EventLoop.{Handlers}
use lancet_tool.Tcp.Send.{SendResult}
use lancet_tool.Udp.{
  UdpSocket, UdpState, RecvResult, get_socket, on_throughput_udp_send, on_nic_udp_send,
  on_symmetric_udp_send, on_throughput_udp_readable, on_symmetric_udp_readable, on_nic_udp_readable,
  on_nic_udp_error, on_latency_udp_round,
}

-- The input of a send: the request, what the call that writes returns, the time that the code reads,
-- the draw of `add_tx_timestamp` and a flag.
pub record UdpSend : Type 0 where
  pub request : Request
  pub result : SendResult
  pub now : TimeSpec
  pub sampled : Bool
  pub should_measure : Bool

-- The input of a read: what `recv` returns, the time of reception, the next message of the error queue,
-- and the flags of the agent.
pub record UdpRead : Type 0 where
  pub result : RecvResult
  pub now : TimeSpec
  pub message : Option (List ControlMessage)
  pub should_measure : Bool
  pub period : ℕ

-- An event: `EPOLLIN`, `EPOLLERR` with the draw of `add_tx_timestamp` and the next message of the error
-- queue, or another one.
pub data UdpEvent : Type 0 where
  epollin : UdpRead → UdpEvent
  epollerr : Bool → Option (List ControlMessage) → UdpEvent
  other_event : UdpEvent

-- The input of an exchange of the latency agent.
pub record UdpExchange : Type 0 where
  pub request : Request
  pub result : SendResult
  pub answer : RecvResult
  pub start_time : ℤ
  pub end_time : ℤ
  pub should_measure : Bool
  pub period : ℕ

-- The latency agent waits for no events.
pub data NoEvent : Type 0 where

-- `get_socket` on the sockets of a thread.
abbrev pub pick_socket : List UdpSocket → ℕ → Outcome (Option ℕ × List UdpSocket × ℕ)
pick_socket sockets socket_idx = get_socket (length sockets) sockets socket_idx

abbrev pub socket_and_stats : Option UdpState → Option (UdpSocket × ThreadStats)
socket_and_stats none = none
socket_and_stats (some s) = some (s.socket, s.stats)

abbrev pub to_end : Option UdpState → Option (UdpSocket × ThreadStats × Bool)
to_end none = none
to_end (some s) = some (s.socket, s.stats, true)

abbrev pub in_state : UdpSocket → ThreadStats → UdpState
in_state socket stats = record { socket = socket; stats = stats }

module _ (consume : Iovec → Outcome ByteReqPair) where
  -- An event of `throughput_udp_main`.
  pub on_throughput_udp_event :
      UdpEvent → UdpSocket → ThreadStats → Outcome (Option (UdpSocket × ThreadStats × Bool))
  on_throughput_udp_event (epollin r) socket stats =
      on_throughput_udp_readable consume r.should_measure r.result (in_state socket stats) >>= λ s.
      ok (to_end s)
  on_throughput_udp_event e socket stats = fault Fault.assertion

  -- An event of `symmetric_udp_main`.
  pub on_symmetric_udp_event :
      UdpEvent → UdpSocket → ThreadStats → Outcome (Option (UdpSocket × ThreadStats × Bool))
  on_symmetric_udp_event (epollin r) socket stats =
      on_symmetric_udp_readable consume r.should_measure r.period r.now r.result
        (in_state socket stats)
      >>= λ s. ok (to_end s)
  on_symmetric_udp_event e socket stats = fault Fault.assertion

  -- An event of `symmetric_nic_udp_main`; `junk` is what its `tx_timestamp` holds.
  pub on_nic_udp_event :
      TimeSpec
      → UdpEvent
      → UdpSocket
      → ThreadStats
      → Outcome (Option (UdpSocket × ThreadStats × Bool))
  on_nic_udp_event junk (epollin r) socket stats =
      on_nic_udp_readable consume r.should_measure r.period r.now r.message r.result
        (in_state socket stats)
      >>= λ s. ok (to_end s)
  on_nic_udp_event junk (epollerr sampled message) socket stats =
      on_nic_udp_error sampled junk message (in_state socket stats) >>= λ s. ok (to_end (some s))
  on_nic_udp_event junk other_event socket stats = fault Fault.assertion

  -- `throughput_udp_main`
  pub throughput_udp_main : Handlers UdpSocket UdpSend UdpEvent
  unfolding on_throughput_udp_event
  throughput_udp_main = record {
    pick = pick_socket;
    send = λ x socket stats.
        on_throughput_udp_send x.should_measure x.sampled x.now x.result x.request
          (in_state socket stats)
        >>= λ r. ok (r.0, socket_and_stats r.1);
    handle = on_throughput_udp_event;
    repeats = true;
    breaks = false;
  }

  -- `symmetric_udp_main`, which sends once in a round.
  pub symmetric_udp_main : Handlers UdpSocket UdpSend UdpEvent
  unfolding on_symmetric_udp_event
  symmetric_udp_main = record {
    pick = pick_socket;
    send = λ x socket stats.
        on_symmetric_udp_send x.should_measure x.sampled x.now x.result x.request
          (in_state socket stats)
        >>= λ r. ok (r.0, socket_and_stats r.1);
    handle = on_symmetric_udp_event;
    repeats = false;
    breaks = false;
  }

  -- `symmetric_nic_udp_main`
  pub symmetric_nic_udp_main : TimeSpec → Handlers UdpSocket UdpSend UdpEvent
  unfolding on_nic_udp_event
  symmetric_nic_udp_main junk = record {
    pick = pick_socket;
    send = λ x socket stats.
        on_nic_udp_send x.should_measure x.result x.request (in_state socket stats) >>= λ r.
        ok (r.0, socket_and_stats r.1);
    handle = on_nic_udp_event junk;
    repeats = false;
    breaks = true;
  }

  -- `latency_udp_main`: the request and the response are one blocking exchange.
  pub latency_udp_main : Handlers UdpSocket UdpExchange NoEvent
  latency_udp_main = record {
    pick = pick_socket;
    send = λ x socket stats.
        on_latency_udp_round consume x.should_measure x.period x.start_time x.end_time x.result
          x.answer x.request (in_state socket stats)
        >>= λ r. ok (r.0, socket_and_stats r.1);
    handle = λ e socket stats. elim e [ ];
    repeats = false;
    breaks = false;
  }
