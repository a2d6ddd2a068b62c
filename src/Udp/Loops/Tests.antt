-- ===== src/Udp/Loops/Tests.antt =====
-- The loops of agents/tp_udp.c on concrete rounds.
use lancet_tool.Base.{◌+◌, ◌≤◌, ◌≡◌, refl, [], ◌∷◌, length, some, none, ok, true, false, pos, ◌+ℤ◌}
use lancet_tool.AppProto.{ByteReqPair}
use lancet_tool.Stats.{add_tx_timestamp, add_throughput_rx_sample, add_throughput_tx_sample}
use lancet_tool.Tcp.Send.{sent}
use lancet_tool.EventLoop.{Thread, Round, main_loop}
use lancet_tool.EventLoop.Growth.{total}
use lancet_tool.Udp.{
  UdpSocket, datagram, get_socket, on_throughput_udp_send, on_throughput_udp_readable,
}
use lancet_tool.Udp.Loops.{UdpSend, UdpEvent, epollin, on_throughput_udp_event, throughput_udp_main}
use lancet_tool.Udp.Sockets.{free}
use lancet_tool.Udp.Loops.Closed.{throughput_udp_main-used}
use lancet_tool.Udp.Tests.{at_sec, idle, hello, one_response}

abbrev udp_send : UdpSend
udp_send = record {
  request = hello;
  result = sent 2;
  now = at_sec 3;
  sampled = false;
  should_measure = false;
}

-- Two sockets, of which one is free; the second request finds none, until the answer of the first socket.
abbrev udp_round : Round UdpSend UdpEvent
udp_round = record {
  should_load = true;
  clock = pos 0;
  turns =
      record { clock = pos 130; ia = pos 20; input = udp_send }
      ∷ record { clock = pos 131; ia = pos 0; input = udp_send }
      ∷ [];
  events =
      record {
        idx = 0;
        clock = pos 132;
        input = epollin (record {
          result = datagram (b'y' ∷ b'o' ∷ []);
          now = at_sec 4;
          message = none;
          should_measure = false;
          period = 1;
        });
      }
      ∷ [];
}

abbrev udp_thread : Thread UdpSocket
udp_thread = record {
  items = idle.socket ∷ let socket = idle.socket in record socket { taken = false } ∷ [];
  turn = 1;
  next_tx = pos 100;
  stats = idle.stats;
  departures = [];
}

abbrev two_bytes : ByteReqPair
two_bytes = record { bytes = 2; reqs = 1 }

abbrev udp_thread_after : Thread UdpSocket
udp_thread_after = record {
  items =
      (let socket = idle.socket in record socket { taken = false; buffer = b'y' ∷ b'o' ∷ 0 ∷ [] })
      ∷ idle.socket
      ∷ [];
  turn = 3;
  next_tx = pos 120;
  stats =
      add_throughput_rx_sample false two_bytes
        (add_throughput_tx_sample false two_bytes (add_tx_timestamp false (at_sec 3) idle.stats));
  departures =
      record { item = 1; bytes = b'h' ∷ b'i' ∷ []; clock = pos 130; due = pos 100; ia = pos 20 }
      ∷ [];
}

udp_round_lem :
    main_loop (throughput_udp_main one_response) (udp_round ∷ []) udp_thread
    ≡ ok (some udp_thread_after)
unfolding main_loop throughput_udp_main on_throughput_udp_event on_throughput_udp_send
    on_throughput_udp_readable get_socket ◌+ℤ◌
udp_round_lem = refl

throughput_udp_main-used_example :
    length udp_thread_after.departures + free udp_thread_after.items
    ≤ length udp_thread.departures
      + free udp_thread.items
      + total (λ r. length r.events) (udp_round ∷ [])
throughput_udp_main-used_example =
    throughput_udp_main-used one_response (udp_round ∷ []) udp_thread udp_thread_after udp_round_lem
