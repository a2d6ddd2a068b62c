-- ===== src/Udp/Tests.antt =====
-- The symmetric agent over UDP (agents/tp_udp.c:469-562) on a concrete exchange.
use lancet_tool.Base.{
  ℕ, ◌≡◌, refl, [], ◌∷◌, Outcome, ok, arith, false, true, pos, ◌-ℤ◌, some, none, int_laws, ◌>>=◌,
}
use lancet_tool.AppProto.{ByteReqPair, Iovec, Request, zero_pair}
use lancet_tool.Timespec.{TimeSpec, IsNormal, to_ns}
use lancet_tool.Stats.{add_latency_sample, add_throughput_rx_sample}
use lancet_tool.Tcp.Send.{sent}
use lancet_tool.Udp.{
  UdpState, get_socket, on_symmetric_udp_send, on_symmetric_udp_readable, datagram,
}
use lancet_tool.Udp.Exchange.{symmetric_exchange_lem}

abbrev pub at_sec : ℕ → TimeSpec
at_sec n = record { tv_sec = pos n; tv_nsec = pos 5 }

at_sec-IsNormal : (n : ℕ) → IsNormal (at_sec n)
at_sec-IsNormal n = record { low = omega int_laws; high = omega int_laws }

abbrev pub idle : UdpState
idle = record {
  socket = record {
    taken = true;
    tx_timestamp = at_sec 0;
    rx_timestamp = at_sec 0;
    buffer = 0 ∷ 0 ∷ 0 ∷ [];
  };
  stats = record {
    th_s = record { rx = zero_pair; tx = zero_pair };
    inc_idx = 0;
    samples = [];
    tx_s = record { count = 0; samples = [] };
    prev_tx_timestamp = at_sec 0;
    tx_sample_selector = 0;
  };
}

abbrev pub hello : Request
hello = record {
  meta = 0;
  iov_cnt = 1;
  iovs = record { iov_base = b'h' ∷ b'i' ∷ []; iov_len = 2 } ∷ [];
}

-- A parser that takes every datagram as one response.
abbrev pub one_response : Iovec → Outcome ByteReqPair
one_response v = ok (record { bytes = v.iov_len; reqs = 1 })

symmetric_exchange_lem_example :
    (s1 : UdpState) × (on_symmetric_udp_send true false (at_sec 3) (sent 2) hello idle
      ≡ ok (b'h' ∷ b'i' ∷ [], some s1))
    × (on_symmetric_udp_readable one_response true 20 (at_sec 4) (datagram (b'y' ∷ b'o' ∷ [])) s1
        ≡ (add_latency_sample true 20
              (to_ns (at_sec 4) -ℤ to_ns (at_sec 3))
              (some (at_sec 3))
              s1.stats
            >>= λ stats. ok (
                some (record {
                  socket = record {
                    taken = false;
                    tx_timestamp = at_sec 3;
                    rx_timestamp = at_sec 4;
                    buffer = b'y' ∷ b'o' ∷ 0 ∷ [];
                  };
                  stats = add_throughput_rx_sample true (record { bytes = 2; reqs = 1 }) stats;
                }))))
symmetric_exchange_lem_example =
    symmetric_exchange_lem one_response true false 20 (at_sec 3) (at_sec 4) hello idle
      (b'y' ∷ b'o' ∷ []) 1 (at_sec-IsNormal 3) (at_sec-IsNormal 4) refl refl (omega arith) refl

-- A socket with a request under way is not given again.
taken_test : get_socket 1 (idle.socket ∷ []) 6 ≡ ok (none, idle.socket ∷ [], 7)
unfolding get_socket
taken_test = refl
