-- ===== src/Tls/Tests.antt =====
-- The TLS agent (agents/tp_ssl.c:233-361) on a concrete exchange.
use lancet_tool.Base.{
  ℕ, ◌≡◌, refl, List, [], ◌∷◌, ok, arith, true, false, Bool, pos, replicate, length-replicate,
  Outcome, length, ◌-ℤ◌,
}
use lancet_tool.AppProto.{ByteReqPair, Iovec, zero_pair}
use lancet_tool.Timespec.{TimeSpec, timespec_diff, to_ns}
use lancet_tool.Stats.{ThreadStats, add_latency_sample, add_throughput_rx_sample}
use lancet_tool.Timestamping.{PendingTx, no_info, pop_pending_tx_timestamps}
use lancet_tool.Tcp.{Connection, handle_response, received}
use lancet_tool.Tcp.Send.{sent}
use lancet_tool.Tcp.Symmetric.{SymState, on_symmetric_send, on_symmetric_readable}
use lancet_tool.Tcp.Symmetric.Quiet.{quiet}
use lancet_tool.Tls.{TlsSend, on_tls_send, on_tls_readable}
use lancet_tool.Tls.Copy.{on_tls_send-symmetric}
use lancet_tool.Tls.Reading.{on_tls_readable-symmetric}

abbrev at_sec : ℕ → TimeSpec
at_sec n = record { tv_sec = pos n; tv_nsec = pos 5 }

abbrev no_stats : ThreadStats
no_stats = record {
  th_s = record { rx = zero_pair; tx = zero_pair };
  inc_idx = 0;
  samples = [];
  tx_s = record { count = 0; samples = [] };
  prev_tx_timestamp = at_sec 0;
  tx_sample_selector = 0;
}

-- One request under way, sent in the second 3, of at most two.
abbrev one_pending : Connection
one_pending = record {
  fd = 5;
  idx = 0;
  closed = false;
  pending_reqs = 1;
  buffer_idx = 0;
  buffer = [];
}

abbrev ring : PendingTx
ring = record {
  tx_byte_counter = 0;
  head = 1;
  tail = 1;
  consumed = 0;
  pending = record { time = at_sec 3; optid = 0 } ∷ no_info ∷ [];
}

abbrev under_way : SymState
under_way = record {
  conn = one_pending;
  times = record { ring = ring; stats = no_stats; draws = [] };
  queue = [];
  arrivals = [];
}

-- Three bytes in two iovecs, and a buffer of two bytes.
abbrev tls_send : TlsSend
tls_send = record {
  request = record {
    meta = 0;
    iov_cnt = 2;
    iovs =
        record { iov_base = 1 ∷ 2 ∷ []; iov_len = 2 }
        ∷ record { iov_base = 3 ∷ []; iov_len = 1 }
        ∷ [];
  };
  wbuf = 9 ∷ 9 ∷ [];
  ret = pos 3;
  tx_timestamp = at_sec 6;
  sampled = false;
  should_measure = true;
}

zeros : ℕ → List ℕ
zeros n = replicate n 0

zeros-length : (n : ℕ) → length (zeros n) ≡ n
unfolding zeros
zeros-length n = length-replicate n 0

on_tls_send-symmetric_example :
    (s' : SymState) × (on_tls_send zeros 2 tls_send under_way ≡ ok (1 ∷ 2 ∷ 3 ∷ [], s'))
    × (on_symmetric_send true 2 false (at_sec 6) (sent 3 ∷ []) tls_send.request under_way
        ≡ ok (1 ∷ 2 ∷ 3 ∷ [], s'))
on_tls_send-symmetric_example =
    on_tls_send-symmetric zeros zeros-length 2 tls_send under_way (omega arith, (omega arith, tt))
      refl

-- A response of two bytes: each read is one response.
abbrev each_read : Iovec → Outcome ByteReqPair
each_read v = ok (record { bytes = v.iov_len; reqs = 1 })

abbrev answered : SymState
answered = record {
  conn = record one_pending { pending_reqs = 0; buffer = 7 ∷ 8 ∷ [] };
  times = record {
    ring = record ring { consumed = 1 };
    stats = record no_stats {
      th_s = record { rx = record { bytes = 2; reqs = 1 }; tx = zero_pair };
      inc_idx = 1;
      tx_sample_selector = 1;
    };
    draws = [];
  };
  queue = [];
  arrivals = [];
}

over_tcp :
    on_symmetric_readable each_read true 1 2 no_info (at_sec 9) (quiet under_way) (7 ∷ 8 ∷ [])
    ≡ ok answered
unfolding on_symmetric_readable handle_response received pop_pending_tx_timestamps timespec_diff
    to_ns ◌-ℤ◌ add_latency_sample add_throughput_rx_sample
over_tcp = refl

on_tls_readable-symmetric_example :
    (at_end : Bool) × (on_tls_readable each_read true 1 2 (at_sec 9) under_way (7 ∷ 8 ∷ [])
      ≡ ok (answered, at_end))
on_tls_readable-symmetric_example =
    on_tls_readable-symmetric 2 no_info each_read true 1 (at_sec 9) under_way answered (7 ∷ 8 ∷ [])
      over_tcp
