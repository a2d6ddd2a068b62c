-- ===== src/Tcp/Symmetric/Tests.antt =====
-- The symmetric agent (agents/tp_tcp.c:604-718) on a concrete exchange.
use lancet_tool.Base.{
  ℕ, ◌+◌, ◌≡◌, refl, List, [], ◌∷◌, ◌++◌, ok, arith, drop, replicate, true, false, length-replicate,
  pos, ◌-ℤ◌, some, int_laws, inl, inr,
}
use lancet_tool.AppProto.{Request, zero_pair, synthetic_consume_response}
use lancet_tool.AppProto.Framing.{decode, scan}
use lancet_tool.AppProto.Simple.{fixed_frame}
use lancet_tool.Timespec.{TimeSpec, IsNormal, to_ns}
use lancet_tool.Stats.{
  ThreadStats, add_latency_sample, add_throughput_rx_sample, add_throughput_tx_sample,
  add_tx_timestamp,
}
use lancet_tool.Timestamping.{PendingTx, no_info}
use lancet_tool.Timestamping.Queue as Queue
use lancet_tool.Tcp.{Connection, max_payload}
use lancet_tool.Tcp.Buffer.{waiting}
use lancet_tool.Tcp.Parsers.{synthetic-Parses}
use lancet_tool.Tcp.Send.{sent, would_block}
use lancet_tool.Tcp.Symmetric.{SymState, on_symmetric_readable, on_symmetric_send}
use lancet_tool.Tcp.Symmetric.Matching.{IsMatched}
use lancet_tool.Tcp.Symmetric.Reading.{on_symmetric_readable_lem}
use lancet_tool.Tcp.Symmetric.Sending.{on_symmetric_send_lem}

abbrev at_sec : ℕ → TimeSpec
at_sec n = record { tv_sec = pos n; tv_nsec = pos 5 }

at_sec-IsNormal : (n : ℕ) → IsNormal (at_sec n)
at_sec-IsNormal n = record { low = omega int_laws; high = omega int_laws }

abbrev no_stats : ThreadStats
no_stats = record {
  th_s = record { rx = zero_pair; tx = zero_pair };
  inc_idx = 0;
  samples = [];
  tx_s = record { count = 0; samples = [] };
  prev_tx_timestamp = at_sec 0;
  tx_sample_selector = 0;
}

-- Two requests under way, sent in the seconds 3 and 4, of at most three.
fresh : Connection
fresh = record {
  fd = 5;
  idx = 0;
  closed = false;
  pending_reqs = 2;
  buffer_idx = 0;
  buffer = replicate max_payload 0;
}

abbrev ring : PendingTx
ring = record {
  tx_byte_counter = 0;
  head = 2;
  tail = 2;
  consumed = 0;
  pending =
      record { time = at_sec 3; optid = 0 } ∷ record { time = at_sec 4; optid = 0 } ∷ no_info ∷ [];
}

abbrev under_way : SymState
under_way = record {
  conn = fresh;
  times = record { ring = ring; stats = no_stats; draws = [] };
  queue = [];
  arrivals = [];
}

under_way-IsMatched : IsMatched 3 under_way
unfolding fresh
under_way-IsMatched = record {
  buffer = record { size = length-replicate {A = ℕ} max_payload 0; index = omega arith };
  ring = omega arith;
  known = refl;
  pending = refl;
  width = omega arith;
}

abbrev sampled : ThreadStats
sampled = record no_stats { tx_sample_selector = 1; inc_idx = 1 }

offered :
    add_latency_sample true 1 (to_ns (at_sec 9) -ℤ to_ns (at_sec 3)) (some (at_sec 3)) no_stats
    ≡ ok sampled
unfolding add_latency_sample to_ns ◌-ℤ◌
offered = refl

-- A whole response of the synthetic protocol, and the first byte of the next.
abbrev bytes : List ℕ
bytes = replicate 9 1

on_symmetric_readable_lem_example :
    (s' : SymState) × (on_symmetric_readable synthetic_consume_response true 1 3 no_info
        (at_sec 9)
        under_way
        bytes
      ≡ ok s')
    × IsMatched 3 s'
    × (Queue.completed 3 s'.times.ring ≡ at_sec 4 ∷ [])
    × (waiting s'.conn
        ≡ drop (decode (fixed_frame 8) (waiting fresh ++ bytes)).bytes (waiting fresh ++ bytes))
    × (s'.times.stats
        ≡ add_throughput_rx_sample true (decode (fixed_frame 8) (waiting fresh ++ bytes)) sampled)
unfolding fresh scan
on_symmetric_readable_lem_example =
    on_symmetric_readable_lem synthetic_consume_response (fixed_frame 8) synthetic-Parses true 1 3
      no_info (at_sec 9) (at_sec 3) under_way bytes [] (at_sec 4 ∷ []) sampled under_way-IsMatched
      (omega arith) refl (λ e. omega arith) refl (at_sec-IsNormal 9) (at_sec-IsNormal 3) refl refl
      offered

-- A request of three bytes, in two writes.
abbrev request : Request
request = record {
  meta = 0;
  iov_cnt = 1;
  iovs = record { iov_base = 1 ∷ 2 ∷ 3 ∷ []; iov_len = 3 } ∷ [];
}

on_symmetric_send_lem_example :
    (s' : SymState) × (on_symmetric_send true 3 false
        (at_sec 6)
        (would_block ∷ sent 2 ∷ sent 1 ∷ [])
        request
        under_way
      ≡ ok (1 ∷ 2 ∷ 3 ∷ [], s'))
    × IsMatched 3 s'
    × (s'.conn.pending_reqs ≡ fresh.pending_reqs + 1)
    × (Queue.completed 3 s'.times.ring ≡ at_sec 3 ∷ at_sec 4 ∷ at_sec 6 ∷ [])
    × (s'.times.stats
        ≡ add_throughput_tx_sample true
            (record { bytes = 3; reqs = 1 })
            (add_tx_timestamp false (at_sec 6) no_stats))
unfolding fresh
on_symmetric_send_lem_example =
    on_symmetric_send_lem true 3 false (at_sec 6) (would_block ∷ sent 2 ∷ sent 1 ∷ []) request
      under_way under_way-IsMatched (omega arith) (omega arith) (omega arith) (omega arith, tt)
      (inr (omega arith, inl refl))
