-- ===== src/Tcp/Latency/Tests.antt =====
-- The latency agent (agents/tp_tcp.c:341-413) on a concrete exchange.
use lancet_tool.Base.{
  ℕ, ◌≡◌, refl, [], ◌∷◌, some, ok, arith, true, false, pos, ◌-ℤ◌, ◌+ℤ◌, replicate, length-replicate,
}
use lancet_tool.AppProto.{zero_pair, synthetic_consume_response}
use lancet_tool.AppProto.Framing.{scan}
use lancet_tool.AppProto.Simple.{fixed_frame}
use lancet_tool.Stats.{
  ThreadStats, add_latency_sample, add_throughput_rx_sample, add_throughput_tx_sample,
}
use lancet_tool.Tcp.{Connection, max_payload}
use lancet_tool.Tcp.Buffer.{IsValid}
use lancet_tool.Tcp.Parsers.{synthetic-Parses}
use lancet_tool.Tcp.Send.{sent}
use lancet_tool.Tcp.Loops.{nothing_there}
use lancet_tool.Tcp.Latency.{LatencyRead, LatencyRound, LatencyState, latency_exchange}
use lancet_tool.Tcp.Latency.Exchange.{with_bytes, latency_exchange_lem}

fresh : Connection
fresh = record {
  fd = 5;
  idx = 0;
  closed = false;
  pending_reqs = 0;
  buffer_idx = 0;
  buffer = replicate max_payload 0;
}

fresh-IsValid : IsValid fresh
unfolding fresh
fresh-IsValid = record { size = length-replicate {A = ℕ} max_payload 0; index = omega arith }

abbrev no_stats : ThreadStats
no_stats = record {
  th_s = record { rx = zero_pair; tx = zero_pair };
  inc_idx = 0;
  samples = [];
  tx_s = record { count = 0; samples = [] };
  prev_tx_timestamp = record { tv_sec = pos 0; tv_nsec = pos 0 };
  tx_sample_selector = 0;
}

abbrev start : LatencyState
start = record { conn = fresh; stats = no_stats; next_tx = pos 1000 }

-- A read that ends at this time.
abbrev read_at : ℕ → LatencyRead
read_at t = record {
  result = nothing_there;
  end_time = pos t;
  ia = pos 300;
  should_measure = true;
  period = 1;
}

-- Two iovecs, and a response of eight bytes in two reads.
abbrev two_reads : LatencyRound
two_reads = record {
  should_load = true;
  clock = pos 1010;
  request = record {
    meta = 0;
    iov_cnt = 2;
    iovs =
        record { iov_base = 1 ∷ 2 ∷ []; iov_len = 2 }
        ∷ record { iov_base = 3 ∷ []; iov_len = 1 }
        ∷ [];
  };
  result = sent 3;
  start_time = pos 1011;
  should_measure = true;
  reads =
      with_bytes (replicate 3 1, read_at 1040)
      ∷ with_bytes (replicate 5 1, read_at 1061)
      ∷ read_at 2000
      ∷ [];
}

abbrev counted : ThreadStats
counted =
    add_throughput_rx_sample true (record { bytes = 8; reqs = 1 })
      (add_throughput_tx_sample true (record { bytes = 3; reqs = 1 }) no_stats)

abbrev sampled : ThreadStats
sampled = record counted { inc_idx = 1; tx_sample_selector = 1 }

latency_exchange_lem_example :
    (c : Connection) × (latency_exchange synthetic_consume_response false two_reads start
      ≡ ok (some (record { conn = c; stats = sampled; next_tx = pos 1300 })))
    × IsValid c
    × (c.buffer_idx ≡ 0)
unfolding fresh scan add_latency_sample ◌-ℤ◌ ◌+ℤ◌ add_throughput_rx_sample add_throughput_tx_sample
latency_exchange_lem_example =
    latency_exchange_lem synthetic_consume_response (fixed_frame 8) synthetic-Parses false two_reads
      ((replicate 3 1, read_at 1040) ∷ []) (replicate 5 1) (read_at 1061) (read_at 2000 ∷ []) start
      1 sampled refl refl fresh-IsValid refl (omega arith, omega arith, refl, tt) (omega arith)
      (omega arith) refl (omega arith) refl refl
