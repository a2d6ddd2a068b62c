-- ===== src/Tcp/Throughput/Tests.antt =====
-- The throughput agent (agents/tp_tcp.c:235-339) on concrete reads and writes.
use lancet_tool.Base.{
  ℕ, ◌+◌, ◌≡◌, refl, List, [], ◌∷◌, ok, some, arith, replicate, true, false, length-replicate, pos,
  inl, inr,
}
use lancet_tool.AppProto.{Request, zero_pair, synthetic_consume_response}
use lancet_tool.AppProto.Framing.{scan}
use lancet_tool.AppProto.Simple.{fixed_frame}
use lancet_tool.Timespec.{TimeSpec}
use lancet_tool.Stats.{add_throughput_tx_sample, add_tx_timestamp}
use lancet_tool.Tcp.{Connection, max_payload}
use lancet_tool.Tcp.Buffer.{IsValid}
use lancet_tool.Tcp.Stream.{Fits}
use lancet_tool.Tcp.Parsers.{synthetic-Parses}
use lancet_tool.Tcp.Send.{sent, would_block}
use lancet_tool.Tcp.Throughput.{AgentState, read_all, on_throughput_send}
use lancet_tool.Tcp.Throughput.Counting.{read_all_lem, on_throughput_send_lem}

fresh : Connection
fresh = record {
  fd = 5;
  idx = 0;
  closed = false;
  pending_reqs = 3;
  buffer_idx = 0;
  buffer = replicate max_payload 0;
}

fresh-IsValid : IsValid fresh
unfolding fresh
fresh-IsValid = record { size = length-replicate {A = ℕ} max_payload 0; index = omega arith }

abbrev at_sec : ℕ → TimeSpec
at_sec n = record { tv_sec = pos n; tv_nsec = pos 5 }

-- Ten responses were received before.
abbrev start : AgentState
start = record {
  conn = fresh;
  stats = record {
    th_s = record { rx = record { bytes = 80; reqs = 10 }; tx = zero_pair };
    inc_idx = 0;
    samples = [];
    tx_s = record { count = 0; samples = [] };
    prev_tx_timestamp = at_sec 0;
    tx_sample_selector = 0;
  };
}

-- Two and a half responses, cut within the first.
abbrev first : List ℕ
first = replicate 3 1

abbrev second : List ℕ
second = replicate 17 2

chunks_fit : Fits (fixed_frame 8) [] (first ∷ second ∷ [])
unfolding scan
chunks_fit = (omega arith, λ e. omega arith, (omega arith, λ e. omega arith, tt))

read_all_lem_example :
    (s' : AgentState) × (read_all synthetic_consume_response true start (first ∷ second ∷ [])
      ≡ ok s')
    × (s'.stats.th_s.rx ≡ record { bytes = 96; reqs = 12 })
    × (s'.stats.th_s.tx ≡ zero_pair)
    × IsValid s'.conn
unfolding fresh scan
read_all_lem_example =
    read_all_lem synthetic_consume_response (fixed_frame 8) synthetic-Parses start
      (first ∷ second ∷ []) fresh-IsValid refl chunks_fit (omega arith, omega arith)

-- A request of three bytes, in two writes: one byte is counted.
abbrev request : Request
request = record {
  meta = 0;
  iov_cnt = 1;
  iovs = record { iov_base = 1 ∷ 2 ∷ 3 ∷ []; iov_len = 3 } ∷ [];
}

on_throughput_send_lem_example :
    (s' : AgentState) × (on_throughput_send true false
        (at_sec 6)
        (would_block ∷ sent 2 ∷ sent 1 ∷ [])
        request
        start
      ≡ ok (1 ∷ 2 ∷ 3 ∷ [], some s'))
    × (s'.conn.pending_reqs ≡ fresh.pending_reqs + 1)
    × (s'.stats
        ≡ add_throughput_tx_sample true
            (record { bytes = 1; reqs = 1 })
            (add_tx_timestamp false (at_sec 6) start.stats))
unfolding fresh
on_throughput_send_lem_example =
    on_throughput_send_lem true false (at_sec 6) (would_block ∷ sent 2 ∷ sent 1 ∷ []) request start
      (omega arith, tt) (inr (omega arith, inl refl)) (omega arith)
