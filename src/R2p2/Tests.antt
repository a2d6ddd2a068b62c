-- ===== src/R2p2/Tests.antt =====
-- The agents over R2P2 (agents/tp_r2p2.c) on concrete requests and callbacks.
use lancet_tool.Base.{
  ℕ, ◌+◌, ◌<◌, ◌≡◌, refl, List, [], ◌∷◌, some, none, ok, arith, true, false, pos, ◌-ℤ◌, get_elem?,
  int_laws,
}
use lancet_tool.AppProto.{Iovec, zero_pair}
use lancet_tool.Timespec.{TimeSpec, IsNormal, to_ns}
use lancet_tool.Stats.{ThreadStats, add_latency_sample, add_throughput_rx_sample}
use lancet_tool.EventLoop.{Thread, Event, handle_all}
use lancet_tool.R2p2.{
  R2p2Ctx, R2p2Heap, R2p2Send, R2p2Event, success, timeout, sum_bytes, release,
  on_symmetric_r2p2_send, on_symmetric_callback, throughput_r2p2_main,
}
use lancet_tool.R2p2.Latency.{read_reply, datagram, no_answer}
use lancet_tool.R2p2.Contexts.{live, handle_all-live}
use lancet_tool.R2p2.Exchange.{context_for, r2p2_exchange_lem}

abbrev at_sec : ℕ → TimeSpec
at_sec n = record { tv_sec = pos n; tv_nsec = pos 5 }

at_sec-IsNormal : (n : ℕ) → IsNormal (at_sec n)
at_sec-IsNormal n = record { low = omega int_laws; high = omega int_laws }

abbrev no_stats : ThreadStats
no_stats = record {
  th_s = record { rx = zero_pair; tx = zero_pair };
  inc_idx = 0;
  samples = [];
  tx_s = record { count = 0; samples = [] };
  prev_tx_timestamp = at_sec 0;
  tx_sample_selector = 0;
}

abbrev ctx_to : ℕ → R2p2Ctx
ctx_to i = record {
  destination = i;
  timeout = 5000000;
  routing_policy = 1;
  tx_timestamp = at_sec 3;
}

-- Two requests under way, and one that has been answered.
abbrev heap : R2p2Heap
heap = record { contexts = some (ctx_to 0) ∷ none ∷ some (ctx_to 1) ∷ [] }

abbrev thread : Thread R2p2Heap
thread = record {
  items = heap ∷ [];
  turn = 0;
  next_tx = pos 100;
  stats = no_stats;
  departures = [];
}

abbrev answer : R2p2Event
answer = record {
  ctx = 2;
  callback = success (record { iov_base = 1 ∷ 2 ∷ []; iov_len = 2 } ∷ []);
  now = at_sec 9;
  should_measure = true;
  period = 1;
}

abbrev late : R2p2Event
late = record answer { ctx = 0; callback = timeout }

abbrev two_callbacks : List (Event R2p2Event)
two_callbacks =
    record { idx = 0; input = answer; clock = pos 101 }
    ∷ record { idx = 0; input = late; clock = pos 102 }
    ∷ []

handle_all-live_example :
    (t' : Thread R2p2Heap) × (heap' : R2p2Heap) × (handle_all
        (throughput_r2p2_main 1 2 77)
        two_callbacks
        thread
      ≡ ok (some t'))
    × (t'.items ≡ heap' ∷ [])
    × (live heap'.contexts + 2 ≡ 2)
    × (get_elem? heap'.contexts 1 ≡ some none)
handle_all-live_example =
    handle_all-live 1 2 77 two_callbacks thread heap 1 refl
      (refl, (ctx_to 1, refl), (λ e. absurd (omega arith), tt), (refl, (ctx_to 0, refl), tt, tt))
      (λ e. absurd (omega arith), (λ e. absurd (omega arith), tt))

abbrev hello : R2p2Send
hello = record {
  request = record {
    meta = 5;
    iov_cnt = 1;
    iovs = record { iov_base = 1 ∷ 2 ∷ 3 ∷ []; iov_len = 3 } ∷ [];
  };
  rand = 7;
  now = at_sec 4;
  sampled = false;
  should_measure = true;
}

-- The answer to it, when the requests before it have been answered.
abbrev answer_hello : R2p2Event
answer_hello = record answer { ctx = 3 }

abbrev one_left : R2p2Heap
one_left = record { contexts = none ∷ none ∷ none ∷ some (context_for 1 2 hello) ∷ [] }

abbrev response : List Iovec
response = record { iov_base = 1 ∷ 2 ∷ []; iov_len = 2 } ∷ []

abbrev counted : ThreadStats
counted = add_throughput_rx_sample true (record { bytes = sum_bytes 0 response; reqs = 1 }) no_stats

abbrev sampled_once : ThreadStats
sampled_once = record counted { inc_idx = 1; tx_sample_selector = 1 }

offered :
    add_latency_sample true 1 (to_ns (at_sec 9) -ℤ to_ns (at_sec 4)) (some (at_sec 4)) counted
    ≡ ok sampled_once
unfolding add_latency_sample ◌-ℤ◌ add_throughput_rx_sample sum_bytes to_ns
offered = refl

r2p2_exchange_lem_example :
    (heap' : R2p2Heap) × (stats' : ThreadStats) × (on_symmetric_r2p2_send 1 2 hello heap no_stats
      ≡ ok (1 ∷ 2 ∷ 3 ∷ [], some (heap', stats')))
    × (get_elem? heap'.contexts 3 ≡ some (some (context_for 1 2 hello)))
    × (1 < 2)
    × (on_symmetric_callback answer_hello (success response) one_left no_stats
        ≡ ok (some (release 3 one_left, sampled_once, true)))
r2p2_exchange_lem_example =
    r2p2_exchange_lem 1 2 hello heap no_stats answer_hello response one_left no_stats sampled_once
      (omega arith) (at_sec-IsNormal 4) refl refl refl (at_sec-IsNormal 9) refl offered

-- A reply in two packets, and one that never comes.
two_packets_test :
    read_reply 9 0 (datagram 9 false 1400 ∷ datagram 9 true 200 ∷ no_answer ∷ []) ≡ ok 1600
unfolding read_reply
two_packets_test = refl
