-- ===== src/Stats/Counters.antt =====
-- The throughput counters (agents/stats.c:111-131).
use lancet_tool.Base.{◌+◌, ◌^◌, ◌<◌, ◌≡◌, true, arith}
use lancet_tool.AppProto.{ByteReqPair, plus}
use lancet_tool.Stats.{ThreadStats, add_throughput_rx_sample, add_throughput_tx_sample}

-- Two counters that stay below 2^64 in sum.
abbrev pub NoWrap : ByteReqPair → ByteReqPair → Type 0
NoWrap a b = (a.bytes + b.bytes < 2 ^ 64) × (a.reqs + b.reqs < 2 ^ 64)

pub received_counts :
    (p : ByteReqPair) (s : ThreadStats)
    → NoWrap s.th_s.rx p
    → ((add_throughput_rx_sample true p s).th_s.rx ≡ plus s.th_s.rx p)
      × ((add_throughput_rx_sample true p s).th_s.tx ≡ s.th_s.tx)
unfolding add_throughput_rx_sample
received_counts p s (h, k) = ground arith

pub sent_counts :
    (p : ByteReqPair) (s : ThreadStats)
    → NoWrap s.th_s.tx p
    → ((add_throughput_tx_sample true p s).th_s.tx ≡ plus s.th_s.tx p)
      × ((add_throughput_tx_sample true p s).th_s.rx ≡ s.th_s.rx)
unfolding add_throughput_tx_sample
sent_counts p s (h, k) = ground arith
