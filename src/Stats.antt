-- ===== src/Stats.antt =====
-- agents/stats.c and inc/lancet/stats.h: the counters and sample rings that a thread shares with the
-- agent manager. `should_measure()` and the draw `drand48() < TX_TIMESTAMP_SAMPLING` are arguments.
pub mod Sampling
pub mod TxSamples
pub mod Counters
mod Tests
use lancet_tool.Base.{
  ℕ, ◌+◌, ◌-◌, ◌*◌, ◌%◌, ◌^◌, List, Bool, true, false, not, ◌||◌, ◌==◌, ltb, if◌then◌else◌, Option,
  some, none, Outcome, ok, fault, Fault, set, ℤ, pos, pos_part, ltb_ℤ, get_or,
}
use lancet_tool.AppProto.{ByteReqPair, add_u64}
use lancet_tool.Timespec.{TimeSpec, timespec_diff}

abbrev pub max_per_thread_samples : ℕ
max_per_thread_samples = 131072

abbrev pub max_per_thread_tx_samples : ℕ
max_per_thread_tx_samples = 4096

abbrev pub add_u32 : ℕ → ℕ → ℕ
add_u32 a b = (a + b) % 2 ^ 32

-- `struct lat_sample`
pub record LatSample : Type 0 where
  pub nsec : ℕ
  pub tx : TimeSpec

-- `struct throughput_stats`
pub record ThroughputStats : Type 0 where
  pub rx : ByteReqPair
  pub tx : ByteReqPair

-- `struct tx_samples`
pub record TxSampleRing : Type 0 where
  pub count : ℕ
  pub samples : List TimeSpec

-- The thread's `union stats` (a `struct latency_stats` begins with the `struct throughput_stats`) and
-- its other thread-local variables.
pub record ThreadStats : Type 0 where
  pub th_s : ThroughputStats
  pub inc_idx : ℕ
  pub samples : List LatSample
  pub tx_s : TxSampleRing
  pub prev_tx_timestamp : TimeSpec
  pub tx_sample_selector : ℕ

add_pair : ByteReqPair → ByteReqPair → ByteReqPair
add_pair a b = record { bytes = add_u64 a.bytes b.bytes; reqs = add_u64 a.reqs b.reqs }

-- `add_throughput_tx_sample`
unfoldable pub add_throughput_tx_sample : Bool → ByteReqPair → ThreadStats → ThreadStats
unfolding add_pair
add_throughput_tx_sample should_measure tx_p s =
    let th = s.th_s in
    if not should_measure then s else record s { th_s = record th { tx = add_pair th.tx tx_p } }

-- `add_throughput_rx_sample`
unfoldable pub add_throughput_rx_sample : Bool → ByteReqPair → ThreadStats → ThreadStats
unfolding add_pair
add_throughput_rx_sample should_measure rx_p s =
    let th = s.th_s in
    if not should_measure then s else record s { th_s = record th { rx = add_pair th.rx rx_p } }

-- The ring after `dest = &samples[count++ % MAX]` and `timespec_diff(dest, ...)`, with the
-- `count--` of a difference that fails.
store_diff : Option TimeSpec → TxSampleRing → TxSampleRing
store_diff none ring = ring
store_diff (some d) ring = record {
  count = add_u32 ring.count 1;
  samples = set ring.samples (ring.count % max_per_thread_tx_samples) d;
}

-- `add_tx_timestamp`
pub add_tx_timestamp : Bool → TimeSpec → ThreadStats → ThreadStats
unfolding store_diff
add_tx_timestamp sampled tx_ts s = record s {
  tx_s =
      if sampled
      then store_diff (timespec_diff (some tx_ts) (some s.prev_tx_timestamp)) s.tx_s
      else s.tx_s;
  prev_tx_timestamp = tx_ts;
}

-- `lts->nsec = diff; if (tx) lts->tx = *tx;` on the sample that was there.
fill_sample : ℤ → Option TimeSpec → LatSample → LatSample
fill_sample diff none old = record old { nsec = pos_part diff }
fill_sample diff (some tx) old = record { nsec = pos_part diff; tx = tx }

abbrev pub no_sample : LatSample
no_sample = record { nsec = 0; tx = record { tv_sec = pos 0; tv_nsec = pos 0 } }

store_sample : ℤ → Option TimeSpec → ThreadStats → ThreadStats
unfolding fill_sample
store_sample diff tx s =
    let i = s.inc_idx % max_per_thread_samples in
    record s {
      inc_idx = add_u32 s.inc_idx 1;
      samples = set s.samples i (fill_sample diff tx (get_or s.samples i no_sample));
    }

-- `add_latency_sample`; `period` is `lround(1 / get_sampling_rate())`. The selector is moved only
-- while measuring.
unfoldable pub add_latency_sample :
    Bool → (period : ℕ) → ℤ → Option TimeSpec → ThreadStats → Outcome ThreadStats
unfolding store_sample
add_latency_sample should_measure period diff tx s =
    let moved : ThreadStats = record s { tx_sample_selector = add_u32 s.tx_sample_selector 1 } in
    if not (ltb_ℤ (pos 0) diff)
    then fault Fault.assertion
    else if not should_measure
    then ok s
    else if period == 0
    then fault Fault.div_by_zero
    else if s.tx_sample_selector % period == 0
    then ok (store_sample diff tx moved)
    else ok moved
