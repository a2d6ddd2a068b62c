-- ===== src/Stats/TxSamples.antt =====
-- `add_tx_timestamp` (agents/stats.c:130-145) samples the gaps between transmissions.
use lancet_tool.Base.{
  ◌+◌, ◌%◌, ◌^◌, ◌<◌, ◌≡◌, refl, arith, true, false, pos, ◌-ℤ◌, length, get_or, get_or-set_self,
}
use lancet_tool.Timespec.{
  TimeSpec, IsNormal, is_zero, to_ns, timespec_diff_unset, timespec_diff_lem,
}
use lancet_tool.Stats.{ThreadStats, add_tx_timestamp, max_per_thread_tx_samples}

abbrev pub no_time : TimeSpec
no_time = record { tv_sec = pos 0; tv_nsec = pos 0 }

-- A draw that selects the transmission, after one with a proper time: the exact gap in nanoseconds to
-- the previous transmission goes into the next slot of the ring.
pub add_tx_timestamp_sampled :
    (tx : TimeSpec) (s : ThreadStats)
    → IsNormal tx
    → IsNormal s.prev_tx_timestamp
    → is_zero tx.tv_sec ≡ false
    → is_zero s.prev_tx_timestamp.tv_sec ≡ false
    → s.tx_s.count + 1 < 2 ^ 32
    → max_per_thread_tx_samples < length s.tx_s.samples
    → let s' = add_tx_timestamp true tx s in
      let gap = get_or s'.tx_s.samples (s.tx_s.count % max_per_thread_tx_samples) no_time in
      (s'.tx_s.count ≡ s.tx_s.count + 1)
      × (to_ns gap ≡ to_ns tx -ℤ to_ns s.prev_tx_timestamp)
      × IsNormal gap
      × (s'.prev_tx_timestamp ≡ tx)
unfolding add_tx_timestamp
add_tx_timestamp_sampled tx s n n' z z' small room =
    let (d, ran, normal, gap) = timespec_diff_lem tx s.prev_tx_timestamp n n' z z' in
    let slot = s.tx_s.count % max_per_thread_tx_samples in
    let stored = get_or-set_self s.tx_s.samples slot d no_time (omega arith) in
    rw (ran, stored) (omega arith, gap, normal, refl)

-- The first transmission of a thread, before which there is no time, and one that the draw leaves
-- out, only become the previous transmission.
pub add_tx_timestamp_skipped :
    (tx : TimeSpec) (s : ThreadStats)
    → (add_tx_timestamp false tx s ≡ record s { prev_tx_timestamp = tx })
      × (is_zero s.prev_tx_timestamp.tv_sec ≡ true
          → add_tx_timestamp true tx s ≡ record s { prev_tx_timestamp = tx })
unfolding add_tx_timestamp
add_tx_timestamp_skipped tx s = (refl, λ z. rw (timespec_diff_unset tx s.prev_tx_timestamp z) refl)
