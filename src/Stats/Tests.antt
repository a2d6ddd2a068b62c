-- ===== src/Stats/Tests.antt =====
-- The sample rings (agents/stats.c) and the differences of times on concrete values.
use lancet_tool.Base.{◌+◌, ◌≡◌, refl, pos, ◌-ℤ◌, some, int_laws, replicate}
use lancet_tool.AppProto.{zero_pair}
use lancet_tool.Timespec.{TimeSpec, timespec_diff, IsNormal, to_ns, timespec_diff_lem}
use lancet_tool.Stats.{ThreadStats, no_sample, max_per_thread_samples, max_per_thread_tx_samples}
use lancet_tool.Stats.TxSamples.{no_time}

abbrev early : TimeSpec
early = record { tv_sec = pos 7; tv_nsec = pos 999_999_000 }

abbrev late : TimeSpec
late = record { tv_sec = pos 9; tv_nsec = pos 500 }

early-IsNormal : IsNormal early
early-IsNormal = record { low = omega int_laws; high = omega int_laws }

late-IsNormal : IsNormal late
late-IsNormal = record { low = omega int_laws; high = omega int_laws }

timespec_diff_lem_example :
    (d : TimeSpec) × (timespec_diff (some late) (some early) ≡ some d)
    × IsNormal d
    × (to_ns d ≡ to_ns late -ℤ to_ns early)
timespec_diff_lem_example = timespec_diff_lem late early late-IsNormal early-IsNormal refl refl

-- A thread that has sent once and recorded nothing.
start : ThreadStats
start = record {
  th_s = record { rx = zero_pair; tx = zero_pair };
  inc_idx = 0;
  samples = replicate max_per_thread_samples no_sample;
  tx_s = record { count = 0; samples = replicate (max_per_thread_tx_samples + 1) no_time };
  prev_tx_timestamp = early;
  tx_sample_selector = 0;
}
