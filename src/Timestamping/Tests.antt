-- ===== src/Timestamping/Tests.antt =====
-- The ring of pending timestamps on concrete requests.
use lancet_tool.Base.{ℕ, ◌≡◌, refl, List, [], ◌∷◌, ok, arith, true, false, pos, ◌⊎◌, some, none}
use lancet_tool.AppProto.{zero_pair}
use lancet_tool.Timespec.{TimeSpec}
use lancet_tool.Stats.{ThreadStats}
use lancet_tool.Timestamping.{
  extract_timestamp, TimestampInfo, PendingTx, add_pending_tx_timestamp, pop_pending_tx_timestamps,
  ControlMessage, scm_timestamping, ip_recverr, extract_timestamp, Assign,
}
use lancet_tool.Timestamping.Queue.{
  IsValid, completed, waiting, add_pending_tx_timestamp_lem, pop_pending_tx_timestamps_lem,
}

abbrev at_sec : ℕ → TimeSpec
at_sec n = record { tv_sec = pos n; tv_nsec = pos 0 }

abbrev info : ℕ → ℕ → TimestampInfo
info sec id = record { time = at_sec sec; optid = id }

-- Room for three: one answered request, and one of 10 bytes that waits.
abbrev ring : PendingTx
ring = record {
  tx_byte_counter = 20;
  head = 4;
  tail = 3;
  consumed = 2;
  pending = info 5 20 ∷ info 1 5 ∷ info 7 10 ∷ [];
}

ring-IsValid : IsValid 3 ring
ring-IsValid = omega arith

abbrev no_stats : ThreadStats
no_stats = record {
  th_s = record { rx = zero_pair; tx = zero_pair };
  inc_idx = 0;
  samples = [];
  tx_s = record { count = 0; samples = [] };
  prev_tx_timestamp = at_sec 0;
  tx_sample_selector = 0;
}

abbrev before : Assign
before = record { ring = ring; stats = no_stats; draws = false ∷ [] }

abbrev message : List ControlMessage
message = ip_recverr true 19 ∷ scm_timestamping (at_sec 9) ∷ []

add_pending_tx_timestamp_lem_example :
    let t = add_pending_tx_timestamp 3 ring 30 in
    IsValid 3 t
    × (waiting 3 t ≡ 20 ∷ 50 ∷ [])
    × (completed 3 t ≡ at_sec 7 ∷ [])
    × (t.tx_byte_counter ≡ 50)
add_pending_tx_timestamp_lem_example =
    add_pending_tx_timestamp_lem 3 ring 30 ring-IsValid (omega arith) (omega arith)

pop_pending_tx_timestamps_lem_example :
    ((completed 3 ring ≡ []) × (pop_pending_tx_timestamps 3 ring ≡ ok (none, ring)))
    ⊎ ((e : TimestampInfo) × (t' : PendingTx) × (pop_pending_tx_timestamps 3 ring ≡ ok (some e, t'))
        × (completed 3 ring ≡ e.time ∷ completed 3 t')
        × (waiting 3 t' ≡ waiting 3 ring)
        × IsValid 3 t'
        × (t'.head ≡ 4)
        × (t'.tail ≡ 3))
pop_pending_tx_timestamps_lem_example = pop_pending_tx_timestamps_lem 3 ring ring-IsValid

pop_takes_oldest :
    pop_pending_tx_timestamps 3 ring ≡ ok (some (info 7 10), record ring { consumed = 3 })
unfolding pop_pending_tx_timestamps
pop_takes_oldest = refl

abbrev idle : PendingTx
idle = record ring { head = 3 }

idle-IsValid : IsValid 3 idle
idle-IsValid = omega arith
