-- ===== src/Timestamping/Messages.antt =====
-- The control messages that carry timestamps (agents/timestamping.c:73-131).
use lancet_tool.Base.{
  ℕ, ◌≡◌, refl, List, [], ◌∷◌, Bool, true, false, not, Bool-cases, inl, inr, if◌then◌else◌, Outcome,
  ok, fault, Fault, ◌>>=◌, ◌>>◌, check,
}
use lancet_tool.Timespec.{TimeSpec, is_zero}
use lancet_tool.Timestamping.{
  TimestampInfo, ControlMessage, scm_timestamping, ip_recverr, other_message, extract_timestamp,
  udp_extract_timestamps,
}

-- The hardware times that are set, in order.
abbrev pub hardware_times : List ControlMessage → List TimeSpec
hardware_times [] = []
hardware_times (scm_timestamping t ∷ ms) =
    let rest = hardware_times ms in if is_zero t.tv_sec then rest else t ∷ rest
hardware_times (ip_recverr stamp id ∷ ms) = hardware_times ms
hardware_times (other_message ∷ ms) = hardware_times ms

-- At most one time is accepted.
abbrev pub only_time : Bool → TimeSpec → List TimeSpec → Outcome (Bool × TimeSpec)
only_time found dest [] = ok (found, dest)
only_time true dest (t ∷ ts) = fault Fault.assertion
only_time false dest (t ∷ ts) = only_time true t ts

-- `udp_extract_timestamps` finds the one hardware time that is set, whatever other messages there are,
-- leaves `dest` alone when there is none, and fails its assertion when there are two.
pub udp_extract_timestamps_lem :
    (found : Bool) (dest : TimeSpec) (ms : List ControlMessage)
    → udp_extract_timestamps found dest ms ≡ only_time found dest (hardware_times ms)
unfolding udp_extract_timestamps
udp_extract_timestamps_lem found dest [] = refl
udp_extract_timestamps_lem found dest (ip_recverr stamp id ∷ ms) =
    udp_extract_timestamps_lem found dest ms
udp_extract_timestamps_lem found dest (other_message ∷ ms) =
    udp_extract_timestamps_lem found dest ms
udp_extract_timestamps_lem found dest (scm_timestamping t ∷ ms) =
    elim (Bool-cases (is_zero t.tv_sec)) [
      | inl unset ↦ rw unset (udp_extract_timestamps_lem found dest ms)
      | inr there ↦ rw there (taken found (udp_extract_timestamps_lem true t ms))
    ]
  where
    taken :
        (b : Bool)
        → udp_extract_timestamps true t ms ≡ only_time true t (hardware_times ms)
        → (check (not b) >> udp_extract_timestamps true t ms)
          ≡ only_time b dest (t ∷ hardware_times ms)
    taken true e = refl
    taken false e = e

-- No message of another type.
abbrev pub AllKnown : List ControlMessage → Type 0
AllKnown [] = Unit {0}
AllKnown (scm_timestamping t ∷ ms) = AllKnown ms
AllKnown (ip_recverr stamp id ∷ ms) = AllKnown ms
AllKnown (other_message ∷ ms) = ⊥

-- The id of the last timestamp's error message, if there is one.
abbrev pub last_id : ℕ → List ControlMessage → ℕ
last_id id [] = id
last_id id (scm_timestamping t ∷ ms) = last_id id ms
last_id id (ip_recverr true new ∷ ms) = last_id new ms
last_id id (ip_recverr false new ∷ ms) = last_id id ms
last_id id (other_message ∷ ms) = last_id id ms

-- `extract_timestamp`, on messages of the two types that it knows, finds the time as
-- `udp_extract_timestamps` does, with the id of the last error message for a timestamp.
pub extract_timestamp_lem :
    (found : Bool) (dest : TimestampInfo) (ms : List ControlMessage)
    → AllKnown ms
    → extract_timestamp found dest ms ≡ (
        udp_extract_timestamps found dest.time ms >>= λ r.
        ok (r.0, record { time = r.1; optid = last_id dest.optid ms }))
unfolding extract_timestamp udp_extract_timestamps
extract_timestamp_lem found dest [] known = refl
extract_timestamp_lem found dest (ip_recverr true id ∷ ms) known =
    extract_timestamp_lem found (record dest { optid = id }) ms known
extract_timestamp_lem found dest (ip_recverr false id ∷ ms) known =
    extract_timestamp_lem found dest ms known
extract_timestamp_lem found dest (other_message ∷ ms) known = absurd known
extract_timestamp_lem found dest (scm_timestamping t ∷ ms) known =
    elim (Bool-cases (is_zero t.tv_sec)) [
      | inl unset ↦ rw unset (extract_timestamp_lem found dest ms known)
      | inr there ↦
          rw there (taken found (extract_timestamp_lem true (record dest { time = t }) ms known))
    ]
  where
    taken :
        (b : Bool)
        → extract_timestamp true (record dest { time = t }) ms ≡ (
            udp_extract_timestamps true t ms >>= λ r.
            ok (r.0, record { time = r.1; optid = last_id dest.optid ms }))
        → (check (not b) >> extract_timestamp true (record dest { time = t }) ms) ≡ (
            (check (not b) >> udp_extract_timestamps true t ms) >>= λ r.
            ok (r.0, record { time = r.1; optid = last_id dest.optid ms }))
    taken true e = refl
    taken false e = e
