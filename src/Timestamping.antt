-- ===== src/Timestamping.antt =====
-- agents/timestamping.c and inc/lancet/timestamping.h: the ring of requests that wait for their
-- transmit timestamps, one for each connection.
pub mod Ring
pub mod Queue
pub mod Counters
pub mod Delivery
pub mod Messages
mod Tests
use lancet_tool.Base.{
  ℕ, zero, suc, ◌+◌, ◌-◌, ◌%◌, ◌^◌, List, [], ◌∷◌, Bool, true, false, not, ◌==◌, ltb, leb,
  if◌then◌else◌, Option, some, none, Outcome, ok, fault, Fault, ◌>>=◌, ◌>>◌, check, set, get_or,
  pos, Next, continue, stop, crash, run_loop,
}
use lancet_tool.Timespec.{TimeSpec, is_zero}
use lancet_tool.Stats.{ThreadStats, add_tx_timestamp, add_u32}

-- `struct timestamp_info`
pub record TimestampInfo : Type 0 where
  pub time : TimeSpec
  pub optid : ℕ

-- `struct pending_tx_timestamps`. `pending` has `get_max_pending_reqs()` entries.
pub record PendingTx : Type 0 where
  pub tx_byte_counter : ℕ
  pub head : ℕ
  pub tail : ℕ
  pub consumed : ℕ
  pub pending : List TimestampInfo

-- An entry as `calloc` makes it.
abbrev pub no_info : TimestampInfo
no_info = record { time = record { tv_sec = pos 0; tv_nsec = pos 0 }; optid = 0 }

-- `pending[i % get_max_pending_reqs()]`
abbrev pub entry : ℕ → PendingTx → ℕ → TimestampInfo
entry max_pending t i = get_or t.pending (i % max_pending) no_info

abbrev pub set_entry : ℕ → PendingTx → ℕ → TimestampInfo → List TimestampInfo
set_entry max_pending t i v = set t.pending (i % max_pending) v

-- `add_pending_tx_timestamp`. It is called only for a connection with room for a request, so
-- `max_pending`, which it divides by, is not 0.
unfoldable pub add_pending_tx_timestamp : ℕ → PendingTx → ℕ → PendingTx
add_pending_tx_timestamp max_pending t bytes =
    let counter = add_u32 t.tx_byte_counter bytes in
    let old = entry max_pending t t.head in
    record t {
      tx_byte_counter = counter;
      pending = set_entry max_pending t t.head (record old { optid = counter });
      head = add_u32 t.head 1;
    }

-- `pop_pending_tx_timestamps`; `none` is NULL.
unfoldable pub pop_pending_tx_timestamps :
    ℕ → PendingTx → Outcome (Option TimestampInfo × PendingTx)
pop_pending_tx_timestamps max_pending t =
    check (leb t.consumed t.head)
    >> (if ltb t.consumed t.tail
        then ok
            (some (entry max_pending t t.consumed), record t { consumed = add_u32 t.consumed 1 })
        else ok (none, t))

-- `push_complete_tx_timestamp`, with the draw of its `add_tx_timestamp`.
unfoldable pub push_complete_tx_timestamp :
    ℕ → Bool → PendingTx → TimeSpec → ThreadStats → PendingTx × ThreadStats
push_complete_tx_timestamp max_pending sampled t to_add stats =
    let old = entry max_pending t t.tail in
    (
      record t {
        pending = set_entry max_pending t t.tail (record old { time = to_add });
        head = add_u32 t.head 1;
        tail = add_u32 t.tail 1;
      },
      add_tx_timestamp sampled to_add stats,
    )

-- A control message of the error queue: `SCM_TIMESTAMPING` with the hardware time `ts[2]`, `IP_RECVERR`
-- with whether it is a timestamp's (`ENOMSG`, `SO_EE_ORIGIN_TIMESTAMPING`) and its `ee_data`, or another.
pub data ControlMessage : Type 0 where
  scm_timestamping : TimeSpec → ControlMessage
  ip_recverr : Bool → ℕ → ControlMessage
  other_message : ControlMessage

-- `extract_timestamp`: `found` is whether a time was found before. The result tells whether one was
-- found in all (1, or -1).
pub extract_timestamp : Bool → TimestampInfo → List ControlMessage → Outcome (Bool × TimestampInfo)
extract_timestamp found dest [] = ok (found, dest)
extract_timestamp found dest (scm_timestamping t ∷ rest) =
    let skipped = extract_timestamp found dest rest in
    let taken = extract_timestamp true (record dest { time = t }) rest in
    if is_zero t.tv_sec then skipped else (check (not found) >> taken)
extract_timestamp found dest (ip_recverr stamp id ∷ rest) =
    extract_timestamp found (if stamp then record dest { optid = id } else dest) rest
extract_timestamp found dest (other_message ∷ rest) = fault Fault.assertion

-- `udp_extract_timestamps`: messages of other types are passed over.
pub udp_extract_timestamps : Bool → TimeSpec → List ControlMessage → Outcome (Bool × TimeSpec)
udp_extract_timestamps found dest [] = ok (found, dest)
udp_extract_timestamps found dest (scm_timestamping t ∷ rest) =
    let skipped = udp_extract_timestamps found dest rest in
    let taken = udp_extract_timestamps true t rest in
    if is_zero t.tv_sec then skipped else (check (not found) >> taken)
udp_extract_timestamps found dest (ip_recverr stamp id ∷ rest) =
    udp_extract_timestamps found dest rest
udp_extract_timestamps found dest (other_message ∷ rest) = udp_extract_timestamps found dest rest

-- The variables of the loop in `get_tx_timestamp` that hands a time to the requests it covers, with the
-- draws of its calls of `add_tx_timestamp` that are still to come.
pub record Assign : Type 0 where
  pub ring : PendingTx
  pub stats : ThreadStats
  pub draws : List Bool

abbrev pub next_draw : List Bool → Bool × List Bool
next_draw [] = (false, [])
next_draw (b ∷ bs) = (b, bs)

abbrev pub covers : ℕ → TimestampInfo → PendingTx → Bool
covers max_pending recv t = leb (entry max_pending t t.tail).optid (add_u32 recv.optid 1)

pub assign_round : ℕ → TimestampInfo → Assign → Next Assign
assign_round max_pending recv s =
    let t = s.ring in
    let info = entry max_pending t t.tail in
    let (draw, draws) = next_draw s.draws in
    let after : Assign = record {
      ring = record t {
        pending = set_entry max_pending t t.tail (record info { time = recv.time });
        tail = add_u32 t.tail 1;
      };
      stats = add_tx_timestamp draw recv.time s.stats;
      draws = draws;
    } in
    if info.optid == add_u32 recv.optid 1 then stop after else continue after

-- That loop.
pub assign_time : ℕ → ℕ → TimestampInfo → Assign → Outcome Assign
unfolding assign_round
assign_time fuel max_pending recv s =
    run_loop fuel (λ a. covers max_pending recv a.ring) (assign_round max_pending recv) s

-- `get_tx_timestamp`. `queue` is what the calls of `recvmsg(MSG_ERRQUEUE)` return one after the other:
-- an empty queue is the call that fails. The result is 1 or 0, as a `Bool`, and what is left of the
-- queue. `junk` is what a call finds in the struct that the source leaves uninitialised.
pub get_tx_timestamp :
    ℕ
    → ℕ
    → TimestampInfo
    → List (List ControlMessage)
    → Assign
    → Outcome (Bool × Assign × List (List ControlMessage))
unfolding assign_time
get_tx_timestamp fuel max_pending junk [] s =
    check (leb s.ring.tail s.ring.head) >> ok (false, s, [])
get_tx_timestamp fuel max_pending junk (messages ∷ queue) s =
    let t = s.ring in
    let again = get_tx_timestamp fuel max_pending junk queue s in
    check (leb t.tail t.head)
    >> (if t.head == t.tail
        then ok (false, s, messages ∷ queue)
        else (extract_timestamp false junk messages >>= λ r.
            check r.0
            >> (if ltb (add_u32 r.1.optid 1) (entry max_pending t t.tail).optid
                then again
                else (assign_time fuel max_pending r.1 s >>= λ a. ok (true, a, queue)))))
