-- ===== src/Timestamping/Queue.antt =====
-- The ring of pending timestamps (agents/timestamping.c:285-319) is two queues: times that were
-- received and not yet matched with a reply, and requests that wait for their time.
use lancet_tool.Base.{
  ℕ, suc, ◌+◌, ◌-◌, ◌%◌, ◌^◌, ◌≤◌, ◌<◌, ◌≡◌, refl, sym, ap, ◌∙◌, List, [], ◌∷◌, ◌++◌, arith, length,
  set, length-set, get_or-set_self, ok, some, none, Bool, Bool-cases, inl, inr, ltb, ◌⊎◌,
}
use lancet_tool.Timespec.{TimeSpec}
use lancet_tool.Stats.{ThreadStats, add_u32, add_tx_timestamp}
use lancet_tool.Timestamping.{
  TimestampInfo, PendingTx, no_info, entry, add_pending_tx_timestamp, pop_pending_tx_timestamps,
  push_complete_tx_timestamp,
}
use lancet_tool.Timestamping.Ring.{slice, slice-set_after, slice-snoc, slice-cons, entry_in}

-- The counters are in order, no more than `max` requests are under way, and no counter has wrapped.
pub record IsValid (max_pending : ℕ) (t : PendingTx) : Type 0 where
  pub room : 0 < max_pending
  pub size : length t.pending ≡ max_pending
  pub matched : t.consumed ≤ t.tail
  pub answered : t.tail ≤ t.head
  pub window : t.head ≤ t.consumed + max_pending
  pub small : t.head < 2 ^ 32

module _ (max_pending : ℕ) where
  -- The times that were received, oldest first.
  abbrev pub completed : PendingTx → List TimeSpec
  completed t = slice (λ e. e.time) max_pending t.pending t.consumed (t.tail - t.consumed)

  -- The byte counts of the requests that wait for their time, oldest first.
  abbrev pub waiting : PendingTx → List ℕ
  waiting t = slice (λ e. e.optid) max_pending t.pending t.tail (t.head - t.tail)

  -- In a valid ring with fewer than `max` requests under way, whose `head` does not wrap, a new request
  -- joins the end of the waiting ones, under the number of bytes sent so far, and disturbs nothing.
  pub add_pending_tx_timestamp_lem :
      (t : PendingTx) (bytes : ℕ)
      → IsValid max_pending t
      → t.head < t.consumed + max_pending
      → t.head + 1 < 2 ^ 32
      → let t' = add_pending_tx_timestamp max_pending t bytes in
        IsValid max_pending t'
        × (waiting t' ≡ waiting t ++ add_u32 t.tx_byte_counter bytes ∷ [])
        × (completed t' ≡ completed t)
        × (t'.tx_byte_counter ≡ add_u32 t.tx_byte_counter bytes)
  unfolding add_pending_tx_timestamp
  add_pending_tx_timestamp_lem t bytes v free small =
      let old = entry max_pending t t.head in
      let new : TimestampInfo = record old { optid = add_u32 t.tx_byte_counter bytes } in
      let ring = set t.pending (t.head % max_pending) new in
      let next : add_u32 t.head 1 ≡ t.head + 1 = omega arith in
      let longer : add_u32 t.head 1 - t.tail ≡ suc (t.head - t.tail) = omega arith in
      let self =
        get_or-set_self t.pending (t.head % max_pending) new no_info
          (entry_in max_pending t.head t.pending v.room v.size) in
      (
        record {
          room = v.room;
          size = length-set t.pending (t.head % max_pending) new ∙ v.size;
          matched = v.matched;
          answered = omega arith;
          window = omega arith;
          small = omega arith;
        },
        ap (slice (λ e. e.optid) max_pending ring t.tail) longer
            ∙ slice-snoc (λ e. e.optid) max_pending ring t.tail (t.head - t.tail) t.head
                (omega arith)
            ∙ rw
                (
                  self,
                  slice-set_after (λ e. e.optid) max_pending t.pending t.tail (t.head - t.tail)
                      t.head new (omega arith) (omega arith),
                )
                refl,
        slice-set_after (λ e. e.time) max_pending t.pending t.consumed (t.tail - t.consumed) t.head
            new (omega arith) (omega arith),
        refl,
      )

  -- A reply takes the oldest received time, or nothing where none was received, and fails no
  -- assertion; the requests that wait are left alone.
  pub pop_pending_tx_timestamps_lem :
      (t : PendingTx)
      → IsValid max_pending t
      → ((completed t ≡ []) × (pop_pending_tx_timestamps max_pending t ≡ ok (none, t)))
        ⊎ ((e : TimestampInfo) × (t' : PendingTx) × (pop_pending_tx_timestamps max_pending t
              ≡ ok (some e, t'))
            × (completed t ≡ e.time ∷ completed t')
            × (waiting t' ≡ waiting t)
            × IsValid max_pending t'
            × (t'.head ≡ t.head)
            × (t'.tail ≡ t.tail))
  unfolding pop_pending_tx_timestamps
  pop_pending_tx_timestamps_lem t v = elim (Bool-cases (ltb t.consumed t.tail)) [
    | inl some_left ↦
        let lt : t.consumed < t.tail = ground arith in
        let next : add_u32 t.consumed 1 ≡ suc t.consumed = omega arith in
        inr (
          entry max_pending t t.consumed,
          record t { consumed = add_u32 t.consumed 1 },
          ground arith,
          slice-cons (λ e. e.time) max_pending t.pending t.consumed (t.tail - t.consumed)
                (t.tail - add_u32 t.consumed 1) (omega arith)
              ∙ ap
                  (λ k.
                    (entry max_pending t t.consumed).time
                    ∷ slice (λ e. e.time) max_pending t.pending k (t.tail - add_u32 t.consumed 1))
                  (sym next),
          refl,
          record {
            room = v.room;
            size = v.size;
            matched = omega arith;
            answered = v.answered;
            window = omega arith;
            small = v.small;
          },
          refl,
          refl,
        )
    | inr none_left ↦
        let all : t.tail - t.consumed ≡ 0 = ground arith in inl (rw all refl, ground arith)
  ]

  -- A request that is sent with its time known, while none waits: the time joins the received ones.
  pub push_complete_tx_timestamp_lem :
      (t : PendingTx) (sampled : Bool) (to_add : TimeSpec) (stats : ThreadStats)
      → IsValid max_pending t
      → t.head ≡ t.tail
      → t.head < t.consumed + max_pending
      → t.head + 1 < 2 ^ 32
      → let r = push_complete_tx_timestamp max_pending sampled t to_add stats in
        IsValid max_pending r.0
        × (completed r.0 ≡ completed t ++ to_add ∷ [])
        × (waiting r.0 ≡ [])
        × (r.0.head ≡ r.0.tail)
        × (r.1 ≡ add_tx_timestamp sampled to_add stats)
  unfolding push_complete_tx_timestamp
  push_complete_tx_timestamp_lem t sampled to_add stats v idle free small =
      let old = entry max_pending t t.tail in
      let new : TimestampInfo = record old { time = to_add } in
      let ring = set t.pending (t.tail % max_pending) new in
      let longer : add_u32 t.tail 1 - t.consumed ≡ suc (t.tail - t.consumed) = omega arith in
      let nothing : add_u32 t.head 1 - add_u32 t.tail 1 ≡ 0 = omega arith in
      let self =
        get_or-set_self t.pending (t.tail % max_pending) new no_info
          (entry_in max_pending t.tail t.pending v.room v.size) in
      (
        record {
          room = v.room;
          size = length-set t.pending (t.tail % max_pending) new ∙ v.size;
          matched = omega arith;
          answered = omega arith;
          window = omega arith;
          small = omega arith;
        },
        ap (slice (λ e. e.time) max_pending ring t.consumed) longer
            ∙ slice-snoc (λ e. e.time) max_pending ring t.consumed (t.tail - t.consumed) t.tail
                (omega arith)
            ∙ rw
                (
                  self,
                  slice-set_after (λ e. e.time) max_pending t.pending t.consumed
                      (t.tail - t.consumed) t.tail new (omega arith) (omega arith),
                )
                refl,
        ap (slice (λ e. e.optid) max_pending ring (add_u32 t.tail 1)) nothing,
        ap (λ k. add_u32 k 1) idle,
        refl,
      )
