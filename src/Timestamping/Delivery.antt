-- ===== src/Timestamping/Delivery.antt =====
-- `get_tx_timestamp` (agents/timestamping.c:228-283): a hardware timestamp is handed to every request
-- up to the one that it names.
use lancet_tool.Base.{
  ℕ, zero, suc, ◌-◌, ◌%◌, ◌<◌, ◌≡◌, refl, ap, ◌∙◌, List, [], ◌∷◌, ◌++◌, arith, length, set,
  length-set, get_or-set_self, ok, true, false, replicate, append_assoc, run_loop-stop,
  run_loop-continue, stop, continue, ◌==◌, le→leb, lt→ltb, ==_of_ne, if◌then◌else◌, ==_refl,
}
use lancet_tool.Timespec.{TimeSpec}
use lancet_tool.Stats.{add_u32, add_tx_timestamp}
use lancet_tool.Timestamping.{
  TimestampInfo, PendingTx, no_info, entry, next_draw, ControlMessage, extract_timestamp, Assign,
  covers, assign_round, assign_time, get_tx_timestamp,
}
use lancet_tool.Timestamping.Ring.{
  slice, slice-set_after, slice-set_before, slice-snoc, slice-inv, entry_in,
}
use lancet_tool.Timestamping.Queue.{IsValid, completed, waiting}

module _ (max_pending : ℕ) where
  -- The oldest waiting request gets its time.
  answered : PendingTx → TimeSpec → PendingTx
  answered t time =
      let info = entry max_pending t t.tail in
      record t {
        pending = set t.pending (t.tail % max_pending) (record info { time = time });
        tail = add_u32 t.tail 1;
      }

  answered_lem :
      (t : PendingTx) (time : TimeSpec) (id : ℕ) (rest : List ℕ)
      → IsValid max_pending t
      → waiting max_pending t ≡ id ∷ rest
      → IsValid max_pending (answered t time)
        × (waiting max_pending (answered t time) ≡ rest)
        × (completed max_pending (answered t time) ≡ completed max_pending t ++ time ∷ [])
        × ((entry max_pending t t.tail).optid ≡ id)
  unfolding answered
  answered_lem t time id rest v e =
      let old = entry max_pending t t.tail in
      let new : TimestampInfo = record old { time = time } in
      let ring = set t.pending (t.tail % max_pending) new in
      let (k, count, first, others) =
        slice-inv (λ e. e.optid) max_pending t.pending t.tail (t.head - t.tail) id rest e in
      let next : add_u32 t.tail 1 ≡ suc t.tail = omega arith in
      let left : t.head - suc t.tail ≡ k = omega arith in
      let longer : add_u32 t.tail 1 - t.consumed ≡ suc (t.tail - t.consumed) = omega arith in
      let self =
        get_or-set_self t.pending (t.tail % max_pending) new no_info
          (entry_in max_pending t.tail t.pending v.room v.size) in
      (
        record {
          room = v.room;
          size = length-set t.pending (t.tail % max_pending) new ∙ v.size;
          matched = omega arith;
          answered = omega arith;
          window = v.window;
          small = v.small;
        },
        ap (λ i. slice (λ e. e.optid) max_pending ring i (t.head - i)) next
            ∙ ap (slice (λ e. e.optid) max_pending ring (suc t.tail)) left
            ∙ slice-set_before (λ e. e.optid) max_pending t.pending (suc t.tail) k t.tail new
                (omega arith) (omega arith)
            ∙ others,
        ap (slice (λ e. e.time) max_pending ring t.consumed) longer
            ∙ slice-snoc (λ e. e.time) max_pending ring t.consumed (t.tail - t.consumed) t.tail
                (omega arith)
            ∙ rw
                (
                  self,
                  slice-set_after (λ e. e.time) max_pending t.pending t.consumed
                      (t.tail - t.consumed) t.tail new (omega arith) (omega arith),
                )
                refl,
        first,
      )

  -- One round of the loop, for the request that waits first.
  assign_round_lem :
      (recv : TimestampInfo) (s : Assign) (id : ℕ)
      → (entry max_pending s.ring s.ring.tail).optid ≡ id
      → (a : Assign) × (assign_round max_pending recv s
          ≡ (if id == add_u32 recv.optid 1 then stop a else continue a))
        × (a.ring ≡ answered s.ring recv.time)
  unfolding assign_round answered
  assign_round_lem recv s id e =
      let draw = next_draw s.draws in
      (
        record {
          ring = answered s.ring recv.time;
          stats = add_tx_timestamp draw.0 recv.time s.stats;
          draws = draw.1;
        },
        rw e refl,
        refl,
      )

  abbrev AllBelow : ℕ → List ℕ → Type 0
  AllBelow n [] = Unit {0}
  AllBelow n (x ∷ xs) = (x < n) × AllBelow n xs

  -- A time whose id is that of a waiting request goes to this request and to those before it, which
  -- the kernel's one timestamp covers: they leave the waiting ones, in order, and the others wait on.
  pub assign_time_lem :
      (recv : TimestampInfo) (xs ys : List ℕ) (fuel : ℕ) (s : Assign)
      → IsValid max_pending s.ring
      → waiting max_pending s.ring ≡ xs ++ add_u32 recv.optid 1 ∷ ys
      → AllBelow (add_u32 recv.optid 1) xs
      → length xs < fuel
      → (a : Assign) × (assign_time fuel max_pending recv s ≡ ok a)
        × (waiting max_pending a.ring ≡ ys)
        × (completed max_pending a.ring
            ≡ completed max_pending s.ring ++ replicate (suc (length xs)) recv.time)
        × IsValid max_pending a.ring
  unfolding assign_time
  assign_time_lem recv xs ys zero s v w below h = absurd (omega arith)
  assign_time_lem recv [] ys (suc fuel) s v w below h =
      let id = add_u32 recv.optid 1 in
      let (v', rest, done, first) = answered_lem s.ring recv.time id ys v w in
      let (a, ran, ring) = assign_round_lem recv s id first in
      let test : covers max_pending recv s.ring ≡ true = ground arith in
      (
        a,
        run_loop-stop fuel _ _ s test (ran ∙ rw (==_refl id) refl),
        rw ring rest,
        rw ring done,
        rw ring v',
      )
  assign_time_lem recv (x ∷ xs) ys (suc fuel) s v w (lt, below) h =
      let id = add_u32 recv.optid 1 in
      let (v', rest, done, first) = answered_lem s.ring recv.time x (xs ++ id ∷ ys) v w in
      let (a, ran, ring) = assign_round_lem recv s x first in
      let test : covers max_pending recv s.ring ≡ true = ground arith in
      let other : (x == id) ≡ false = ground arith in
      let (b, ran', rest', done', vb) =
        assign_time_lem recv xs ys fuel a (rw ring v') (rw ring rest) below (omega arith) in
      (
        b,
        run_loop-continue fuel _ _ s test (ran ∙ rw other refl) ∙ ran',
        rest',
        done'
            ∙ ap (λ t. completed max_pending t ++ replicate (suc (length xs)) recv.time) ring
            ∙ ap (λ t. t ++ replicate (suc (length xs)) recv.time) done
            ∙ append_assoc (completed max_pending s.ring) (recv.time ∷ []) _,
        vb,
      )

  -- A message for bytes that were acknowledged before, as a resubmission sends it, is passed over: the
  -- call goes on as if it had not been in the queue.
  pub get_tx_timestamp_resubmission :
      (fuel : ℕ) (junk recv : TimestampInfo) (messages : List ControlMessage)
      (queue : List (List ControlMessage)) (s : Assign)
      → s.ring.tail < s.ring.head
      → extract_timestamp false junk messages ≡ ok (true, recv)
      → add_u32 recv.optid 1 < (entry max_pending s.ring s.ring.tail).optid
      → get_tx_timestamp fuel max_pending junk (messages ∷ queue) s
        ≡ get_tx_timestamp fuel max_pending junk queue s
  unfolding get_tx_timestamp
  get_tx_timestamp_resubmission fuel junk recv messages queue s busy found old =
      rw
        (
          le→leb s.ring.tail s.ring.head (omega arith),
          ==_of_ne s.ring.head s.ring.tail (omega arith),
          found,
          lt→ltb _ _ old,
        )
        refl
