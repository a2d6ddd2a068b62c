-- ===== src/Timestamping/Counters.antt =====
-- What the operations of agents/timestamping.c leave of the size and the counters of a ring, whatever
-- the kernel reports.
use lancet_tool.Base.{
  ℕ, zero, suc, ◌%◌, ◌==◌, ◌≡◌, refl, ◌∙◌, List, [], ◌∷◌, Bool, true, false, if◌then◌else◌, Option,
  some, none, length, length-set, ok, fault, Fault, check, leb, ltb, Next, continue, stop, crash,
  run_loop,
}
use lancet_tool.Base.Each.{Each, Each-ok, Each-fault, Each-bind, Each-after, Each-if}
use lancet_tool.Stats.{add_u32}
use lancet_tool.Timestamping.{
  TimestampInfo, PendingTx, ControlMessage, Assign, pop_pending_tx_timestamps, extract_timestamp,
  covers, assign_round, assign_time, get_tx_timestamp, entry,
}

-- No request has been added, no time has been used, and the ring has as many entries as before.
pub record SameRing (t t' : PendingTx) : Type 0 where
  pub head : t'.head ≡ t.head
  pub consumed : t'.consumed ≡ t.consumed
  pub size : length t'.pending ≡ length t.pending

abbrev pub SameRing-refl : (t : PendingTx) → SameRing t t
SameRing-refl t = record { head = refl; consumed = refl; size = refl }

pub SameRing-trans : {t t' t'' : PendingTx} → SameRing t t' → SameRing t' t'' → SameRing t t''
SameRing-trans r r' = record {
  head = r'.head ∙ r.head;
  consumed = r'.consumed ∙ r.consumed;
  size = r'.size ∙ r.size;
}

-- A pop takes one time, or leaves the ring as it is.
abbrev pub Popped : PendingTx → Option TimestampInfo → PendingTx → Type 0
Popped t none t' = t' ≡ t
Popped t (some info) t' =
    (t'.head ≡ t.head)
    × (t'.consumed ≡ add_u32 t.consumed 1)
    × (length t'.pending ≡ length t.pending)

pub pop_pending_tx_timestamps-Popped :
    (max_pending : ℕ) (t : PendingTx)
    → Each (λ r. Popped t r.0 r.1) (pop_pending_tx_timestamps max_pending t)
unfolding pop_pending_tx_timestamps
pop_pending_tx_timestamps-Popped max_pending t = Each-after (check (leb t.consumed t.head)) (λ u.
    Each-if (ltb t.consumed t.tail)
      (λ some_left. Each-ok (λ r. Popped t r.0 r.1) _ (refl, refl, refl))
      (λ none_left. Each-ok (λ r. Popped t r.0 r.1) (none, t) refl))

abbrev KeptNext : {S : Type 0} → (S → Type 0) → Next S → Type 0
KeptNext I (continue s) = I s
KeptNext I (stop s) = I s
KeptNext I (crash e) = Unit {0}

run_loop-Each :
    {S : Type 0} (I : S → Type 0) (test : S → Bool) (body : S → Next S)
    → ((s : S) → I s → KeptNext I (body s))
    → (fuel : ℕ) (s : S) → I s
    → Each I (run_loop fuel test body s)
unfolding run_loop
run_loop-Each I test body one zero s i = Each-fault I Fault.out_of_fuel
run_loop-Each {S} I test body one (suc fuel) s i =
    round (run_loop-Each I test body one fuel) (test s) (body s) (one s i)
  where
    round :
        ((s' : S) → I s' → Each I (run_loop fuel test body s'))
        → (b : Bool) (n : Next S) → KeptNext I n
        → Each I (elim b [
          | false ↦ ok s
          | true ↦ elim n [
            | continue s' ↦ run_loop fuel test body s'
            | stop s' ↦ ok s'
            | crash e ↦ fault e
          ]
        ])
    round later false n k = Each-ok I s i
    round later true (continue s') k = later s' k
    round later true (stop s') k = Each-ok I s' k
    round later true (crash e) k = Each-fault I e

KeptNext-if :
    {S : Type 0} (I : S → Type 0) (b : Bool) (s : S)
    → I s
    → KeptNext I (if b then stop s else continue s)
KeptNext-if I true s i = i
KeptNext-if I false s i = i

module _ (max_pending : ℕ) where
  assign_time-SameRing :
      (fuel : ℕ) (recv : TimestampInfo) (s : Assign)
      → Each (λ a. SameRing s.ring a.ring) (assign_time fuel max_pending recv s)
  unfolding assign_time assign_round
  assign_time-SameRing fuel recv s =
      run_loop-Each (λ a. SameRing s.ring a.ring) (λ a. covers max_pending recv a.ring)
        (assign_round max_pending recv)
        (λ a r.
          KeptNext-if (λ a'. SameRing s.ring a'.ring)
            ((entry max_pending a.ring a.ring.tail).optid == add_u32 recv.optid 1) _
            (record {
              head = r.head;
              consumed = r.consumed;
              size = length-set a.ring.pending (a.ring.tail % max_pending) _ ∙ r.size;
            }))
        fuel s (SameRing-refl s.ring)

  pub get_tx_timestamp-SameRing :
      (fuel : ℕ) (junk : TimestampInfo) (queue : List (List ControlMessage)) (s : Assign)
      → Each (λ r. SameRing s.ring r.1.ring) (get_tx_timestamp fuel max_pending junk queue s)
  unfolding get_tx_timestamp
  get_tx_timestamp-SameRing fuel junk [] s =
      Each-after (check (leb s.ring.tail s.ring.head))
        (λ u. Each-ok (λ r. SameRing s.ring r.1.ring) (false, s, []) (SameRing-refl s.ring))
  get_tx_timestamp-SameRing fuel junk (messages ∷ queue) s =
      Each-after (check (leb s.ring.tail s.ring.head)) (λ u.
        Each-if (s.ring.head == s.ring.tail)
          (λ idle.
            Each-ok (λ r. SameRing s.ring r.1.ring) (false, s, messages ∷ queue)
              (SameRing-refl s.ring))
          (λ waits. Each-after (extract_timestamp false junk messages) (λ r.
            Each-after (check r.0) (λ u'.
              Each-if (ltb (add_u32 r.1.optid 1) (entry max_pending s.ring s.ring.tail).optid)
                (λ before. get_tx_timestamp-SameRing fuel junk queue s)
                (λ named.
                  Each-bind (λ a. SameRing s.ring a.ring) (assign_time-SameRing fuel r.1 s)
                    (λ a same. Each-ok (λ q. SameRing s.ring q.1.ring) (true, a, queue) same))))))
