-- ===== src/Tcp/Symmetric/Uses.antt =====
-- The transmit times that the loop over the answered requests uses up (agents/tp_tcp.c:690-706), whatever
-- the kernel reports.
use lancet_tool.Base.{
  ℕ, zero, suc, ◌+◌, ◌%◌, ◌^◌, ◌≡◌, ap, subst, ◌∙◌, refl, List, ok, fault, Fault, length, [], ◌∷◌,
  ◌++◌, Option, some, none, ltb, check, arith,
}
use lancet_tool.Base.Each.{Each, Each-ok, Each-fault, Each-bind, Each-after, Each-if, Each-weaken}
use lancet_tool.Stats.{add_u32}
use lancet_tool.Timestamping.{TimestampInfo, PendingTx, ControlMessage, Assign}
use lancet_tool.Timestamping.Counters.{
  SameRing, SameRing-refl, SameRing-trans, Popped, pop_pending_tx_timestamps-Popped,
  get_tx_timestamp-SameRing,
}
use lancet_tool.Tcp.Symmetric.{SymState, poll_tx, late_time, next_time, match_times}

-- `n` transmit times have been used, and nothing else of the connection and its ring has changed.
pub record Used (n : ℕ) (s s' : SymState) : Type 0 where
  pub conn : s'.conn ≡ s.conn
  pub head : s'.times.ring.head ≡ s.times.ring.head
  pub size : length s'.times.ring.pending ≡ length s.times.ring.pending
  pub consumed : s'.times.ring.consumed % 2 ^ 16 ≡ (s.times.ring.consumed + n) % 2 ^ 16

one_more : (a b : ℕ) → b ≡ add_u32 a 1 → b % 2 ^ 16 ≡ (a + 1) % 2 ^ 16
one_more a b e = omega arith

Used-suc :
    (n a b c : ℕ)
    → b % 2 ^ 16 ≡ (a + 1) % 2 ^ 16
    → c % 2 ^ 16 ≡ (b + n) % 2 ^ 16
    → c % 2 ^ 16 ≡ (a + suc n) % 2 ^ 16
Used-suc n a b c e e' = omega arith

module _ (max_pending : ℕ) (junk : TimestampInfo) where
  poll_tx-SameRing :
      (arrivals : List (List (List ControlMessage))) (queue : List (List ControlMessage))
      (a : Assign)
      → Each (λ p. SameRing a.ring p.0.ring) (poll_tx max_pending junk arrivals queue a)
  unfolding poll_tx
  poll_tx-SameRing [] queue a = Each-fault _ Fault.out_of_fuel
  poll_tx-SameRing (new ∷ arrivals) queue a =
      Each-bind (λ r. SameRing a.ring r.1.ring)
        (get_tx_timestamp-SameRing max_pending (suc max_pending) junk (queue ++ new) a)
        (λ r same.
          Each-if r.0 (λ found. Each-ok (λ p. SameRing a.ring p.0.ring) (r.1, r.2, arrivals) same)
            (λ not_yet.
              Each-weaken (poll_tx-SameRing arrivals r.2 r.1)
                (λ p later. SameRing-trans same later)))

  abbrev UsedOne : SymState → TimestampInfo × SymState → Type 0
  UsedOne s r = Used 1 s r.1

  Used-Popped :
      (s s' : SymState) (t : PendingTx)
      → SameRing s.times.ring t
      → s'.conn ≡ s.conn
      → (s'.times.ring.head ≡ t.head)
        × (s'.times.ring.consumed ≡ add_u32 t.consumed 1)
        × (length s'.times.ring.pending ≡ length t.pending)
      → Used 1 s s'
  Used-Popped s s' t same conn (head, consumed, size) = record {
    conn = conn;
    head = head ∙ same.head;
    size = size ∙ same.size;
    consumed =
        one_more s.times.ring.consumed s'.times.ring.consumed
          (consumed ∙ ap (λ k. add_u32 k 1) same.consumed);
  }

  next_time-Used : (s : SymState) → Each (UsedOne s) (next_time max_pending junk s)
  unfolding next_time late_time
  next_time-Used s =
      Each-bind (λ r. Popped s.times.ring r.0 r.1)
        (pop_pending_tx_timestamps-Popped max_pending s.times.ring) (λ r p. first r.0 r.1 p)
    where
      at : PendingTx → SymState
      at ring = record s { times = record s.times { ring = ring } }

      second :
          (a : Assign) (queue : List (List ControlMessage))
          (arrivals : List (List (List ControlMessage))) (o : Option TimestampInfo)
          (ring : PendingTx)
          → SameRing s.times.ring a.ring
          → Popped a.ring o ring
          → Each (UsedOne s) (elim o [
            | none ↦ fault Fault.assertion
            | some info ↦ ok (
              info,
              record s { times = record a { ring = ring }; queue = queue; arrivals = arrivals },
            )
          ])
      second a queue arrivals none ring same p = Each-fault _ Fault.assertion
      second a queue arrivals (some info) ring same p =
          Each-ok (UsedOne s) _ (Used-Popped s _ a.ring same refl p)

      late :
          (ring : PendingTx)
          → ring ≡ s.times.ring
          → Each (UsedOne s) (late_time max_pending junk (at ring))
      late ring e =
          Each-bind (λ p. SameRing ring p.0.ring)
            (poll_tx-SameRing s.arrivals s.queue (record s.times { ring = ring }))
            (λ p same. Each-after (check (ltb p.0.ring.consumed p.0.ring.tail)) (λ u.
              Each-bind (λ q. Popped p.0.ring q.0 q.1)
                (pop_pending_tx_timestamps-Popped max_pending p.0.ring)
                (λ q popped.
                  second p.0 p.1 p.2 q.0 q.1 (subst (λ t. SameRing t p.0.ring) e same) popped)))

      first :
          (o : Option TimestampInfo) (ring : PendingTx)
          → Popped s.times.ring o ring
          → Each (UsedOne s) (elim o [
            | none ↦ late_time max_pending junk (at ring)
            | some info ↦ ok (info, at ring)
          ])
      first none ring p = late ring p
      first (some info) ring p =
          Each-ok (UsedOne s) (info, at ring)
            (Used-Popped s (at ring) s.times.ring (SameRing-refl s.times.ring) refl p)

  pub match_times-Used :
      (reqs : ℕ) (last : Option TimestampInfo) (s : SymState)
      → Each (λ r. Used reqs s r.1) (match_times max_pending junk reqs last s)
  unfolding match_times
  match_times-Used zero last s =
      Each-ok (λ r. Used 0 s r.1) (last, s)
        (record { conn = refl; head = refl; size = refl; consumed = omega arith })
  match_times-Used (suc reqs) last s = Each-bind (UsedOne s) (next_time-Used s) (λ r u.
      Each-weaken (match_times-Used reqs (some r.0) r.1) (λ m u'. record {
        conn = u'.conn ∙ u.conn;
        head = u'.head ∙ u.head;
        size = u'.size ∙ u.size;
        consumed =
            Used-suc reqs s.times.ring.consumed r.1.times.ring.consumed m.1.times.ring.consumed
              u.consumed u'.consumed;
      }))
