-- ===== src/EventLoop/Keeps.antt =====
-- What each step of an event loop keeps, the loop keeps.
use lancet_tool.Base.{
  List, [], ◌∷◌, Option, some, none, Outcome, ok, fault, Fault, false, Bool-cases, inl, inr, ◌≡◌,
}
use lancet_tool.Base.Each.{All, Each, Each-ok, Each-fault, Each-bind}
use lancet_tool.EventLoop.{
  After, again, done, returned, steps, Thread, Turn, Event, Round, Handlers, send_one, handle_one,
  send_due, handle_all, loaded_round, main_round, main_loop, go_on,
}

-- Nothing is claimed of a function that has returned.
abbrev pub Kept : {S : Type 0} → (S → Type 0) → Option S → Type 0
Kept I none = Unit {0}
Kept I (some s) = I s

abbrev pub KeptAfter : {S : Type 0} → (S → Type 0) → After S → Type 0
KeptAfter I (again s) = I s
KeptAfter I (done s) = I s
KeptAfter I returned = Unit {0}

pub steps-Kept :
    {X S : Type 0} (V : X → Type 0) (I : S → Type 0) (body : X → S → Outcome (After S))
    (at_end : S → Outcome (Option S))
    → ((x : X) (s : S) → V x → I s → Each (KeptAfter I) (body x s))
    → ((s : S) → I s → Each (Kept I) (at_end s))
    → (xs : List X) (s : S) → All V xs
    → I s
    → Each (Kept I) (steps body at_end xs s)
unfolding steps
steps-Kept V I body at_end one last [] s v i = last s i
steps-Kept {S} V I body at_end one last (x ∷ xs) s (v, vs) i =
    Each-bind (KeptAfter I) (one x s v i)
      (next (λ s'. steps-Kept V I body at_end one last xs s' vs))
  where
    next :
        ((s' : S) → I s' → Each (Kept I) (steps body at_end xs s'))
        → (a : After S) → KeptAfter I a
        → Each (Kept I) (elim a [
          | again s' ↦ steps body at_end xs s'
          | done s' ↦ ok (some s')
          | returned ↦ ok none
        ])
    next rest (again s') k = rest s' k
    next rest (done s') k = Each-ok (Kept I) (some s') k
    next rest returned k = Each-ok (Kept I) none tt

module _ {C T E : Type 0} (h : Handlers C T E) (V : Turn T → Type 0) (W : Event E → Type 0)
    (I : Thread C → Type 0) where
  -- The inputs of a round, where a round without load sets the clock anew.
  pub record Allowed (r : Round T E) : Type 0 where
    pub turns : All V r.turns
    pub events : All W r.events
    pub reset : r.should_load ≡ false → (t : Thread C) → I t → I (record t { next_tx = r.clock })

  module _
      (send : (turn : Turn T) (t : Thread C)
        → V turn
        → I t
        → Each (KeptAfter I) (send_one h turn t))
      (handle : (e : Event E) (t : Thread C)
        → W e
        → I t
        → Each (KeptAfter I) (handle_one h e t)) where
    loaded_round-Kept :
        (r : Round T E) (t : Thread C) → Allowed r → I t → Each (Kept I) (loaded_round h r t)
    unfolding loaded_round send_due handle_all
    loaded_round-Kept r t a i =
        Each-bind (Kept I)
          (steps-Kept V I (send_one h) (λ u. fault Fault.out_of_fuel) send
            (λ s k. Each-fault (Kept I) Fault.out_of_fuel) r.turns t a.turns i)
          next
      where
        next :
            (o : Option (Thread C))
            → Kept I o
            → Each (Kept I) (elim o [ none ↦ ok none | some t' ↦ handle_all h r.events t' ])
        next none k = Each-ok (Kept I) none tt
        next (some t') k =
            steps-Kept W I (handle_one h) (λ u. ok (some u)) handle
              (λ s k'. Each-ok (Kept I) (some s) k') r.events t' a.events k

    main_round-Kept :
        (r : Round T E) (t : Thread C) → Allowed r → I t → Each (KeptAfter I) (main_round h r t)
    unfolding main_round
    main_round-Kept r t a i = elim (Bool-cases r.should_load) [
      | inl load ↦ rw load (Each-bind (Kept I) (loaded_round-Kept r t a i) next)
      | inr idle ↦
          rw idle
            (Each-ok (KeptAfter I) (again (record t { next_tx = r.clock })) (a.reset idle t i))
    ]
      where
        next : (o : Option (Thread C)) → Kept I o → Each (KeptAfter I) (ok (go_on h o))
        next none k = Each-ok (KeptAfter I) returned tt
        next (some t') k = Each-ok (KeptAfter I) (again t') k

    pub main_loop-Kept :
        (rounds : List (Round T E)) (t : Thread C)
        → All Allowed rounds
        → I t
        → Each (Kept I) (main_loop h rounds t)
    unfolding main_loop
    main_loop-Kept rounds t a i =
        steps-Kept Allowed I (main_round h) (λ u. ok (some u)) main_round-Kept
          (λ s k. Each-ok (Kept I) (some s) k) rounds t a i
