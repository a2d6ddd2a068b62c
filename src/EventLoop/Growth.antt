-- ===== src/EventLoop/Growth.antt =====
-- What grows by so much in each step of an event loop, grows by the sum of it in the loop.
use lancet_tool.Base.{
  ℕ, ◌+◌, ◌≤◌, ◌≡◌, refl, List, [], ◌∷◌, length, Option, some, none, Outcome, ok, fault, Fault, ℤ,
  arith, Bool-cases, inl, inr,
}
use lancet_tool.Base.Each.{Each, Each-ok, Each-fault, Each-bind, Each-weaken}
use lancet_tool.EventLoop.{
  After, again, done, returned, steps, Thread, Turn, Event, Round, Handlers, send_one, handle_one,
  send_due, handle_all, loaded_round, main_round, main_loop, go_on,
}
use lancet_tool.EventLoop.Keeps.{Kept, KeptAfter}

-- The sum of the costs of the inputs.
abbrev pub total : {X : Type 0} → (X → ℕ) → List X → ℕ
total cost [] = 0
total cost (x ∷ xs) = cost x + total cost xs

total-none : {X : Type 0} (xs : List X) → total (λ x. 0) xs ≡ 0
total-none [] = refl
total-none (x ∷ xs) = omega (arith, total-none xs)

total-one : {X : Type 0} (xs : List X) → total (λ x. 1) xs ≡ length xs
total-one [] = refl
total-one (x ∷ xs) = omega (arith, total-one xs)

Kept-weaken :
    {S : Type 0} {I J : S → Type 0} (o : Option S) → Kept I o → ((s : S) → I s → J s) → Kept J o
Kept-weaken none k w = tt
Kept-weaken (some s) k w = w s k

steps-Grows :
    {X S : Type 0} (m : S → ℕ) (cost : X → ℕ) (body : X → S → Outcome (After S))
    (at_end : S → Outcome (Option S))
    → ((x : X) (s : S) → Each (KeptAfter (λ s'. m s' ≤ m s + cost x)) (body x s))
    → ((s : S) → Each (Kept (λ s'. m s' ≤ m s)) (at_end s))
    → (xs : List X) (s : S)
    → Each (Kept (λ s'. m s' ≤ m s + total cost xs)) (steps body at_end xs s)
unfolding steps
steps-Grows m cost body at_end one last [] s =
    Each-weaken (last s) (λ o k. Kept-weaken o k (λ s' le. omega (arith, le)))
steps-Grows {S} m cost body at_end one last (x ∷ xs) s =
    Each-bind (KeptAfter (λ s'. m s' ≤ m s + cost x)) (one x s)
      (next (steps-Grows m cost body at_end one last xs))
  where
    Grown : S → Type 0
    Grown s' = m s' ≤ m s + (cost x + total cost xs)

    next :
        ((s' : S) → Each (Kept (λ s''. m s'' ≤ m s' + total cost xs)) (steps body at_end xs s'))
        → (a : After S) → KeptAfter (λ s'. m s' ≤ m s + cost x) a
        → Each (Kept Grown) (elim a [
          | again s' ↦ steps body at_end xs s'
          | done s' ↦ ok (some s')
          | returned ↦ ok none
        ])
    next rest (again s') k =
        Each-weaken (rest s') (λ o k'. Kept-weaken o k' (λ s'' le. omega (arith, k, le)))
    next rest (done s') k = Each-ok (Kept Grown) (some s') (omega (arith, k))
    next rest returned k = Each-ok (Kept Grown) none tt

module _ {C T E : Type 0} (h : Handlers C T E) (m : Thread C → ℕ)
    (reset : (t : Thread C) (clock : ℤ) → m (record t { next_tx = clock }) ≤ m t)
    (send : (turn : Turn T) (t : Thread C)
      → Each (KeptAfter (λ t'. m t' ≤ m t + 0)) (send_one h turn t))
    (handle : (e : Event E) (t : Thread C)
      → Each (KeptAfter (λ t'. m t' ≤ m t + 1)) (handle_one h e t)) where
  loaded_round-Grows :
      (r : Round T E) (t : Thread C)
      → Each (Kept (λ t'. m t' ≤ m t + length r.events)) (loaded_round h r t)
  unfolding loaded_round send_due handle_all
  loaded_round-Grows r t =
      Each-bind (Kept (λ t'. m t' ≤ m t + total (λ x. 0) r.turns))
        (steps-Grows m (λ x. 0) (send_one h) (λ u. fault Fault.out_of_fuel) send
          (λ s. Each-fault _ Fault.out_of_fuel) r.turns t)
        next
    where
      Grown : Thread C → Type 0
      Grown t' = m t' ≤ m t + length r.events

      next :
          (o : Option (Thread C))
          → Kept (λ t'. m t' ≤ m t + total (λ x. 0) r.turns) o
          → Each (Kept Grown) (elim o [ none ↦ ok none | some t' ↦ handle_all h r.events t' ])
      next none k = Each-ok (Kept Grown) none tt
      next (some t') k =
          Each-weaken
            (steps-Grows m (λ x. 1) (handle_one h) (λ u. ok (some u)) handle
              (λ s. Each-ok _ (some s) (omega arith)) r.events t')
            (λ o k'.
              Kept-weaken o k'
                (λ t'' le. omega (arith, k, le, total-none r.turns, total-one r.events)))

  main_round-Grows :
      (r : Round T E) (t : Thread C)
      → Each (KeptAfter (λ t'. m t' ≤ m t + length r.events)) (main_round h r t)
  unfolding main_round
  main_round-Grows r t = elim (Bool-cases r.should_load) [
    | inl load ↦ rw load (Each-bind (Kept Grown) (loaded_round-Grows r t) next)
    | inr idle ↦ rw idle (
        Each-ok (KeptAfter Grown) (again (record t { next_tx = r.clock }))
          (omega (arith, reset t r.clock)))
  ]
    where
      Grown : Thread C → Type 0
      Grown t' = m t' ≤ m t + length r.events

      next : (o : Option (Thread C)) → Kept Grown o → Each (KeptAfter Grown) (ok (go_on h o))
      next none k = Each-ok (KeptAfter Grown) returned tt
      next (some t') k = Each-ok (KeptAfter Grown) (again t') k

  -- The measure grows by one for each event at most.
  pub main_loop-Grows :
      (rounds : List (Round T E)) (t : Thread C)
      → Each (Kept (λ t'. m t' ≤ m t + total (λ r. length r.events) rounds)) (main_loop h rounds t)
  unfolding main_loop
  main_loop-Grows rounds t =
      steps-Grows m (λ r. length r.events) (main_round h) (λ u. ok (some u)) main_round-Grows
        (λ s. Each-ok _ (some s) (omega arith)) rounds t
