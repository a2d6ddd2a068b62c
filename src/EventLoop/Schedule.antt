-- ===== src/EventLoop/Schedule.antt =====
-- When the requests of an event loop go out.
use lancet_tool.Base.{
  ℕ, List, [], ◌∷◌, Option, some, none, ok, Bool, true, false, Bool-cases, inl, inr, ◌≡◌, refl, ℤ,
  ◌≤ℤ◌, ◌+ℤ◌, ltb_ℤ, ltb_false→le, if◌then◌else◌, set, ◌&&◌,
}
use lancet_tool.Stats.{ThreadStats}
use lancet_tool.Base.Each.{All, Each, Each-ok, Each-after}
use lancet_tool.EventLoop.{
  again, done, Thread, Departure, Turn, Event, Round, Handlers, departed, send_at, send_one,
  item_at, handled, handle_one, main_loop,
}
use lancet_tool.EventLoop.Keeps.{KeptAfter, Allowed, main_loop-Kept}

-- The first request was due at `start`, each later one an interarrival time behind the one before it, the
-- next one is due at `next_tx`, and none went out before it was due.
abbrev pub FollowsSchedule : (start : ℤ) → List Departure → (next_tx : ℤ) → Type 0
FollowsSchedule start [] next_tx = next_tx ≡ start
FollowsSchedule start (d ∷ ds) next_tx =
    (next_tx ≡ d.due +ℤ d.ia) × (d.due ≤ℤ d.clock) × FollowsSchedule start ds d.due

always : {A : Type 0} (xs : List A) → All (λ x. Unit {0}) xs
always [] = tt
always (x ∷ xs) = (tt, always xs)

module _ {C T E : Type 0} (h : Handlers C T E) (start : ℤ) where
  abbrev Paced : Thread C → Type 0
  Paced t = FollowsSchedule start t.departures t.next_tx

  KeptAfter-if :
      (b : Bool) (t : Thread C)
      → Paced t
      → KeptAfter Paced (if b then again t else done t)
        × KeptAfter Paced (if b then done t else again t)
  KeptAfter-if true t p = (p, p)
  KeptAfter-if false t p = (p, p)

  departed-Paced :
      (i : ℕ) (turn : Turn T) (t : Thread C) (bytes : List ℕ) (o : Option (C × ThreadStats))
      → t.next_tx ≤ℤ turn.clock
      → Paced t
      → KeptAfter Paced (departed h i turn t bytes o)
  unfolding departed
  departed-Paced i turn t bytes none due p = tt
  departed-Paced i turn t bytes (some n) due p = (KeptAfter-if h.repeats _ (refl, due, p)).0

  send_one-Paced :
      (turn : Turn T) (t : Thread C)
      → Unit {0}
      → Paced t
      → Each (KeptAfter Paced) (send_one h turn t)
  unfolding send_one send_at
  send_one-Paced turn t v p = elim (Bool-cases (ltb_ℤ turn.clock t.next_tx)) [
    | inl early ↦ rw early (Each-ok (KeptAfter Paced) (done t) p)
    | inr due ↦
        rw due (Each-after (h.pick t.items t.turn) (λ q. sent q.0 q.1 q.2 (ltb_false→le _ _ due)))
  ]
    where
      sent :
          (o : Option ℕ) (items : List C) (k : ℕ)
          → t.next_tx ≤ℤ turn.clock
          → Each (KeptAfter Paced) (send_at h turn (record t { items = items; turn = k }) o)
      sent none items k le =
          Each-ok (KeptAfter Paced) (done (record t { items = items; turn = k })) p
      sent (some i) items k le = Each-after (item_at items i) (λ c.
          Each-after (h.send turn.input c t.stats) (λ r.
            Each-ok (KeptAfter Paced) _
              (departed-Paced i turn (record t { items = items; turn = k }) r.0 r.1 le p)))

  handled-Paced :
      (e : Event E) (t : Thread C) (o : Option (C × ThreadStats × Bool))
      → Paced t
      → KeptAfter Paced (handled h e t o)
  unfolding handled
  handled-Paced e t none p = tt
  handled-Paced e t (some n) p =
      (KeptAfter-if (h.breaks && n.2 && ltb_ℤ t.next_tx e.clock)
        (record t { items = set t.items e.idx n.0; stats = n.1 }) p).1

  handle_one-Paced :
      (e : Event E) (t : Thread C) → Unit {0} → Paced t → Each (KeptAfter Paced) (handle_one h e t)
  unfolding handle_one
  handle_one-Paced e t w p = Each-after (item_at t.items e.idx) (λ c.
      Each-after (h.handle e.input c t.stats)
        (λ r. Each-ok (KeptAfter Paced) (handled h e t r) (handled-Paced e t r p)))

  -- Rounds under load.
  abbrev pub Loaded : List (Round T E) → Type 0
  Loaded = All (λ r. r.should_load ≡ true)

  loaded_lem :
      (rounds : List (Round T E))
      → Loaded rounds
      → All (Allowed h (λ x. Unit {0}) (λ e. Unit {0}) Paced) rounds
  loaded_lem [] l = tt
  loaded_lem (r ∷ rs) (l, ls) = (
    record { turns = always r.turns; events = always r.events; reset = λ idle. cc },
    loaded_lem rs ls,
  )

  -- For every event loop, whatever its connections, its requests and its events are: while the load is on,
  -- the loop keeps the schedule. The first request is due at `start`, each later one an interarrival time
  -- behind the one before it, however late that one went out; no request goes out before it is due; and
  -- `next_tx` is the time at which the next one is due.
  pub main_loop-FollowsSchedule :
      (rounds : List (Round T E)) (t t' : Thread C)
      → Loaded rounds
      → main_loop h rounds t ≡ ok (some t')
      → FollowsSchedule start t.departures t.next_tx
      → FollowsSchedule start t'.departures t'.next_tx
  main_loop-FollowsSchedule rounds t t' l ran p =
      (main_loop-Kept h (λ x. Unit {0}) (λ e. Unit {0}) Paced send_one-Paced handle_one-Paced rounds
          t (loaded_lem rounds l) p).each
        (some t') ran
