-- ===== src/EventLoop/Items.antt =====
-- What each request and each event keeps of its connection, an event loop keeps of all connections.
use lancet_tool.Base.{
  ℕ, zero, suc, List, [], ◌∷◌, Option, some, none, ok, Fault, Bool, true, false, Bool-cases, inl,
  inr, ◌≡◌, ◌∙◌, ltb_ℤ, if◌then◌else◌, set, ◌&&◌, length, length-set,
}
use lancet_tool.Stats.{ThreadStats}
use lancet_tool.Base.Each.{All, Each, Each-ok, Each-fault, Each-bind}
use lancet_tool.EventLoop.{
  again, done, Thread, Turn, Event, Round, Handlers, departed, send_at, send_one, item_at, handled,
  handle_one, main_loop,
}
use lancet_tool.EventLoop.Keeps.{KeptAfter, Allowed, main_loop-Kept}

module _ {C : Type 0} (Q : C → Type 0) where
  All-set : (items : List C) (i : ℕ) (c : C) → All Q items → Q c → All Q (set items i c)
  All-set [] i c a q = tt
  All-set (x ∷ xs) zero c (a, as') q = (q, as')
  All-set (x ∷ xs) (suc i) c (a, as') q = (a, All-set xs i c as' q)

  item_at-All : (items : List C) (i : ℕ) → All Q items → Each Q (item_at items i)
  unfolding item_at
  item_at-All [] i a = Each-fault Q Fault.out_of_bounds
  item_at-All (x ∷ xs) zero a = Each-ok Q x a.0
  item_at-All (x ∷ xs) (suc i) a = item_at-All xs i a.1

  abbrev pub KeptItem : {B : Type 0} → Option (C × B) → Type 0
  KeptItem none = Unit {0}
  KeptItem (some n) = Q n.0

  abbrev pub KeptEvent : Option (C × ThreadStats × Bool) → Type 0
  KeptEvent none = Unit {0}
  KeptEvent (some n) = Q n.0

module _ {C T E : Type 0} (h : Handlers C T E) (Q : C → Type 0) (count : ℕ) (V : T → Type 0)
    (W : E → Type 0) where
  -- All items, and none more or fewer.
  abbrev pub Hold : List C → Type 0
  Hold items = All Q items × (length items ≡ count)

  abbrev HoldThread : Thread C → Type 0
  HoldThread t = Hold t.items

  -- What a loop's own functions owe to the invariant.
  pub record KeepsItems : Type 0 where
    pub pick : (items : List C) (k : ℕ) → Hold items → Each (λ p. Hold p.1) (h.pick items k)
    pub send :
        (x : T) (c : C) (stats : ThreadStats)
        → V x
        → Q c
        → Each (λ r. KeptItem Q r.1) (h.send x c stats)
    pub handle :
        (e : E) (c : C) (stats : ThreadStats) → W e → Q c → Each (KeptEvent Q) (h.handle e c stats)

  -- The inputs of a round are of the kinds that the invariant allows.
  pub record Fits (r : Round T E) : Type 0 where
    pub turns : All (λ x. V x.input) r.turns
    pub events : All (λ e. W e.input) r.events

  module _ (keeps : KeepsItems) where
    after_if :
        (b : Bool) (t : Thread C)
        → HoldThread t
        → KeptAfter HoldThread (if b then again t else done t)
          × KeptAfter HoldThread (if b then done t else again t)
    after_if true t p = (p, p)
    after_if false t p = (p, p)

    store : (items : List C) (i : ℕ) (c : C) → Hold items → Q c → Hold (set items i c)
    store items i c (a, n) q = (All-set Q items i c a q, length-set items i c ∙ n)

    departed-Hold :
        (i : ℕ) (turn : Turn T) (t : Thread C) (bytes : List ℕ) (o : Option (C × ThreadStats))
        → HoldThread t
        → KeptItem Q o
        → KeptAfter HoldThread (departed h i turn t bytes o)
    unfolding departed
    departed-Hold i turn t bytes none p q = tt
    departed-Hold i turn t bytes (some n) p q = (after_if h.repeats _ (store t.items i n.0 p q)).0

    send_at-Hold :
        (turn : Turn T) (t : Thread C) (o : Option ℕ)
        → V turn.input
        → HoldThread t
        → Each (KeptAfter HoldThread) (send_at h turn t o)
    unfolding send_at
    send_at-Hold turn t none v p = Each-ok (KeptAfter HoldThread) (done t) p
    send_at-Hold turn t (some i) v p = Each-bind Q (item_at-All Q t.items i p.0) (λ c q.
        Each-bind (λ r. KeptItem Q r.1) (keeps.send turn.input c t.stats v q)
          (λ r k. Each-ok (KeptAfter HoldThread) _ (departed-Hold i turn t r.0 r.1 p k)))

    send_one-Hold :
        (turn : Turn T) (t : Thread C)
        → V turn.input
        → HoldThread t
        → Each (KeptAfter HoldThread) (send_one h turn t)
    unfolding send_one
    send_one-Hold turn t v p = elim (Bool-cases (ltb_ℤ turn.clock t.next_tx)) [
      | inl early ↦ rw early (Each-ok (KeptAfter HoldThread) (done t) p)
      | inr due ↦ rw due (
          Each-bind (λ q. Hold q.1) (keeps.pick t.items t.turn p)
            (λ q k. send_at-Hold turn (record t { items = q.1; turn = q.2 }) q.0 v k))
    ]

    handled-Hold :
        (e : Event E) (t : Thread C) (o : Option (C × ThreadStats × Bool))
        → HoldThread t
        → KeptEvent Q o
        → KeptAfter HoldThread (handled h e t o)
    unfolding handled
    handled-Hold e t none p q = tt
    handled-Hold e t (some n) p q =
        (after_if (h.breaks && n.2 && ltb_ℤ t.next_tx e.clock)
          (record t { items = set t.items e.idx n.0; stats = n.1 }) (store t.items e.idx n.0 p q)).1

    handle_one-Hold :
        (e : Event E) (t : Thread C)
        → W e.input
        → HoldThread t
        → Each (KeptAfter HoldThread) (handle_one h e t)
    unfolding handle_one
    handle_one-Hold e t w p = Each-bind Q (item_at-All Q t.items e.idx p.0) (λ c q.
        Each-bind (KeptEvent Q) (keeps.handle e.input c t.stats w q)
          (λ r k. Each-ok (KeptAfter HoldThread) (handled h e t r) (handled-Hold e t r p k)))

    allowed :
        (rounds : List (Round T E))
        → All Fits rounds
        → All (Allowed h (λ x. V x.input) (λ e. W e.input) HoldThread) rounds
    allowed [] a = tt
    allowed (r ∷ rs) (a, as') =
        (record { turns = a.turns; events = a.events; reset = λ idle t p. p }, allowed rs as')

    pub main_loop-Hold :
        (rounds : List (Round T E)) (t t' : Thread C)
        → All Fits rounds
        → main_loop h rounds t ≡ ok (some t')
        → Hold t.items
        → Hold t'.items
    main_loop-Hold rounds t t' a ran p =
        (main_loop-Kept h (λ x. V x.input) (λ e. W e.input) HoldThread send_one-Hold handle_one-Hold
            rounds t (allowed rounds a) p).each
          (some t') ran
