-- ===== src/EventLoop.antt =====
-- The shape that the event loops of agents/tp_tcp.c, agents/tp_udp.c and agents/tp_ssl.c share: requests go
-- out while the clock has reached `next_tx`, then the events that `epoll_wait` returned are handled. A
-- loop names its connections (or sockets), how it picks one, and what it does with a request and with
-- an event (`Handlers`). The clock, the draws and what the kernel returns are arguments.
pub mod Keeps
pub mod Schedule
pub mod Growth
pub mod Items
use lancet_tool.Base.{
  ℕ, List, [], ◌∷◌, Bool, true, false, not, ◌&&◌, if◌then◌else◌, Option, some, none, get_elem?, set,
  ℤ, ltb_ℤ, ◌+ℤ◌, Outcome, ok, fault, Fault, ◌>>=◌,
}
use lancet_tool.Stats.{ThreadStats}

-- How a round of a C loop ends: the next one follows, the loop is left, or the agent's function returns.
pub data After (S : Type 0) : Type 0 where
  again : S → After S
  done : S → After S
  returned : After S

-- A loop of which each round reads the next of these inputs; `none` when the agent's function returned.
unfoldable pub steps :
    {X S : Type 0}
    → (X → S → Outcome (After S))
    → (at_end : S → Outcome (Option S)) → List X
    → S
    → Outcome (Option S)
steps body at_end [] s = at_end s
steps body at_end (x ∷ xs) s = body x s >>= λ a. elim a [
  | again s' ↦ steps body at_end xs s'
  | done s' ↦ ok (some s')
  | returned ↦ ok none
]

-- What went out: the bytes, on which item, when, at which time it was due, and the interarrival time
-- that was drawn behind it. The code keeps no such record.
pub record Departure : Type 0 where
  pub item : ℕ
  pub bytes : List ℕ
  pub clock : ℤ
  pub due : ℤ
  pub ia : ℤ

-- The thread-local variables of a loop over items `C`, and what went out, newest first.
pub record Thread (C : Type 0) : Type 0 where
  pub items : List C
  pub turn : ℕ
  pub next_tx : ℤ
  pub stats : ThreadStats
  pub departures : List Departure

-- A test of `time_ns() >= next_tx` at the time `clock`, with what the request behind it needs and `get_ia()`.
pub record Turn (T : Type 0) : Type 0 where
  pub clock : ℤ
  pub ia : ℤ
  pub input : T

-- An event for the item `idx`, and the time behind its round.
pub record Event (E : Type 0) : Type 0 where
  pub idx : ℕ
  pub input : E
  pub clock : ℤ

-- A round of `while (1)`: `should_load()`, the time that `next_tx` is set to without load, the tests of
-- the clock and the events.
pub record Round (T E : Type 0) : Type 0 where
  pub should_load : Bool
  pub clock : ℤ
  pub turns : List (Turn T)
  pub events : List (Event E)

-- What is a loop's own. `send` gives the bytes on the wire; `handle` tells whether the event's round came
-- to its end, and not to a `continue`. `none` is a return from the agent's function.
pub record Handlers (C T E : Type 0) : Type 0 where
  pub pick : List C → ℕ → Outcome (Option ℕ × List C × ℕ)
  pub send : T → C → ThreadStats → Outcome (List ℕ × Option (C × ThreadStats))
  pub handle : E → C → ThreadStats → Outcome (Option (C × ThreadStats × Bool))
  -- `while (time_ns() >= next_tx)`, or `if`
  pub repeats : Bool
  -- `if ((time_ns() - next_tx) > 0) break;` at the end of an event's round
  pub breaks : Bool

-- A read of the array of items.
unfoldable pub item_at : {C : Type 0} → List C → ℕ → Outcome C
item_at items i = elim (get_elem? items i) [ none ↦ fault Fault.out_of_bounds | some c ↦ ok c ]

module _ {C T E : Type 0} (h : Handlers C T E) where
  -- What follows a request that went out on the item `i`.
  unfoldable pub departed :
      ℕ → Turn T → Thread C → List ℕ → Option (C × ThreadStats) → After (Thread C)
  departed i turn t bytes none = returned
  departed i turn t bytes (some n) =
      let left : Departure = record {
        item = i;
        bytes = bytes;
        clock = turn.clock;
        due = t.next_tx;
        ia = turn.ia;
      } in
      let next : Thread C = record t {
        items = set t.items i n.0;
        next_tx = t.next_tx +ℤ turn.ia;
        stats = n.1;
        departures = left ∷ t.departures;
      } in
      if h.repeats then again next else done next

  -- The request, where an item was picked: NULL goes to the events.
  unfoldable pub send_at : Turn T → Thread C → Option ℕ → Outcome (After (Thread C))
  unfolding departed item_at
  send_at turn t none = ok (done t)
  send_at turn t (some i) =
      item_at t.items i >>= λ c. h.send turn.input c t.stats >>= λ r. ok (departed i turn t r.0 r.1)

  -- A test of the clock, and the request behind it.
  unfoldable pub send_one : Turn T → Thread C → Outcome (After (Thread C))
  unfolding send_at
  send_one turn t =
      if ltb_ℤ turn.clock t.next_tx
      then ok (done t)
      else (h.pick t.items t.turn >>= λ p. send_at turn (record t { items = p.1; turn = p.2 }) p.0)

  -- What follows an event.
  unfoldable pub handled : Event E → Thread C → Option (C × ThreadStats × Bool) → After (Thread C)
  handled e t none = returned
  handled e t (some n) =
      let next : Thread C = record t { items = set t.items e.idx n.0; stats = n.1 } in
      if h.breaks && n.2 && ltb_ℤ t.next_tx e.clock then done next else again next

  -- One event.
  unfoldable pub handle_one : Event E → Thread C → Outcome (After (Thread C))
  unfolding handled item_at
  handle_one e t =
      item_at t.items e.idx >>= λ c. h.handle e.input c t.stats >>= λ r. ok (handled e t r)

  -- The requests that are due. A list of turns that ends before a test fails is no run of the code.
  pub send_due : List (Turn T) → Thread C → Outcome (Option (Thread C))
  unfolding send_one steps
  send_due turns t = steps send_one (λ u. fault Fault.out_of_fuel) turns t

  -- `for (i = 0; i < ready; i++)`
  unfoldable pub handle_all : List (Event E) → Thread C → Outcome (Option (Thread C))
  unfolding handle_one steps
  handle_all events t = steps handle_one (λ u. ok (some u)) events t

  -- The requests of a round, and then its events.
  pub loaded_round : Round T E → Thread C → Outcome (Option (Thread C))
  unfolding send_due handle_all
  loaded_round r t =
      send_due r.turns t >>= λ o. elim o [ none ↦ ok none | some t' ↦ handle_all r.events t' ]

  abbrev go_on : Option (Thread C) → After (Thread C)
  go_on none = returned
  go_on (some t) = again t

  -- A round of `while (1)`.
  pub main_round : Round T E → Thread C → Outcome (After (Thread C))
  unfolding loaded_round
  main_round r t =
      if not r.should_load
      then ok (again (record t { next_tx = r.clock }))
      else (loaded_round r t >>= λ o. ok (go_on o))

  -- `while (1)` for so many rounds: the state behind them, or `none` when the agent's function returned.
  unfoldable pub main_loop : List (Round T E) → Thread C → Outcome (Option (Thread C))
  unfolding main_round steps
  main_loop rounds t = steps main_round (λ u. ok (some u)) rounds t
