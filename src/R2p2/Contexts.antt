-- ===== src/R2p2/Contexts.antt =====
-- The contexts of the requests under way over R2P2, and their release (agents/tp_r2p2.c:107-133).
use lancet_tool.Base.{
  some_inj, none≢some, ℕ, zero, suc, ◌+◌, ◌≡◌, ◌≢◌, refl, ap, ◌∙◌, List, [], ◌∷◌, true, Option,
  some, none, get_elem?, set, length, ok, arith,
}
use lancet_tool.Base.Each.{All}
use lancet_tool.Stats.{ThreadStats, add_throughput_rx_sample}
use lancet_tool.EventLoop.{Thread, Event, item_at, steps, handled, handle_one, handle_all}
use lancet_tool.R2p2.{
  R2p2Ctx, R2p2Heap, R2p2Event, Callback, success, failure, timeout, context_of, context_at,
  release, sum_bytes, lancet_success_cb, on_throughput_callback, throughput_r2p2_main,
}

-- The contexts that have not been freed.
abbrev pub live : List (Option R2p2Ctx) → ℕ
live [] = 0
live (none ∷ cs) = live cs
live (some c ∷ cs) = suc (live cs)

-- The context is not freed.
abbrev pub IsLive : List (Option R2p2Ctx) → ℕ → Type 0
IsLive cs i = (c : R2p2Ctx) × (get_elem? cs i ≡ some (some c))

-- Callbacks, each for a live context of its own.
abbrev pub OneEach : List (Option R2p2Ctx) → List (Event R2p2Event) → Type 0
OneEach cs [] = Unit {0}
OneEach cs (e ∷ es) =
    (e.idx ≡ 0)
    × IsLive cs e.input.ctx
    × All (λ later. later.input.ctx ≢ e.input.ctx) es
    × OneEach cs es

get_elem?-set_ne :
    {A : Type 0} (xs : List A) (i j : ℕ) (a : A) → j ≢ i → get_elem? (set xs i a) j ≡ get_elem? xs j
get_elem?-set_ne [] i j a h = refl
get_elem?-set_ne (x ∷ xs) zero zero a h = absurd (h refl)
get_elem?-set_ne (x ∷ xs) zero (suc j) a h = refl
get_elem?-set_ne (x ∷ xs) (suc i) zero a h = refl
get_elem?-set_ne (x ∷ xs) (suc i) (suc j) a h = get_elem?-set_ne xs i j a (λ e. h (ap suc e))

live-set : (cs : List (Option R2p2Ctx)) (i : ℕ) → IsLive cs i → live (set cs i none) + 1 ≡ live cs
live-set [] i (c, e) = absurd (none≢some e)
live-set (none ∷ cs) zero (c, e) = absurd (none≢some (some_inj e))
live-set (some c' ∷ cs) zero (c, e) = omega arith
live-set (none ∷ cs) (suc i) h = live-set cs i h
live-set (some c' ∷ cs) (suc i) h = omega (arith, live-set cs i h)

OneEach-set :
    (cs : List (Option R2p2Ctx)) (i : ℕ) (es : List (Event R2p2Event))
    → All (λ later. later.input.ctx ≢ i) es
    → OneEach cs es
    → OneEach (set cs i none) es
OneEach-set cs i [] a o = tt
OneEach-set cs i (e ∷ es) (a, as') (at, (c, l), others, o) =
    (at, (c, get_elem?-set_ne cs i e.input.ctx none a ∙ l), others, OneEach-set cs i es as' o)

pub context_at-live :
    (heap : R2p2Heap) (i : ℕ) (c : R2p2Ctx)
    → get_elem? heap.contexts i ≡ some (some c)
    → context_at heap i ≡ ok c
unfolding context_at context_of
context_at-live heap i c e = ap context_of e

-- A callback for a live context does not fail, and frees the context.
callback_lem :
    (junk : ℕ) (e : R2p2Event) (callback : Callback) (heap : R2p2Heap) (stats : ThreadStats)
    → IsLive heap.contexts e.ctx
    → (stats' : ThreadStats) × (on_throughput_callback junk e callback heap stats
        ≡ ok (some (release e.ctx heap, stats', true)))
unfolding on_throughput_callback lancet_success_cb
callback_lem junk e (success iov) heap stats (c, at) = (
  add_throughput_rx_sample e.should_measure (record { bytes = sum_bytes junk iov; reqs = 1 }) stats,
  rw (context_at-live heap e.ctx c at) refl,
)
callback_lem junk e failure heap stats (c, at) = (stats, rw (context_at-live heap e.ctx c at) refl)
callback_lem junk e timeout heap stats (c, at) = (stats, rw (context_at-live heap e.ctx c at) refl)

-- Callbacks of the throughput agent, one each for contexts that are live: none fails, whatever mix of
-- responses, errors and timeouts they are, as many contexts fewer are live as there were callbacks, and
-- a context `i` that none of them was made for stays as it is.
pub handle_all-live :
    (fixed_route target_count junk : ℕ) (events : List (Event R2p2Event)) (t : Thread R2p2Heap)
    (heap : R2p2Heap) (i : ℕ)
    → t.items ≡ heap ∷ []
    → OneEach heap.contexts events
    → All (λ e. i ≢ e.input.ctx) events
    → (t' : Thread R2p2Heap) × (heap' : R2p2Heap) × (handle_all
          (throughput_r2p2_main fixed_route target_count junk)
          events
          t
        ≡ ok (some t'))
      × (t'.items ≡ heap' ∷ [])
      × (live heap'.contexts + length events ≡ live heap.contexts)
      × (get_elem? heap'.contexts i ≡ get_elem? heap.contexts i)
unfolding handle_all handle_one handled item_at throughput_r2p2_main steps
handle_all-live fixed_route target_count junk [] t heap i one o a =
    (t, heap, refl, one, omega arith, refl)
handle_all-live fixed_route target_count junk (e ∷ es) t heap i one (at, l, others, o) (a, as') =
    let (stats', ran) = callback_lem junk e.input e.input.callback heap t.stats l in
    let next = release e.input.ctx heap in
    let (t', heap', ran', one', fewer, same) =
      handle_all-live fixed_route target_count junk es
        (record t { items = next ∷ []; stats = stats' }) next i refl
        (OneEach-set heap.contexts e.input.ctx es others o) as' in
    (
      t',
      heap',
      rw (one, at, ran) ran',
      one',
      omega (arith, fewer, live-set heap.contexts e.input.ctx l),
      same ∙ get_elem?-set_ne heap.contexts e.input.ctx i none a,
    )
