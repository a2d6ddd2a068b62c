-- ===== src/Tcp/Pick.antt =====
-- `pick_conn` (agents/tp_tcp.c:50-63) takes the connections in turn.
use lancet_tool.Base.{
  ℕ, zero, suc, ◌+◌, [], ◌∷◌, ◌%◌, ◌^◌, ◌≤◌, ◌<◌, ◌≡◌, refl, sym, ap, ◌∙◌, List, Bool, true, false,
  not, ◌&&◌, ◌==◌, ltb, if◌then◌else◌, Option, some, none, Bool-cases, inl, inr, get_elem?, length,
  arith, Outcome, ok, ◌>>=◌,
}
use native.Mathlib.Nat.{mod-lt}
use lancet_tool.Base.Rounds.{turn_lem}
use lancet_tool.Tcp.{Connection, pick_conn}

-- Open, and with room for one more request.
abbrev pub available : ℕ → Connection → Bool
available max_pending c = ltb c.pending_reqs max_pending && not c.closed

get_elem?-of_lt :
    (cs : List Connection) (i : ℕ) → i < length cs → (c : Connection) × (get_elem? cs i ≡ some c)
get_elem?-of_lt [] i h = absurd (omega arith)
get_elem?-of_lt (c ∷ cs) zero h = (c, refl)
get_elem?-of_lt (c ∷ cs) (suc i) h = get_elem?-of_lt cs i (omega arith)

-- `pick_conn` never fails on `n` connections, and moves on to the next one whether it gives one or not.
-- What it gives is the connection whose turn it is, if it is available, and NULL otherwise.
pub pick_conn_lem :
    (max_pending idx : ℕ) (cs : List Connection)
    → 0 < length cs
    → (c : Connection) × (get_elem? cs (idx % length cs) ≡ some c)
      × (pick_conn (length cs) max_pending cs idx
          ≡ ok (if available max_pending c then some c else none, (idx + 1) % 2 ^ 32))
unfolding pick_conn
pick_conn_lem max_pending idx cs h =
    let (c, at) = get_elem?-of_lt cs (idx % length cs) (mod-lt idx h) in
    let some_there : (length cs == 0) ≡ false = ground arith in
    (c, at, rw (some_there, at) (ground arith))

-- Calls of `pick_conn` until one gives a connection, `fuel` of them at most.
pub pick_until : ℕ → ℕ → List Connection → ℕ → Outcome (Option Connection)
pick_until zero max_pending cs idx = ok none
pick_until (suc fuel) max_pending cs idx = pick_conn (length cs) max_pending cs idx >>= λ r.
    elim r.0 [ some c ↦ ok (some c) | none ↦ pick_until fuel max_pending cs r.1 ]

pick_until-none :
    (fuel max_pending idx : ℕ) (cs : List Connection) {next : ℕ}
    → pick_conn (length cs) max_pending cs idx ≡ ok (none, next)
    → pick_until (suc fuel) max_pending cs idx ≡ pick_until fuel max_pending cs next
unfolding pick_until
pick_until-none fuel max_pending idx cs e = rw e refl

false≢true : false ≡ true → ⊥
false≢true e = cc

until_lem :
    (k fuel max_pending idx : ℕ) (cs : List Connection) (target : Connection)
    → get_elem? cs ((idx + k) % length cs) ≡ some target
    → available max_pending target ≡ true
    → k < fuel
    → 0 < length cs
    → idx + k < 2 ^ 32
    → (c : Connection) × (pick_until fuel max_pending cs idx ≡ ok (some c))
      × (available max_pending c ≡ true)
unfolding pick_until
until_lem k zero max_pending idx cs target at free lt some_conn small = absurd (omega arith)
until_lem k (suc fuel) max_pending idx cs target at free lt some_conn small =
    let (c, here, picked) = pick_conn_lem max_pending idx cs some_conn in
    elim (Bool-cases (available max_pending c)) [
      | inl ready ↦ (c, rw (picked, ready) refl, ready)
      | inr busy ↦
          let (k', next) = later k c at here busy in
          let small' : idx + suc k' < 2 ^ 32 = omega (arith, next) in
          let wrap : (idx + 1) % 2 ^ 32 ≡ idx + 1 = omega arith in
          let shift : idx + k ≡ idx + 1 + k' = omega (arith, next) in
          let (c', ran, good) =
            until_lem k' fuel max_pending (idx + 1) cs target
              (ap (λ i. get_elem? cs (i % length cs)) (sym shift) ∙ at) free (omega (arith, next))
              some_conn (omega arith) in
          (
            c',
            pick_until-none fuel max_pending idx cs (picked ∙ rw busy refl)
                ∙ ap (pick_until fuel max_pending cs) wrap
                ∙ ran,
            good,
          )
    ]
  where
    room : Option Connection → Bool
    room none = false
    room (some c) = available max_pending c

    later :
        (k : ℕ) (c : Connection)
        → get_elem? cs ((idx + k) % length cs) ≡ some target
        → get_elem? cs (idx % length cs) ≡ some c
        → available max_pending c ≡ false
        → (k' : ℕ) × (k ≡ suc k')
    later zero c at here busy =
        let same : idx ≡ idx + 0 = omega arith in
        let e : false ≡ true =
          sym busy ∙ ap room (sym here ∙ ap (λ i. get_elem? cs (i % length cs)) same ∙ at) ∙ free in
        absurd (false≢true e)
    later (suc k') c at here busy = (k', refl)

-- If any connection is available, then one is found within as many calls of `pick_conn` as there are
-- connections, as long as the 32-bit counter does not wrap on the way.
pub pick_until_lem :
    (max_pending idx j : ℕ) (cs : List Connection) (target : Connection)
    → get_elem? cs j ≡ some target
    → j < length cs
    → available max_pending target ≡ true
    → idx + length cs ≤ 2 ^ 32
    → (c : Connection) × (pick_until (length cs) max_pending cs idx ≡ ok (some c))
      × (available max_pending c ≡ true)
pick_until_lem max_pending idx j cs target at inside free small =
    let (k, lt, turn) = turn_lem (length cs) idx j inside in
    until_lem k (length cs) max_pending idx cs target (ap (get_elem? cs) turn ∙ at) free lt
      (omega arith) (omega arith)
