-- ===== src/Tcp/Symmetric/Quiet.antt =====
-- A symmetric agent on a socket whose error queue stays empty (agents/tp_tcp.c:684-702).
use lancet_tool.Base.{ℕ, suc, ◌≡◌, refl, [], Option, some, none, Outcome, ok, fault, Fault, ◌>>=◌}
use lancet_tool.Timestamping.{TimestampInfo, PendingTx, pop_pending_tx_timestamps}
use lancet_tool.Tcp.Symmetric.{SymState, poll_tx, late_time, next_time, match_times}

-- Nothing comes into the error queue of the socket.
abbrev pub quiet : SymState → SymState
quiet s = record s { arrivals = [] }

abbrev pub with_ring : SymState → PendingTx → SymState
with_ring s ring = let a = s.times in record s { times = record a { ring = ring } }

module _ (max_pending : ℕ) (junk : TimestampInfo) where
  -- One round of the loop over the answered requests, by what is in the ring.
  pub match_times-pop :
      (reqs : ℕ) (last : Option TimestampInfo) (s : SymState)
      {p : Outcome (Option TimestampInfo × PendingTx)}
      → pop_pending_tx_timestamps max_pending s.times.ring ≡ p
      → match_times max_pending junk (suc reqs) last (quiet s) ≡ (
          p >>= λ r. elim r.0 [
            | none ↦ fault Fault.out_of_fuel
            | some info ↦ match_times max_pending junk reqs (some info) (quiet (with_ring s r.1))
          ])
  unfolding match_times next_time late_time poll_tx
  match_times-pop reqs last s {p = fault e} at = rw at refl
  match_times-pop reqs last s {p = ok (none, ring)} at = rw at refl
  match_times-pop reqs last s {p = ok (some info, ring)} at = rw at refl
