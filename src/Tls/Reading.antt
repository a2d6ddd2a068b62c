-- ===== src/Tls/Reading.antt =====
-- A read of the TLS agent against one of the TCP agent (agents/tp_ssl.c:337-358, agents/tp_tcp.c:678-713).
use lancet_tool.Base.{
  ℕ, zero, suc, ◌≡◌, refl, sym, ◌∙◌, >>=-Came, List, [], Bool, true, false, Option, some, none,
  Outcome, ok, fault, ◌>>=◌, ◌==◌, if◌then◌else◌,
}
use lancet_tool.AppProto.{ByteReqPair, Iovec}
use lancet_tool.Timespec.{TimeSpec}
use lancet_tool.Timestamping.{TimestampInfo, PendingTx, pop_pending_tx_timestamps}
use lancet_tool.Tcp.{Connection, handle_response, received, sub_u16}
use lancet_tool.Stats.{ThreadStats, add_throughput_rx_sample}
use lancet_tool.Tcp.Symmetric.{record_latency, SymState, match_times, on_symmetric_readable}
use lancet_tool.Tcp.Symmetric.Quiet.{quiet, with_ring, match_times-pop}
use lancet_tool.Tls.{pop_times, on_tls_readable}

module _ (max_pending : ℕ) (junk : TimestampInfo) where
  -- Where the TCP agent finds all times without the kernel, the TLS agent finds the same.
  pop_times_lem :
      (reqs : ℕ) (last : Option TimestampInfo) (s : SymState) (r : Option TimestampInfo × SymState)
      → match_times max_pending junk reqs last (quiet s) ≡ ok r
      → pop_times max_pending reqs last (quiet s) ≡ ok r
  unfolding match_times pop_times
  pop_times_lem zero last s r e = e
  pop_times_lem (suc reqs) last s r e =
      step (pop_pending_tx_timestamps max_pending s.times.ring) refl
        (λ info ring. pop_times_lem reqs (some info) (with_ring s ring) r)
    where
      step :
          (p : Outcome (Option TimestampInfo × PendingTx))
          → pop_pending_tx_timestamps max_pending s.times.ring ≡ p
          → ((info : TimestampInfo) (ring : PendingTx)
              → match_times max_pending junk reqs (some info) (quiet (with_ring s ring)) ≡ ok r
              → pop_times max_pending reqs (some info) (quiet (with_ring s ring)) ≡ ok r)
          → pop_times max_pending (suc reqs) last (quiet s) ≡ ok r
      step (fault x) at ih = let h = sym (match_times-pop max_pending junk reqs last s at) ∙ e in cc
      step (ok (none, ring)) at ih =
          let h = sym (match_times-pop max_pending junk reqs last s at) ∙ e in cc
      step (ok (some info, ring)) at ih =
          rw at (ih info ring (sym (match_times-pop max_pending junk reqs last s at) ∙ e))

  -- A read for which the TCP agent needs nothing from the error queue of its socket: the TLS agent comes
  -- to the same state.
  pub on_tls_readable-symmetric :
      (consume : Iovec → Outcome ByteReqPair) (should_measure : Bool) (period : ℕ)
      (rx_timestamp : TimeSpec) (s s' : SymState) (bytes : List ℕ)
      → on_symmetric_readable consume should_measure period max_pending junk rx_timestamp
          (quiet s)
          bytes
        ≡ ok s'
      → (at_end : Bool) × (on_tls_readable consume should_measure period max_pending rx_timestamp
            (quiet s)
            bytes
          ≡ ok (s', at_end))
  unfolding on_symmetric_readable on_tls_readable
  on_tls_readable-symmetric consume should_measure period rx_timestamp s s' bytes e =
      let parsed = >>=-Came (handle_response consume (received s.conn bytes)) _ e in
      split parsed.value parsed.came (parsed.value.0.reqs == 0) refl parsed.rest
    where
      answered : ByteReqPair × Connection → SymState
      answered h = record s {
        conn = let c = h.1 in record c { pending_reqs = sub_u16 c.pending_reqs h.0.reqs };
        arrivals = [];
      }

      counted : ByteReqPair × Connection → Option TimestampInfo × SymState → ThreadStats → SymState
      counted h m stats =
          let after : SymState = m.1 in
          let a = after.times in
          record after {
            times = record a { stats = add_throughput_rx_sample should_measure h.0 stats };
          }

      outcome : ByteReqPair × Connection → Bool → Outcome SymState
      outcome h b =
          if b
          then ok (record s { conn = h.1; arrivals = [] })
          else (match_times max_pending junk h.0.reqs none (answered h) >>= λ m.
              record_latency should_measure period rx_timestamp m.0 m.1.times.stats >>= λ stats.
              ok (counted h m stats))

      split :
          (h : ByteReqPair × Connection)
          → handle_response consume (received s.conn bytes) ≡ ok h
          → (b : Bool) → (h.0.reqs == 0) ≡ b
          → outcome h (h.0.reqs == 0) ≡ ok s'
          → (at_end : Bool) × (on_tls_readable consume should_measure period max_pending
                rx_timestamp
                (quiet s)
                bytes
              ≡ ok (s', at_end))
      split h ran true nothing e' = let e'' = rw nothing at e' in (false, rw (ran, nothing) (cc))
      split h ran false some_reqs e' =
          let e'' = rw some_reqs at e' in
          let matched = >>=-Came (match_times max_pending junk h.0.reqs none (answered h)) _ e'' in
          let m = matched.value in
          let sampled =
            >>=-Came (record_latency should_measure period rx_timestamp m.0 m.1.times.stats) _
              matched.rest in
          let last = sampled.rest in
          (
            true,
            rw
                (
                  ran,
                  some_reqs,
                  pop_times_lem h.0.reqs none (answered h) m matched.came,
                  sampled.came,
                )
                (cc),
          )
