-- ===== src/Tcp/Symmetric/Reading.antt =====
-- The symmetric agent (agents/tp_tcp.c:663-713) measures each read against the transmit time of the last
-- request that the read answers.
use lancet_tool.Base.{
  ℕ, ◌+◌, ◌≤◌, ◌<◌, ◌≡◌, refl, ap, ◌∙◌, List, [], ◌∷◌, ◌++◌, Bool, false, Option, some, none, arith,
  length, length-append, drop, ◌-ℤ◌, Outcome, ok, ◌==◌,
}
use lancet_tool.AppProto.{ByteReqPair, Iovec}
use lancet_tool.AppProto.Framing.{decode}
use lancet_tool.Timespec.{TimeSpec, IsNormal, is_zero, to_ns}
use lancet_tool.Stats.{ThreadStats, add_latency_sample, add_throughput_rx_sample}
use lancet_tool.Timestamping.{TimestampInfo}
use lancet_tool.Timestamping.Queue as Queue
use lancet_tool.Tcp.{Connection, max_payload, received, handle_response, sub_u16}
use lancet_tool.Tcp.Buffer.{Parses, waiting, length-waiting, received_lem, handle_response_lem}
use lancet_tool.Tcp.Symmetric.{SymState, match_times, record_latency, on_symmetric_readable}
use lancet_tool.Tcp.Symmetric.Matching.{
  time_of, match_times_lem, newest-snoc, record_latency_lem, IsMatched, matched_lem,
}

module _ (consume : Iovec → Outcome ByteReqPair) (frame : List ℕ → Option ℕ)
    (p : Parses consume frame) where
  -- The branches that a read with responses takes.
  run_lem :
      (should_measure : Bool) (period max_pending : ℕ) (junk : TimestampInfo) (rx : TimeSpec)
      (s s' : SymState) (bytes : List ℕ) (h : ByteReqPair × Connection)
      (info : Option TimestampInfo) (stats : ThreadStats)
      → handle_response consume (received s.conn bytes) ≡ ok h
      → (h.0.reqs == 0) ≡ false
      → match_times max_pending junk h.0.reqs none
          (record s { conn = record h.1 { pending_reqs = sub_u16 h.1.pending_reqs h.0.reqs } })
        ≡ ok (info, s')
      → record_latency should_measure period rx info s'.times.stats ≡ ok stats
      → on_symmetric_readable consume should_measure period max_pending junk rx s bytes
        ≡ ok (record s' {
          times = record s'.times { stats = add_throughput_rx_sample should_measure h.0 stats };
        })
  unfolding on_symmetric_readable
  run_lem should_measure period max_pending junk rx s s' bytes h info stats e e' e'' e3 =
      rw (e, e', e'', e3) refl

  -- A read that completes the responses to some of the requests under way, of which the last was sent
  -- at the time `sent`, for a parser that keeps its contract `Parses`, where each request under way has
  -- its time in the ring, the bytes fit and do not fill the buffer without a whole message, the two times
  -- are proper and set, and the statistics accept the latency: the loop asks the kernel for no time, the transmit times of the answered
  -- requests leave the ring, oldest first, and one latency is offered to the statistics, which is exactly
  -- the receive time less `sent`. Each request that is still under way keeps its own transmit time.
  pub on_symmetric_readable_lem :
      (should_measure : Bool) (period max_pending : ℕ) (junk : TimestampInfo) (rx sent : TimeSpec)
      (s : SymState) (bytes : List ℕ) (taken rest : List TimeSpec) (stats : ThreadStats)
      → IsMatched max_pending s
      → length (waiting s.conn ++ bytes) ≤ max_payload
      → (decode frame (waiting s.conn ++ bytes)).reqs ≡ length (taken ++ sent ∷ [])
      → ((decode frame (waiting s.conn ++ bytes)).bytes ≡ 0
          → length (waiting s.conn ++ bytes) < max_payload)
      → Queue.completed max_pending s.times.ring ≡ (taken ++ sent ∷ []) ++ rest
      → IsNormal rx
      → IsNormal sent
      → is_zero rx.tv_sec ≡ false
      → is_zero sent.tv_sec ≡ false
      → add_latency_sample should_measure period (to_ns rx -ℤ to_ns sent) (some sent) s.times.stats
        ≡ ok stats
      → (s' : SymState) × (on_symmetric_readable consume should_measure period max_pending junk rx s
            bytes
          ≡ ok s')
        × IsMatched max_pending s'
        × (Queue.completed max_pending s'.times.ring ≡ rest)
        × (waiting s'.conn
            ≡ drop (decode frame (waiting s.conn ++ bytes)).bytes (waiting s.conn ++ bytes))
        × (s'.times.stats
            ≡ add_throughput_rx_sample should_measure
                (decode frame (waiting s.conn ++ bytes))
                stats)
  unfolding received
  on_symmetric_readable_lem should_measure period max_pending junk rx sent s bytes taken rest stats
        v fits reqs room times n n' z z' sampled =
      let all = taken ++ sent ∷ [] in
      let brp = decode frame (waiting s.conn ++ bytes) in
      let w : length (waiting s.conn ++ bytes) ≡ s.conn.buffer_idx + length bytes =
        omega (arith, length-append (waiting s.conn) bytes, length-waiting s.conn v.buffer) in
      let (valid, appended) = received_lem s.conn bytes v.buffer (omega arith) in
      let (r, ran, done) =
        handle_response_lem consume frame p (received s.conn bytes) valid (rw appended room) in
      let counted : r.0 ≡ brp = done.counted ∙ ap (decode frame) appended in
      let c = r.1 in
      let left : SymState = record s {
        conn = record c { pending_reqs = sub_u16 c.pending_reqs r.0.reqs };
      } in
      let (info, s', matched, time, v', others, same_stats, conn, heads, tails) =
        match_times_lem max_pending junk all rest none left v.ring times in
      let many : r.0.reqs ≡ length all = ap (λ b. b.reqs) counted ∙ reqs in
      let some_reqs : (r.0.reqs == 0) ≡ false = reqs_positive r.0.reqs taken many in
      let last : time_of info ≡ some sent = time ∙ newest-snoc none taken sent in
      let offered : record_latency should_measure period rx info s'.times.stats ≡ ok stats =
        ap (record_latency should_measure period rx info) same_stats
        ∙ record_latency_lem should_measure period rx sent info s.times.stats last n z n' z'
        ∙ sampled in
      let final : SymState = record s' {
        times = record s'.times { stats = add_throughput_rx_sample should_measure r.0 stats };
      } in
      (
        final,
        run_lem should_measure period max_pending junk rx s s' bytes r info stats ran some_reqs
            (ap (λ k. match_times max_pending junk k none left) many ∙ matched) offered,
        matched_lem max_pending r.0.reqs s final c all rest v many times done.valid done.pending v'
            others heads tails conn,
        others,
        ap waiting conn
            ∙ done.kept
            ∙ ap (λ b. drop b.bytes (waiting (received s.conn bytes))) counted
            ∙ ap (drop brp.bytes) appended,
        ap (λ b. add_throughput_rx_sample should_measure b stats) counted,
      )
    where
      reqs_positive : (k : ℕ) (ts : List TimeSpec) → k ≡ length (ts ++ sent ∷ []) → (k == 0) ≡ false
      reqs_positive k ts e = ground (arith, length-append ts (sent ∷ []))
