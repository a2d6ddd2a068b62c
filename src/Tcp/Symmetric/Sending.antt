-- ===== src/Tcp/Symmetric/Sending.antt =====
-- What the symmetric agent sends (agents/tp_tcp.c:628-648) stays matched with its transmit times.
use lancet_tool.Base.{
  ℕ, zero, suc, ◌+◌, ◌-◌, ◌^◌, ◌<◌, ◌≡◌, refl, sym, ap, ◌∙◌, List, [], ◌∷◌, ◌++◌, Bool, take, arith,
  length, length-append, ok,
}
use lancet_tool.AppProto.{ByteReqPair, Request, payload}
use lancet_tool.Timespec.{TimeSpec}
use lancet_tool.Stats.{add_throughput_tx_sample, add_tx_timestamp}
use lancet_tool.Timestamping.{TimestampInfo, push_complete_tx_timestamp}
use lancet_tool.Timestamping.Ring.{slice}
use lancet_tool.Timestamping.Queue as Queue
use lancet_tool.Tcp.{add_u16}
use lancet_tool.Tcp.Send.{SendResult, total_len}
use lancet_tool.Tcp.Send.Complete.{AllBacked, Drains, send_request_lem}
use lancet_tool.Tcp.Symmetric.{SymState, on_symmetric_send}
use lancet_tool.Tcp.Symmetric.Matching.{IsMatched}

length-completed :
    (m : ℕ) (ring : List TimestampInfo) (i n : ℕ) → length (slice (λ e. e.time) m ring i n) ≡ n
length-completed m ring i zero = refl
length-completed m ring i (suc n) = ap suc (length-completed m ring (suc i) n)

-- A request on a connection that `pick_conn` allows (fewer than `max_pending` requests are under way), when
-- each of them has its time in the ring, `max_pending` fits 16 bits, the head of the ring does not wrap,
-- and the calls of sendmsg take all the bytes of the request in the end: the bytes on the wire are its payload, one more
-- request is under way, its transmit time stands behind those of the others, and its bytes are counted.
pub on_symmetric_send_lem :
    (should_measure : Bool) (max_pending : ℕ) (sampled : Bool) (tx : TimeSpec)
    (results : List SendResult) (req : Request) (s : SymState)
    → IsMatched max_pending s
    → s.conn.pending_reqs < max_pending
    → max_pending < 2 ^ 16
    → s.times.ring.head + 1 < 2 ^ 32
    → AllBacked (take req.iov_cnt req.iovs)
    → Drains results (total_len (take req.iov_cnt req.iovs))
    → (s' : SymState) × (on_symmetric_send should_measure max_pending sampled tx results req s
        ≡ ok (payload req, s'))
      × IsMatched max_pending s'
      × (s'.conn.pending_reqs ≡ s.conn.pending_reqs + 1)
      × (Queue.completed max_pending s'.times.ring
          ≡ Queue.completed max_pending s.times.ring ++ tx ∷ [])
      × (s'.times.stats
          ≡ add_throughput_tx_sample should_measure
              (record { bytes = total_len (take req.iov_cnt req.iovs); reqs = 1 })
              (add_tx_timestamp sampled tx s.times.stats))
unfolding on_symmetric_send
on_symmetric_send_lem should_measure max_pending sampled tx results req s v room small wrap backed
      drains =
    let c = s.conn in
    let a = s.times in
    let t = a.ring in
    let under_way : c.pending_reqs ≡ t.tail - t.consumed =
      v.pending ∙ length-completed max_pending t.pending t.consumed (t.tail - t.consumed) in
    let (ring, appended, _, known, stats) =
      Queue.push_complete_tx_timestamp_lem max_pending t sampled tx a.stats v.ring v.known
        (omega (arith, v.ring.matched, v.known)) wrap in
    let r = push_complete_tx_timestamp max_pending sampled t tx a.stats in
    let next : add_u16 c.pending_reqs 1 ≡ c.pending_reqs + 1 = omega arith in
    let counted : ByteReqPair = record {
      bytes = total_len (take req.iov_cnt req.iovs);
      reqs = 1;
    } in
    let s' : SymState = record s {
      conn = record c { pending_reqs = add_u16 c.pending_reqs 1 };
      times = record a { ring = r.0; stats = add_throughput_tx_sample should_measure counted r.1 };
    } in
    (
      s',
      rw (send_request_lem results (take req.iov_cnt req.iovs) backed drains) refl,
      record {
        buffer = record { size = v.buffer.size; index = v.buffer.index };
        ring = ring;
        known = known;
        pending =
            next
            ∙ sym (
                ap length appended
                ∙ length-append (Queue.completed max_pending t) (tx ∷ [])
                ∙ ap (λ n. n + 1) (sym v.pending));
        width = omega arith;
      },
      next,
      appended,
      ap (add_throughput_tx_sample should_measure counted) stats,
    )
