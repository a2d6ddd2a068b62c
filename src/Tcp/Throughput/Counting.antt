-- ===== src/Tcp/Throughput/Counting.antt =====
-- What the throughput agent counts (agents/tp_tcp.c:294-334).
use lancet_tool.Base.{
  ℕ, ◌+◌, ◌^◌, ◌≤◌, ◌<◌, ◌≡◌, refl, sym, ap, ◌∙◌, List, [], ◌∷◌, ◌++◌, true, Bool, Bool-cases, inl,
  inr, ltb, if◌then◌else◌, Outcome, ok, arith, length, drop, append-nil, append_assoc, Option, take,
  some,
}
use lancet_tool.AppProto.{ByteReqPair, zero_pair, plus, Iovec, Request, payload}
use lancet_tool.AppProto.Framing.{decode, scan_bounds, plus-zero_right, plus_assoc}
use lancet_tool.Timespec.{TimeSpec}
use lancet_tool.Stats.{
  ThreadStats, add_throughput_rx_sample, add_throughput_tx_sample, add_tx_timestamp,
}
use lancet_tool.Stats.Counters.{NoWrap, received_counts}
use lancet_tool.Tcp.{max_payload, add_u16}
use lancet_tool.Tcp.Buffer.{Parses, IsValid, waiting}
use lancet_tool.Tcp.Stream.{join, Fits, decode-rest, decode-cut, on_readable_lem}
use lancet_tool.Tcp.Send.{SendResult, total_len}
use lancet_tool.Tcp.Send.Complete.{AllBacked, Drains, last_sent, write_loop_lem}
use lancet_tool.Tcp.Throughput.{AgentState, on_throughput_send, on_throughput_readable, read_all}

-- What is counted of a read, where a read without responses counts nothing.
counted_lem :
    (brp : ByteReqPair) (s : ThreadStats)
    → (0 < brp.bytes → 0 < brp.reqs)
    → NoWrap s.th_s.rx brp
    → let s' = if ltb 0 brp.reqs then add_throughput_rx_sample true brp s else s in
      (s'.th_s.rx ≡ plus s.th_s.rx brp) × (s'.th_s.tx ≡ s.th_s.tx)
counted_lem brp s h k = elim (Bool-cases (ltb 0 brp.reqs)) [
  | inl some_reqs ↦ rw some_reqs (received_counts brp s k)
  | inr no_reqs ↦ rw no_reqs (nothing (ground arith), refl)
]
  where
    nothing : brp ≡ zero_pair → s.th_s.rx ≡ plus s.th_s.rx brp
    nothing e = sym (ap (plus s.th_s.rx) e ∙ plus-zero_right s.th_s.rx)

module _ (consume : Iovec → Outcome ByteReqPair) (frame : List ℕ → Option ℕ)
    (p : Parses consume frame) where
  -- One read: what it counts is added to the received bytes and responses.
  readable_lem :
      (s : AgentState) (bytes : List ℕ)
      → IsValid s.conn
      → length (waiting s.conn ++ bytes) ≤ max_payload
      → ((decode frame (waiting s.conn ++ bytes)).bytes ≡ 0
          → length (waiting s.conn ++ bytes) < max_payload)
      → NoWrap s.stats.th_s.rx (decode frame (waiting s.conn ++ bytes))
      → (s' : AgentState) × (on_throughput_readable consume true s bytes ≡ ok s')
        × (waiting s'.conn
            ≡ drop (decode frame (waiting s.conn ++ bytes)).bytes (waiting s.conn ++ bytes))
        × IsValid s'.conn
        × (s'.stats.th_s.rx ≡ plus s.stats.th_s.rx (decode frame (waiting s.conn ++ bytes)))
        × (s'.stats.th_s.tx ≡ s.stats.th_s.tx)
  unfolding on_throughput_readable
  readable_lem s bytes v fits room small =
      let xs = waiting s.conn ++ bytes in
      let brp = decode frame xs in
      let (c, ran, kept, valid, _) = on_readable_lem consume frame p s.conn bytes v fits room in
      let bounds = scan_bounds frame p.framing (length xs) xs in
      let (rx, tx) = counted_lem brp s.stats bounds.2 small in
      let s' : AgentState = record {
        conn = c;
        stats = if ltb 0 brp.reqs then add_throughput_rx_sample true brp s.stats else s.stats;
      } in
      (s', rw ran refl, kept, valid, rx, tx)

  -- For a parser that keeps its contract `Parses`, a valid connection where no whole message waits, 64-bit
  -- counters that the stream does not make wrap, and every way to cut it into reads that fit into the
  -- room that is left and never fill the buffer without a whole message, while measuring: the received
  -- bytes and responses of the thread grow by exactly those of the whole responses of the stream, and
  -- the sent ones stay.
  pub read_all_lem :
      (s : AgentState) (chunks : List (List ℕ))
      → IsValid s.conn
      → decode frame (waiting s.conn) ≡ zero_pair
      → Fits frame (waiting s.conn) chunks
      → NoWrap s.stats.th_s.rx (decode frame (waiting s.conn ++ join chunks))
      → (s' : AgentState) × (read_all consume true s chunks ≡ ok s')
        × (s'.stats.th_s.rx ≡ plus s.stats.th_s.rx (decode frame (waiting s.conn ++ join chunks)))
        × (s'.stats.th_s.tx ≡ s.stats.th_s.tx)
        × IsValid s'.conn
  unfolding read_all
  read_all_lem s [] v quiet fits small = (
    s,
    refl,
    rw (append-nil (waiting s.conn), quiet) (sym (plus-zero_right s.stats.th_s.rx)),
    refl,
    v,
  )
  read_all_lem s (d ∷ ds) v quiet (fits, room, more) small =
      let xs = waiting s.conn ++ d in
      let whole : decode frame (xs ++ join ds) ≡ decode frame (waiting s.conn ++ (d ++ join ds)) =
        ap (decode frame) (append_assoc (waiting s.conn) d (join ds)) in
      let rest = drop (decode frame xs).bytes xs in
      let (cut, _) = decode-cut frame p.framing xs (join ds) rest refl in
      let total : plus (decode frame xs) (decode frame (rest ++ join ds))
          ≡ decode frame (waiting s.conn ++ (d ++ join ds)) =
        cut ∙ whole in
      let first : NoWrap s.stats.th_s.rx (decode frame xs) = (
        omega (arith, small.0, ap (λ b. b.bytes) total),
        omega (arith, small.1, ap (λ b. b.reqs) total),
      ) in
      let (s', ran, kept, valid, rx, tx) = readable_lem s d v fits room first in
      let later : NoWrap s'.stats.th_s.rx (decode frame (waiting s'.conn ++ join ds)) =
        later_lem s.stats.th_s.rx s'.stats.th_s.rx (decode frame xs)
          (decode frame (waiting s.conn ++ (d ++ join ds))) (waiting s'.conn) rest rx kept total
          small in
      let (s'', ran', rx', tx', valid') =
        read_all_lem s' ds valid (ap (decode frame) kept ∙ decode-rest frame p.framing xs)
          (rw kept more) later in
      (
        s'',
        rw ran ran',
        rx'
            ∙ ap (λ a. plus a (decode frame (waiting s'.conn ++ join ds))) rx
            ∙ plus_assoc s.stats.th_s.rx (decode frame xs)
                (decode frame (waiting s'.conn ++ join ds))
            ∙ ap (λ t. plus s.stats.th_s.rx (plus (decode frame xs) (decode frame (t ++ join ds))))
                kept
            ∙ ap (plus s.stats.th_s.rx) total,
        tx' ∙ tx,
        valid',
      )
    where
      later_lem :
          (before after a t : ByteReqPair) (w w' : List ℕ)
          → after ≡ plus before a
          → w ≡ w'
          → plus a (decode frame (w' ++ join ds)) ≡ t
          → NoWrap before t
          → NoWrap after (decode frame (w ++ join ds))
      later_lem before after a t w w' e e' e'' (h, k) =
          let same = ap (λ z. decode frame (z ++ join ds)) e' in
          (
            omega (arith, h, ap (λ z. z.bytes) e, ap (λ z. z.bytes) e'', ap (λ z. z.bytes) same),
            omega (arith, k, ap (λ z. z.reqs) e, ap (λ z. z.reqs) e'', ap (λ z. z.reqs) same),
          )

-- A request of the throughput agent, when the calls of writev take all its bytes in the end: the bytes on
-- the wire are its payload, one more request is under way, and it is counted with the bytes of the last
-- call alone.
pub on_throughput_send_lem :
    (should_measure sampled : Bool) (tx : TimeSpec) (results : List SendResult) (req : Request)
    (s : AgentState)
    → AllBacked (take req.iov_cnt req.iovs)
    → Drains results (total_len (take req.iov_cnt req.iovs))
    → s.conn.pending_reqs + 1 < 2 ^ 16
    → (s' : AgentState) × (on_throughput_send should_measure sampled tx results req s
        ≡ ok (payload req, some s'))
      × (s'.conn.pending_reqs ≡ s.conn.pending_reqs + 1)
      × (s'.stats
          ≡ add_throughput_tx_sample should_measure
              (record {
                bytes = last_sent results (total_len (take req.iov_cnt req.iovs));
                reqs = 1;
              })
              (add_tx_timestamp sampled tx s.stats))
unfolding on_throughput_send
on_throughput_send_lem should_measure sampled tx results req s backed drains small =
    let iovs = take req.iov_cnt req.iovs in
    let send_res : ByteReqPair = record { bytes = last_sent results (total_len iovs); reqs = 1 } in
    let s' : AgentState = record {
      conn = record s.conn { pending_reqs = add_u16 s.conn.pending_reqs 1 };
      stats =
          add_throughput_tx_sample should_measure send_res (add_tx_timestamp sampled tx s.stats);
    } in
    (s', rw (write_loop_lem results iovs backed drains) refl, omega arith, refl)
