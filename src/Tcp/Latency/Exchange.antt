-- ===== src/Tcp/Latency/Exchange.antt =====
-- A request of the latency agent and its response (agents/tp_tcp.c:365-411).
use mathlib.Core.List.{map}
use lancet_tool.Base.{
  ℕ, ◌+◌, ◌-◌, ◌≤◌, ◌<◌, ◌≡◌, refl, ap, sym, ◌∙◌, List, [], ◌∷◌, ◌++◌, Bool, true, false, Option,
  some, none, take, length, arith, take-of_le, length-append, drop, ℤ, ◌+ℤ◌, ◌-ℤ◌, Outcome, ok,
  ◌>>=◌, ltb, ◌==◌, not, ◌||◌, ==_refl, drop-of_le,
}
use lancet_tool.AppProto.{ByteReqPair, zero_pair, Iovec}
use lancet_tool.AppProto.Framing.{decode}
use lancet_tool.Stats.{
  ThreadStats, add_latency_sample, add_throughput_rx_sample, add_throughput_tx_sample,
}
use lancet_tool.Tcp.{Connection, max_payload, received}
use lancet_tool.Tcp.Buffer.{
  Parses, IsValid, waiting, length-waiting, received_lem, handle_response_lem,
}
use lancet_tool.Tcp.Send.{sent, total_len}
use lancet_tool.Tcp.Loops.{chunk, arrived, arrive}
use lancet_tool.Tcp.Latency.{
  LatencyRead, LatencyState, LatencyRound, while_waiting, count_response, on_latency_arrival,
  latency_read, latency_reads, latency_exchange,
}

-- `recv` gives what fits.
pub arrive-chunk :
    (bytes : List ℕ) (c : Connection)
    → c.buffer_idx + length bytes ≤ max_payload
    → 0 < length bytes
    → arrive (chunk bytes) c ≡ arrived c bytes
unfolding arrive
arrive-chunk bytes c fits some_bytes =
    let given : take (max_payload - c.buffer_idx) bytes ≡ bytes =
      take-of_le (max_payload - c.buffer_idx) bytes (omega arith) in
    let inside : ltb max_payload c.buffer_idx ≡ false = ground arith in
    let more : (length bytes == 0) ≡ false = ground arith in rw (inside, given, more) refl

-- A read that gives these bytes.
abbrev pub with_bytes : List ℕ × LatencyRead → LatencyRead
with_bytes (bytes, r) = record r { result = chunk bytes }

module _ (frame : List ℕ → Option ℕ) where
  -- Reads that leave the response, of which `w` has come before, without its end.
  abbrev pub Partial : List ℕ → List (List ℕ × LatencyRead) → Type 0
  Partial w [] = Unit {0}
  Partial w ((bytes, r) ∷ rs) =
      (0 < length bytes)
      × (length (w ++ bytes) < max_payload)
      × (decode frame (w ++ bytes) ≡ zero_pair)
      × Partial (w ++ bytes) rs

-- The bytes that have come with these reads.
abbrev pub come : List ℕ → List (List ℕ × LatencyRead) → List ℕ
come w [] = w
come w ((bytes, r) ∷ rs) = come (w ++ bytes) rs

module _ (consume : Iovec → Outcome ByteReqPair) (frame : List ℕ → Option ℕ)
    (p : Parses consume frame) (bin : Bool) where
  -- A read that is handled.
  read_lem :
      (start : ℤ) (bytes : List ℕ) (r : LatencyRead) (s : LatencyState) (w : List ℕ)
      → IsValid s.conn
      → waiting s.conn ≡ w
      → 0 < length bytes
      → length (w ++ bytes) ≤ max_payload
      → ((decode frame (w ++ bytes)).bytes ≡ 0 → length (w ++ bytes) < max_payload)
      → (c : Connection) × (latency_read consume bin start (with_bytes (bytes, r)) s ≡ (
          count_response consume bin start r (decode frame (w ++ bytes)) (record s { conn = c })
          >>= λ s'. ok (while_waiting s')))
        × (waiting c ≡ drop (decode frame (w ++ bytes)).bytes (w ++ bytes))
        × IsValid c
  unfolding latency_read on_latency_arrival count_response
  read_lem start bytes r s w v e some_bytes fits room =
      let n : length (waiting s.conn) ≡ s.conn.buffer_idx = length-waiting s.conn v in
      let total : length (w ++ bytes) ≡ s.conn.buffer_idx + length bytes =
        omega (arith, length-append w bytes, ap length e) in
      let (valid, appended) = received_lem s.conn bytes v (omega arith) in
      let all : waiting (received s.conn bytes) ≡ w ++ bytes = appended ∙ ap (λ x. x ++ bytes) e in
      let (h, ran, handled) =
        handle_response_lem consume frame p (received s.conn bytes) valid (rw all room) in
      let counted : h.0 ≡ decode frame (w ++ bytes) = handled.counted ∙ ap (decode frame) all in
      let more : ltb 0 (max_payload - s.conn.buffer_idx) ≡ true = ground arith in
      (
        h.1,
        rw (more, arrive-chunk bytes s.conn (omega arith) some_bytes, ran, counted) refl,
        handled.kept
            ∙ ap (λ b. drop b.bytes (waiting (received s.conn bytes))) counted
            ∙ ap (drop (decode frame (w ++ bytes)).bytes) all,
        handled.valid,
      )

  -- A read that ends the response, and with it the buffer.
  last_lem :
      (start : ℤ) (bytes : List ℕ) (r : LatencyRead) (rest : List LatencyRead) (s : LatencyState)
      (w : List ℕ) (reqs : ℕ) (stats : ThreadStats)
      → IsValid s.conn
      → waiting s.conn ≡ w
      → 0 < length bytes
      → length (w ++ bytes) ≤ max_payload
      → decode frame (w ++ bytes) ≡ record { bytes = length (w ++ bytes); reqs = reqs }
      → 0 < reqs
      → (not bin || reqs == 1) ≡ true
      → add_latency_sample r.should_measure r.period (r.end_time -ℤ start) none (
          add_throughput_rx_sample r.should_measure
            (record { bytes = length (w ++ bytes); reqs = reqs })
            s.stats)
        ≡ ok stats
      → (c : Connection) × (latency_reads consume bin start (with_bytes (bytes, r) ∷ rest) s
          ≡ ok (some (record { conn = c; stats = stats; next_tx = s.next_tx +ℤ r.ia })))
        × IsValid c
        × (c.buffer_idx ≡ 0)
  unfolding latency_reads count_response
  last_lem start bytes r rest s w reqs stats v e some_bytes fits whole some_reqs single sampled =
      let brp : ByteReqPair = record { bytes = length (w ++ bytes); reqs = reqs } in
      let positive : (decode frame (w ++ bytes)).bytes ≡ 0 → length (w ++ bytes) < max_payload =
        λ z. omega (arith, z, ap (λ b. b.bytes) whole) in
      let (c, ran, kept, valid) = read_lem start bytes r s w v e some_bytes fits positive in
      let none_left : waiting c ≡ [] =
        kept
        ∙ ap (λ b. drop b.bytes (w ++ bytes)) whole
        ∙ drop-of_le (length (w ++ bytes)) (w ++ bytes) (omega arith) in
      let empty : c.buffer_idx ≡ 0 = sym (length-waiting c valid) ∙ ap length none_left in
      let answered : ltb 0 reqs ≡ true = ground arith in
      let at_end : (c.buffer_idx == 0) ≡ true = ground arith in
      (c, rw (ran, whole, answered, single, sampled, at_end) refl, valid, empty)

  -- A read that leaves a part of the response in the buffer.
  partial_lem :
      (start : ℤ) (bytes : List ℕ) (r : LatencyRead) (rest : List LatencyRead) (s : LatencyState)
      (w : List ℕ)
      → IsValid s.conn
      → waiting s.conn ≡ w
      → 0 < length bytes
      → length (w ++ bytes) < max_payload
      → decode frame (w ++ bytes) ≡ zero_pair
      → (c : Connection) × (latency_reads consume bin start (with_bytes (bytes, r) ∷ rest) s
          ≡ latency_reads consume bin start rest (record s { conn = c }))
        × IsValid c
        × (waiting c ≡ w ++ bytes)
  unfolding latency_reads count_response
  partial_lem start bytes r rest s w v e some_bytes fits part =
      let (c, ran, kept, valid) =
        read_lem start bytes r s w v e some_bytes (omega arith) (λ z. fits) in
      let all : waiting c ≡ w ++ bytes = kept ∙ ap (λ b. drop b.bytes (w ++ bytes)) part in
      let n : c.buffer_idx ≡ length (w ++ bytes) = sym (length-waiting c valid) ∙ ap length all in
      let more : (c.buffer_idx == 0) ≡ false = ground (arith, length-append w bytes) in
      (c, rw (ran, part, more) refl, valid, all)

  reads_lem :
      (start : ℤ) (early : List (List ℕ × LatencyRead)) (bytes : List ℕ) (r : LatencyRead)
      (rest : List LatencyRead) (s : LatencyState) (w : List ℕ) (reqs : ℕ) (stats : ThreadStats)
      → IsValid s.conn
      → waiting s.conn ≡ w
      → Partial frame w early
      → 0 < length bytes
      → length (come w early ++ bytes) ≤ max_payload
      → decode frame (come w early ++ bytes)
        ≡ record { bytes = length (come w early ++ bytes); reqs = reqs }
      → 0 < reqs
      → (not bin || reqs == 1) ≡ true
      → add_latency_sample r.should_measure r.period (r.end_time -ℤ start) none (
          add_throughput_rx_sample r.should_measure
            (record { bytes = length (come w early ++ bytes); reqs = reqs })
            s.stats)
        ≡ ok stats
      → (c : Connection) × (latency_reads consume bin start
            (map with_bytes early ++ with_bytes (bytes, r) ∷ rest)
            s
          ≡ ok (some (record { conn = c; stats = stats; next_tx = s.next_tx +ℤ r.ia })))
        × IsValid c
        × (c.buffer_idx ≡ 0)
  reads_lem start [] bytes r rest s w reqs stats v e parts some_bytes fits whole some_reqs single
        sampled =
      last_lem start bytes r rest s w reqs stats v e some_bytes fits whole some_reqs single sampled
  reads_lem start ((first, r0) ∷ early) bytes r rest s w reqs stats v e (more, small, part, parts)
        some_bytes fits whole some_reqs single sampled =
      let later = map with_bytes early ++ with_bytes (bytes, r) ∷ rest in
      let (c, ran, valid, all) = partial_lem start first r0 later s w v e more small part in
      let (c', ran', valid', empty) =
        reads_lem start early bytes r rest (record s { conn = c }) (w ++ first) reqs stats valid all
          parts some_bytes fits whole some_reqs single sampled in
      (c', ran ∙ ran', valid', empty)

  -- For a parser that keeps its contract `Parses`: a request that `writev` takes whole, on a valid
  -- connection whose buffer is empty, and its answer of one whole message or more (of one, for binary
  -- memcached), of no more than MAX_PAYLOAD bytes, in reads of which none but the last ends a message,
  -- each of one byte or more and all but the last short of MAX_PAYLOAD in all, where the statistics
  -- accept the latency: one latency is offered to them, which is exactly the time behind the last read
  -- less the time before the write; both ways are counted; the next request is due one interarrival time
  -- later; and the buffer is empty again, whatever reads the kernel would have had behind these.
  pub latency_exchange_lem :
      (l : LatencyRound) (early : List (List ℕ × LatencyRead)) (bytes : List ℕ) (r : LatencyRead)
      (rest : List LatencyRead) (s : LatencyState) (reqs : ℕ) (stats : ThreadStats)
      → l.result ≡ sent (total_len (take l.request.iov_cnt l.request.iovs))
      → l.reads ≡ map with_bytes early ++ with_bytes (bytes, r) ∷ rest
      → IsValid s.conn
      → s.conn.buffer_idx ≡ 0
      → Partial frame [] early
      → 0 < length bytes
      → length (come [] early ++ bytes) ≤ max_payload
      → decode frame (come [] early ++ bytes)
        ≡ record { bytes = length (come [] early ++ bytes); reqs = reqs }
      → 0 < reqs
      → (not bin || reqs == 1) ≡ true
      → add_latency_sample r.should_measure r.period (r.end_time -ℤ l.start_time) none (
          add_throughput_rx_sample r.should_measure
            (record { bytes = length (come [] early ++ bytes); reqs = reqs })
            (add_throughput_tx_sample l.should_measure
              (record { bytes = total_len (take l.request.iov_cnt l.request.iovs); reqs = 1 })
              s.stats))
        ≡ ok stats
      → (c : Connection) × (latency_exchange consume bin l s
          ≡ ok (some (record { conn = c; stats = stats; next_tx = s.next_tx +ℤ r.ia })))
        × IsValid c
        × (c.buffer_idx ≡ 0)
  unfolding latency_exchange
  latency_exchange_lem l early bytes r rest s reqs stats written_whole answer v empty parts
        some_bytes fits whole some_reqs single sampled =
      let n = total_len (take l.request.iov_cnt l.request.iovs) in
      let none_waits : waiting s.conn ≡ [] = ap (λ k. take k s.conn.buffer) empty in
      let at_start : (s.conn.buffer_idx == 0) ≡ true = ground arith in
      let next : LatencyState = record s {
        stats = add_throughput_tx_sample l.should_measure (record { bytes = n; reqs = 1 }) s.stats;
      } in
      let (c, ran, valid, empty') =
        reads_lem l.start_time early bytes r rest next [] reqs stats v none_waits parts some_bytes
          fits whole some_reqs single sampled in
      (c, rw (written_whole, ==_refl n, at_start, answer) ran, valid, empty')
