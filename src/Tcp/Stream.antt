-- ===== src/Tcp/Stream.antt =====
-- A response parser behind the buffer of its connection: however TCP cuts the stream into reads,
-- the event loops of agents/tp_tcp.c count the same responses.
use lancet_tool.Base.{
  ℕ, ◌+◌, ◌≤◌, ◌<◌, ◌≡◌, refl, sym, ap, ◌∙◌, List, [], ◌∷◌, ◌++◌, Outcome, ok, arith, length,
  Option, fault, Fault, Bool-cases, inl, inr, ltb, ltb→lt, drop, append-nil, append_assoc,
  drop-append_of_le, drop-drop, length-append,
}
use lancet_tool.AppProto.{ByteReqPair, Iovec, zero_pair, plus}
use lancet_tool.AppProto.Framing.{
  IsFraming, decode, scan_bounds, scan-append, plus-zero_right, plus_assoc,
}
use lancet_tool.Tcp.{Connection, max_payload, received, on_readable, read_chunks, sub_u16}
use lancet_tool.Tcp.Buffer.{
  Parses, IsValid, waiting, length-waiting, received_lem, handle_response_lem, handle_response_full,
}

-- The reads joined into the stream.
abbrev pub join : List (List ℕ) → List ℕ
join [] = []
join (d ∷ ds) = d ++ join ds

module _ (frame : List ℕ → Option ℕ) where
  -- The reads fit: each into the room that is left, and the buffer is never full of one response.
  abbrev pub Fits : List ℕ → List (List ℕ) → Type 0
  Fits xs [] = Unit {0}
  Fits xs (d ∷ ds) =
      (length (xs ++ d) ≤ max_payload)
      × ((decode frame (xs ++ d)).bytes ≡ 0 → length (xs ++ d) < max_payload)
      × Fits (drop (decode frame (xs ++ d)).bytes (xs ++ d)) ds

-- Decoding takes all: what is left holds no whole message.
pub decode-rest :
    (frame : List ℕ → Option ℕ)
    → IsFraming frame
    → (xs : List ℕ) → decode frame (drop (decode frame xs).bytes xs) ≡ zero_pair
decode-rest frame law xs =
    let rest = drop (decode frame xs).bytes xs in
    let whole : decode frame xs ≡ plus (decode frame xs) (decode frame rest) =
      sym (ap (decode frame) (append-nil xs))
      ∙ scan-append frame law (length xs) xs [] (omega arith)
      ∙ ap (λ t. plus (decode frame xs) (decode frame t)) (append-nil rest) in
    ground arith

-- Decoding the first part of a stream and then what is left of it comes to decoding the stream.
pub decode-cut :
    (frame : List ℕ → Option ℕ)
    → IsFraming frame
    → (xs ys w : List ℕ) → w ≡ drop (decode frame xs).bytes xs
    → (plus (decode frame xs) (decode frame (w ++ ys)) ≡ decode frame (xs ++ ys))
      × (drop (decode frame (w ++ ys)).bytes (w ++ ys)
          ≡ drop (decode frame (xs ++ ys)).bytes (xs ++ ys))
decode-cut frame law xs ys w e =
    let within = (scan_bounds frame law (length xs) xs).0 in
    let cut : decode frame (xs ++ ys) ≡ plus (decode frame xs) (decode frame (w ++ ys)) =
      scan-append frame law (length xs) xs ys (omega arith)
      ∙ ap (λ t. plus (decode frame xs) (decode frame (t ++ ys))) (sym e) in
    let front : w ++ ys ≡ drop (decode frame xs).bytes (xs ++ ys) =
      ap (λ t. t ++ ys) e ∙ sym (drop-append_of_le (decode frame xs).bytes xs ys within) in
    (
      sym cut,
      ap (drop (decode frame (w ++ ys)).bytes) front
          ∙ drop-drop (decode frame (w ++ ys)).bytes (decode frame xs).bytes (xs ++ ys)
          ∙ ap (λ t. drop t.bytes (xs ++ ys)) (sym cut),
    )

module _ (consume : Iovec → Outcome ByteReqPair) (frame : List ℕ → Option ℕ)
    (p : Parses consume frame) where
  -- One read, for a parser that keeps its contract `Parses`, on a valid connection with room for the bytes,
  -- and when they do not fill the buffer without a whole message: the whole messages of what waited and
  -- what came are counted and taken off the requests that are pending, and the other bytes wait.
  pub on_readable_lem :
      (c : Connection) (bytes : List ℕ)
      → IsValid c
      → length (waiting c ++ bytes) ≤ max_payload
      → ((decode frame (waiting c ++ bytes)).bytes ≡ 0 → length (waiting c ++ bytes) < max_payload)
      → (c' : Connection) × (on_readable consume c bytes
          ≡ ok (decode frame (waiting c ++ bytes), c'))
        × (waiting c' ≡ drop (decode frame (waiting c ++ bytes)).bytes (waiting c ++ bytes))
        × IsValid c'
        × (c'.pending_reqs ≡ sub_u16 c.pending_reqs (decode frame (waiting c ++ bytes)).reqs)
  unfolding on_readable
  on_readable_lem c bytes v fits room =
      let n : length (waiting c ++ bytes) ≡ c.buffer_idx + length bytes =
        omega (arith, length-append (waiting c) bytes, length-waiting c v) in
      let (valid, appended) = received_lem c bytes v (omega arith) in
      let (r, ran, done) =
        handle_response_lem consume frame p (received c bytes) valid (rw appended room) in
      let counted : r.0 ≡ decode frame (waiting c ++ bytes) =
        done.counted ∙ ap (decode frame) appended in
      (
        record r.1 { pending_reqs = sub_u16 r.1.pending_reqs r.0.reqs },
        rw ran (
            ap (λ b. ok (b, record r.1 { pending_reqs = sub_u16 r.1.pending_reqs r.0.reqs }))
              counted),
        done.kept ∙ rw (counted, appended) refl,
        record { size = done.valid.size; index = done.valid.index },
        rw (done.pending, counted) refl,
      )

  -- For a parser that keeps its contract `Parses`, a valid connection where no whole message waits, and
  -- every way to cut a stream into reads that fit into the room that is left and never fill the buffer
  -- without a whole message: handle_response fails no assertion, the responses counted in all are those
  -- of the uncut stream, and its last partial response waits.
  pub read_chunks_lem :
      (c : Connection) (total : ByteReqPair) (chunks : List (List ℕ))
      → IsValid c
      → decode frame (waiting c) ≡ zero_pair
      → Fits frame (waiting c) chunks
      → let stream = waiting c ++ join chunks in
        (c' : Connection) × (read_chunks consume c total chunks
          ≡ ok (plus total (decode frame stream), c'))
        × (waiting c' ≡ drop (decode frame stream).bytes stream)
        × IsValid c'
  unfolding read_chunks
  read_chunks_lem c total [] v quiet fits = (
    c,
    rw (append-nil (waiting c), quiet, plus-zero_right total) refl,
    rw (append-nil (waiting c), quiet) refl,
    v,
  )
  read_chunks_lem c total (d ∷ ds) v quiet (fits, room, more) =
      let xs = waiting c ++ d in
      let (c', ran, kept, valid, _) = on_readable_lem c d v fits room in
      let (c'', ran', kept', valid') =
        read_chunks_lem c' (plus total (decode frame xs)) ds valid
          (ap (decode frame) kept ∙ decode-rest frame p.framing xs) (rw kept more) in
      let whole : xs ++ join ds ≡ waiting c ++ (d ++ join ds) =
        append_assoc (waiting c) d (join ds) in
      let (counts, rest) = decode-cut frame p.framing xs (join ds) (waiting c') kept in
      (
        c'',
        rw ran (
            ran'
            ∙ ap (λ t. ok (t, c'')) (plus_assoc total (decode frame xs) _ ∙ ap (plus total) counts)
            ∙ ap (λ t. ok (plus total (decode frame t), c'')) whole),
        kept' ∙ rest ∙ ap (λ t. drop (decode frame t).bytes t) whole,
        valid',
      )

  -- A read that fills the buffer, while no response is whole.
  on_readable_full :
      (c : Connection) (bytes : List ℕ)
      → IsValid c
      → length (waiting c ++ bytes) ≡ max_payload
      → (decode frame (waiting c ++ bytes)).bytes ≡ 0
      → on_readable consume c bytes ≡ fault Fault.assertion
  unfolding on_readable
  on_readable_full c bytes v full none_whole =
      let n : length (waiting c ++ bytes) ≡ c.buffer_idx + length bytes =
        omega (arith, length-append (waiting c) bytes, length-waiting c v) in
      let (valid, appended) = received_lem c bytes v (omega arith) in
      let at_end : (received c bytes).buffer_idx ≡ max_payload =
        sym (length-waiting (received c bytes) valid) ∙ ap length appended ∙ full in
      let failed =
        handle_response_full consume frame p (received c bytes) valid at_end
          (ap (λ xs. (decode frame xs).bytes) appended ∙ none_whole) in
      rw failed refl

  -- The beginning of a stream without a whole message has none.
  begins_without :
      (xs ys : List ℕ) → (decode frame (xs ++ ys)).bytes ≡ 0 → (decode frame xs).bytes ≡ 0
  begins_without xs ys none_whole =
      let rest = drop (decode frame xs).bytes xs in
      let (cut, _) = decode-cut frame p.framing xs ys rest refl in
      let total : (decode frame xs).bytes + (decode frame (rest ++ ys)).bytes ≡ 0 =
        ap (λ b. b.bytes) cut ∙ none_whole in
      omega (arith, total)

  -- A response that is longer than the buffer, for a parser that keeps its contract, on a valid
  -- connection: however its first MAX_PAYLOAD bytes, those that wait already and those of one read or
  -- more, are cut into these reads, the reads end in a failed assertion of handle_response.
  pub read_chunks_full :
      (c : Connection) (total : ByteReqPair) (d : List ℕ) (ds : List (List ℕ))
      → IsValid c
      → length (waiting c ++ join (d ∷ ds)) ≡ max_payload
      → (decode frame (waiting c ++ join (d ∷ ds))).bytes ≡ 0
      → read_chunks consume c total (d ∷ ds) ≡ fault Fault.assertion
  unfolding read_chunks
  read_chunks_full c total d [] v full none_whole =
      let all : waiting c ++ (d ++ []) ≡ waiting c ++ d = ap (λ t. waiting c ++ t) (append-nil d) in
      rw
        (on_readable_full c d v (ap length (sym all) ∙ full)
          (ap (λ xs. (decode frame xs).bytes) (sym all) ∙ none_whole))
        refl
  read_chunks_full c total d (d' ∷ ds) v full none_whole =
      let xs = waiting c ++ d in
      let whole : xs ++ join (d' ∷ ds) ≡ waiting c ++ (d ++ join (d' ∷ ds)) =
        append_assoc (waiting c) d (join (d' ∷ ds)) in
      let n : length xs + length (join (d' ∷ ds)) ≡ max_payload =
        sym (length-append xs (join (d' ∷ ds))) ∙ ap length whole ∙ full in
      let without : (decode frame xs).bytes ≡ 0 =
        begins_without xs (join (d' ∷ ds)) (ap (λ t. (decode frame t).bytes) whole ∙ none_whole) in
      elim (Bool-cases (ltb (length xs) max_payload)) [
        | inr filled ↦ rw (on_readable_full c d v (ground (arith, n)) without) refl
        | inl room ↦
            let less : length xs < max_payload = ltb→lt (length xs) max_payload room in
            let (c', ran, kept, valid, _) =
              on_readable_lem c d v (omega (arith, less)) (λ z. less) in
            let all : waiting c' ≡ xs = kept ∙ ap (λ k. drop k xs) without in
            rw ran (
              read_chunks_full c' (plus total (decode frame xs)) d' ds valid
                (ap (λ w. length (w ++ join (d' ∷ ds))) all ∙ ap length whole ∙ full)
                (ap (λ w. (decode frame (w ++ join (d' ∷ ds))).bytes) all
                  ∙ ap (λ t. (decode frame t).bytes) whole
                  ∙ none_whole))
      ]
