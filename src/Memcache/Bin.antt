-- ===== src/Memcache/Bin.antt =====
-- `memcache_bin_consume_response` (agents/memcache.c:158-202) counts the whole messages of the stream.
use lancet_tool.Base.{
  ℕ, zero, suc, ◌+◌, ◌-◌, ◌*◌, ◌^◌, ◌≤◌, ◌<◌, ◌≡◌, refl, sym, ◌∙◌, List, [], ◌∷◌, ◌++◌, Option,
  some, none, arith, ok, length, drop, length-drop, drop-drop, drop-append_of_le, ltb,
  if◌then◌else◌, Bool-cases, inl, inr, length-append, get_elem?, Option-cases, true, false, ap, not,
  ◌==◌, run_loop-continue, stop, ◌≢◌, run_loop-stop, run_loop-exit, continue,
}
use lancet_tool.AppProto.{ByteReqPair, zero_pair, plus, one_message, Iovec}
use lancet_tool.AppProto.Framing.{
  IsFraming, scan, decode, scan-none, scan-some, frame_of_nil, plus-zero, plus-zero_right,
  plus_assoc,
}
use lancet_tool.Memcache.{
  State, wait_for_header, wait_for_body, finished, sizeof_header, body_len_at, read_be, BinVars,
  bin_round, bin_loop, memcache_bin_consume_response,
}

-- The first message of a stream: a header, and the body that it announces.
unfoldable pub frame : List ℕ → Option ℕ
frame xs = if ltb (length xs) sizeof_header then none else elim (read_be 4 0 xs body_len_at) [
  | none ↦ none
  | some len ↦ if ltb (length xs) (len + sizeof_header) then none else some (sizeof_header + len)
]

-- A read within a stream is not changed by what follows.
get_elem?-append :
    (xs ys : List ℕ) (i : ℕ) → i < length xs → get_elem? (xs ++ ys) i ≡ get_elem? xs i
get_elem?-append [] ys i h = absurd (omega arith)
get_elem?-append (x ∷ xs) ys zero h = refl
get_elem?-append (x ∷ xs) ys (suc i) h = get_elem?-append xs ys i (omega arith)

get_elem?-drop : (xs : List ℕ) (k i : ℕ) → get_elem? (drop k xs) i ≡ get_elem? xs (k + i)
get_elem?-drop xs zero i = ap (get_elem? xs) (omega arith)
get_elem?-drop [] (suc k) i = refl
get_elem?-drop (x ∷ xs) (suc k) i =
    get_elem?-drop xs k i
    ∙ ap (get_elem? (x ∷ xs)) (let e : suc (k + i) ≡ suc k + i = omega arith in e)

get_elem?-ne-none : (xs : List ℕ) (i : ℕ) → i < length xs → get_elem? xs i ≢ none
get_elem?-ne-none [] i h = absurd (omega arith)
get_elem?-ne-none (x ∷ xs) zero h = λ e. cc
get_elem?-ne-none (x ∷ xs) (suc i) h = get_elem?-ne-none xs i (omega arith)

read_be-append :
    (n acc : ℕ) (xs ys : List ℕ) (i : ℕ)
    → i + n ≤ length xs
    → read_be n acc (xs ++ ys) i ≡ read_be n acc xs i
unfolding read_be
read_be-append zero acc xs ys i h = refl
read_be-append (suc n) acc xs ys i h = elim (Option-cases (get_elem? xs i)) [
  | inl e ↦ rw (get_elem?-append xs ys i (omega arith), e, read_be)
  | inr (b, e) ↦
      rw (get_elem?-append xs ys i (omega arith), e, read_be)
        (read_be-append n (256 * acc + b) xs ys (suc i) (omega arith))
]

read_be-drop :
    (n acc : ℕ) (xs : List ℕ) (k i j : ℕ)
    → j ≡ k + i
    → read_be n acc (drop k xs) i ≡ read_be n acc xs j
unfolding read_be
read_be-drop zero acc xs k i j h = refl
read_be-drop (suc n) acc xs k i j h = elim (Option-cases (get_elem? xs j)) [
  | inl e ↦ rw (get_elem?-drop xs k i, ← h, e, read_be)
  | inr (b, e) ↦
      rw (get_elem?-drop xs k i, ← h, e, read_be)
        (read_be-drop n (256 * acc + b) xs k (suc i) (suc j) (omega arith))
]

read_be-some :
    (n acc : ℕ) (xs : List ℕ) (i : ℕ) → i + n ≤ length xs → (v : ℕ) × (read_be n acc xs i ≡ some v)
unfolding read_be
read_be-some zero acc xs i h = (acc, refl)
read_be-some (suc n) acc xs i h = elim (Option-cases (get_elem? xs i)) [
  | inl e ↦ absurd (get_elem?-ne-none xs i (omega arith) e)
  | inr (b, e) ↦
      let (v, p) = read_be-some n (256 * acc + b) xs (suc i) (omega arith) in (v, rw (e, read_be) p)
]

pub frame-IsFraming : IsFraming frame
unfolding frame
frame-IsFraming = record {
  pos = λ xs n e. ground arith;
  within = λ xs n e. ground arith;
  stable = λ xs ys n e. ground (arith, length-append xs ys, read_be-append 4 0 xs ys body_len_at);
}

frame_short :
    (xs : List ℕ) (len : ℕ)
    → read_be 4 0 xs body_len_at ≡ some len
    → frame xs ≡ none
    → sizeof_header ≤ length xs
    → length xs < len + sizeof_header
unfolding frame
frame_short xs len e h k = ground arith

-- A whole message has its header, and the size that the header announces.
frame_header :
    (xs : List ℕ) (n : ℕ)
    → frame xs ≡ some n
    → (len : ℕ) × (read_be 4 0 xs body_len_at ≡ some len)
      × (n ≡ sizeof_header + len)
      × (len + sizeof_header ≤ length xs)
unfolding frame
frame_header xs n e = elim (Option-cases (read_be 4 0 xs body_len_at)) [
  | inl h ↦ absurd (ground arith)
  | inr (len, h) ↦ (len, h, ground arith, ground arith)
]

abbrev rounds : ℕ → ℕ
rounds zero = 3
rounds (suc n) = suc (suc (suc (rounds n)))

rounds-eq : (n : ℕ) → 3 * n + 3 ≡ rounds n
rounds-eq zero = refl
rounds-eq (suc n) = omega (arith, rounds-eq n)

module _ (mem : List ℕ) (total : ℕ) where
  abbrev resp : Iovec
  resp = record { iov_base = mem; iov_len = total }

  abbrev at_state : State → ℕ → ℕ → ByteReqPair → BinVars
  at_state st len todo res = record {
    state = st;
    body_len = len;
    bytes_to_process = todo;
    res = res;
  }

  -- The rounds that take one whole message of body length `len`.
  three_rounds :
      (fuel old len m todo todo' : ℕ) (res : ByteReqPair)
      → m ≡ sizeof_header + len
      → todo' ≡ todo - m
      → read_be 4 0 mem (total - todo + body_len_at) ≡ some len
      → len + sizeof_header ≤ todo
      → res.bytes + todo < 2 ^ 64
      → res.reqs ≤ res.bytes
      → bin_loop (suc (suc (suc fuel))) resp (at_state wait_for_header old todo res)
        ≡ bin_loop fuel resp (at_state wait_for_header len todo' (plus res (one_message m)))
  unfolding bin_loop bin_round
  three_rounds fuel old len m todo todo' res size left e h k r =
      let test : not (todo == 0) ≡ true = ground arith in
      let first : bin_round resp (at_state wait_for_header old todo res)
          ≡ continue (at_state wait_for_body len todo res) =
        ground arith in
      let second : bin_round resp (at_state wait_for_body len todo res)
          ≡ continue (at_state finished len todo res) =
        ground arith in
      let third : bin_round resp (at_state finished len todo res)
          ≡ continue (at_state wait_for_header len todo' (plus res (one_message m))) =
        ground arith in
      run_loop-continue _ _ _ _ test first
      ∙ run_loop-continue _ _ _ _ test second
      ∙ run_loop-continue _ _ _ _ test third

  -- The header that the code reads is the one at the front of what is left.
  header_at :
      (xs stale : List ℕ) (len : ℕ)
      → length xs ≤ total
      → drop (total - length xs) mem ≡ xs ++ stale
      → sizeof_header ≤ length xs
      → read_be 4 0 xs body_len_at ≡ some len
      → read_be 4 0 mem (total - length xs + body_len_at) ≡ some len
  header_at xs stale len l d w p =
      sym (read_be-drop 4 0 mem (total - length xs) body_len_at _ refl)
      ∙ rw d (read_be-append 4 0 xs stale body_len_at (omega arith))
      ∙ p

  -- Where no whole message is left, the loop ends with what it has.
  bin_loop-none :
      (fuel old : ℕ) (xs stale : List ℕ) (res : ByteReqPair)
      → frame xs ≡ none
      → length xs ≤ total
      → drop (total - length xs) mem ≡ xs ++ stale
      → (s : BinVars) × (bin_loop
            (suc (suc fuel))
            resp
            (at_state wait_for_header old (length xs) res)
          ≡ ok s)
        × (s.res ≡ res)
  unfolding bin_loop bin_round
  bin_loop-none fuel old xs stale res e l d = elim (Bool-cases (length xs == 0)) [
    | inl done ↦ (_, run_loop-exit _ _ _ _ (rw done refl), refl)
    | inr todo ↦ elim (Bool-cases (ltb (length xs) sizeof_header)) [
      | inl short ↦ (_, run_loop-stop _ _ _ _ (rw todo refl) (header_stops short), refl)
      | inr long ↦ waits todo long
    ]
  ]
    where
      header_stops :
          ltb (length xs) sizeof_header ≡ true
          → bin_round resp (at_state wait_for_header old (length xs) res)
            ≡ stop (at_state wait_for_header old (length xs) res)
      header_stops short = ground arith

      waits :
          (length xs == 0) ≡ false
          → ltb (length xs) sizeof_header ≡ false
          → (s : BinVars) × (bin_loop
                (suc (suc fuel))
                resp
                (at_state wait_for_header old (length xs) res)
              ≡ ok s)
            × (s.res ≡ res)
      waits todo long =
          let enough : sizeof_header ≤ length xs = ground arith in
          let (len, p) = read_be-some 4 0 xs body_len_at (omega arith) in
          let q = header_at xs stale len l d enough p in
          let first : bin_round resp (at_state wait_for_header old (length xs) res)
              ≡ continue (at_state wait_for_body len (length xs) res) =
            ground arith in
          let second : bin_round resp (at_state wait_for_body len (length xs) res)
              ≡ stop (at_state wait_for_body len (length xs) res) =
            ground (arith, frame_short xs len p) in
          (
            _,
            run_loop-continue _ _ _ _ (rw todo refl) first
                ∙ run_loop-stop _ _ _ _ (rw todo refl) second,
            refl,
          )

  -- What the loop returns from a message boundary on, when `xs` is left to read.
  bin_loop-scan :
      (n old : ℕ) (xs stale : List ℕ) (res : ByteReqPair)
      → length xs ≤ n
      → length xs ≤ total
      → drop (total - length xs) mem ≡ xs ++ stale
      → res.bytes + length xs < 2 ^ 64
      → res.reqs ≤ res.bytes
      → (s : BinVars) × (bin_loop (rounds n) resp (at_state wait_for_header old (length xs) res)
          ≡ ok s)
        × (s.res ≡ plus res (scan frame n xs))
  bin_loop-scan zero old xs stale res h l d b r =
      let (s, p, q) =
        bin_loop-none 1 old xs stale res (frame_of_nil frame frame-IsFraming xs h) l d in
      (
        s,
        p,
        rw (scan-none frame zero xs (frame_of_nil frame frame-IsFraming xs h))
            (q ∙ sym (plus-zero_right res)),
      )
  bin_loop-scan (suc n) old xs stale res h l d b r = elim (Option-cases (frame xs)) [
    | inl e ↦
        let (s, p, q) = bin_loop-none (suc (rounds n)) old xs stale res e l d in
        (s, p, rw (scan-none frame (suc n) xs e) (q ∙ sym (plus-zero_right res)))
    | inr (m, e) ↦
        let (len, p, size, fits) = frame_header xs m e in
        let short : length (drop m xs) ≡ length xs - m = length-drop m xs in
        let whole : m ≤ length xs = omega arith in
        let place : total - length (drop m xs) ≡ (total - length xs) + m = omega arith in
        let rest : drop (total - length (drop m xs)) mem ≡ drop m xs ++ stale = rw place (
          sym (drop-drop m (total - length xs) mem)
          ∙ ap (drop m) d
          ∙ drop-append_of_le m xs stale whole) in
        let (s, ran, got) =
          bin_loop-scan n len (drop m xs) stale (plus res (one_message m)) (omega arith)
            (omega arith) rest (omega arith) (omega arith) in
        (
          s,
          three_rounds (rounds n) old len m (length xs) (length (drop m xs)) res size short
                (header_at xs stale len l d (omega arith) p) (omega arith) (omega arith) r
              ∙ ran,
          rw (scan-some frame n xs m e)
              (got ∙ plus_assoc res (one_message m) (scan frame n (drop m xs))),
        )
  ]

-- For a response shorter than 2^31 bytes, the parser returns, and counts the whole messages at the
-- front of the response, whatever bytes the buffer holds behind it.
pub memcache_bin_consume_response-decode :
    (xs stale : List ℕ)
    → length xs < 2 ^ 31
    → memcache_bin_consume_response (record { iov_base = xs ++ stale; iov_len = length xs })
      ≡ ok (decode frame xs)
unfolding memcache_bin_consume_response
memcache_bin_consume_response-decode xs stale h =
    let here : length xs - length xs ≡ 0 = omega arith in
    let (s, ran, got) =
      bin_loop-scan (xs ++ stale) (length xs) (length xs) 0 xs stale zero_pair (omega arith)
        (omega arith) (rw here refl) (omega arith) (omega arith) in
    rw (rounds-eq (length xs), ran, got) (ap ok (plus-zero (decode frame xs)))
