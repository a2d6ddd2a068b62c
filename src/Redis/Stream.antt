-- ===== src/Redis/Stream.antt =====
-- The loop of `redis_kv_consume_response` (agents/redis.c:113-147) over a stream of replies.
use lancet_tool.Base.{
  ℕ, zero, suc, ◌+◌, ◌-◌, ◌^◌, ◌≤◌, ◌<◌, ◌≡◌, refl, sym, ap, subst, ◌∙◌, ◌⊎◌, inl, inr, List, [],
  ◌∷◌, ◌++◌, true, false, leb, Bool-cases, pos, pos-sub_pos, arith, length, append_assoc, take,
  drop, get_elem?-of_drop, le→leb, lt→leb, take-append_of_le, take-append_of_ge, take-length, ok,
  continue, stop, leb→le,
}
use lancet_tool.AppProto.{ByteReqPair, plus, one_message, Iovec}
use lancet_tool.Libc.{decimal}
use lancet_tool.Libc.Decimal.{AllNe, AllNe-take}
use lancet_tool.Redis.{
  newline, parse_string, parse_bulk_string, RedisVars, reply_at, redis_round, took,
}
use lancet_tool.Redis.Replies.{
  Reply, status, bulk, nil, encode, IsProper, crlf, bulk_line, length-status, length-bulk,
  status_line-AllNe, bulk_line-AllNe, parse_string_lem, parse_bulk_lem, parse_nil_lem, unended_lem,
  nil_line-AllNe,
}

abbrev pub vars : ℕ → ByteReqPair → RedisVars
vars m res = record { bytes_to_process = pos m; res = res }

-- No reply is empty.
pub encode_pos : (r : Reply) → 0 < length (encode r)
encode_pos (status s) = omega arith
encode_pos (bulk v) = omega arith
encode_pos nil = omega arith

pub took_lem :
    (n m : ℕ) (res : ByteReqPair)
    → 0 < n
    → n ≤ m
    → res.bytes + m < 2 ^ 64
    → res.reqs ≤ res.bytes
    → took (vars m res) (pos n) ≡ continue (vars (m - n) (plus res (one_message n)))
unfolding took
took_lem n m res pos_n le fits order = rw (pos-sub_pos m n le) (ground arith)

took_zero : (m : ℕ) (res : ByteReqPair) → took (vars m res) (pos 0) ≡ stop (vars m res)
unfolding took
took_zero m res = refl

module _ (mem : List ℕ) (total : ℕ) where
  abbrev pub resp : Iovec
  resp = record { iov_base = mem; iov_len = total }

  -- The round is decided by the parser that the first byte chooses.
  round_of_status :
      (m n : ℕ) (res : ByteReqPair) (rest : List ℕ)
      → m ≤ total
      → drop (total - m) mem ≡ b'+' ∷ rest
      → parse_string (b'+' ∷ rest) (pos m) ≡ ok (pos n)
      → redis_round resp (vars m res) ≡ took (vars m res) (pos n)
  unfolding redis_round
  round_of_status m n res rest le at parsed =
      rw (pos-sub_pos total m le, redis_round)
        (rw (get_elem?-of_drop mem (total - m) at, reply_at) (rw (at, parsed) refl))

  round_of_bulk :
      (m n : ℕ) (res : ByteReqPair) (rest : List ℕ)
      → m ≤ total
      → drop (total - m) mem ≡ b'$' ∷ rest
      → parse_bulk_string (b'$' ∷ rest) (pos m) ≡ ok (pos n)
      → redis_round resp (vars m res) ≡ took (vars m res) (pos n)
  unfolding redis_round
  round_of_bulk m n res rest le at parsed =
      rw (pos-sub_pos total m le, redis_round)
        (rw (get_elem?-of_drop mem (total - m) at, reply_at) (rw (at, parsed) refl))

  -- A whole reply is taken off.
  pub round_reply :
      (r : Reply) (rest : List ℕ) (m : ℕ) (res : ByteReqPair)
      → IsProper r
      → m ≤ total
      → drop (total - m) mem ≡ encode r ++ rest
      → length (encode r) ≤ m
      → redis_round resp (vars m res) ≡ took (vars m res) (pos (length (encode r)))
  round_reply (status s) rest m res h le at fits =
      round_of_status m (length (encode (status s))) res _ le at (parse_string_lem s rest m h fits)
  round_reply (bulk v) rest m res h le at fits =
      let size : length (encode (bulk v)) ≡ length (bulk_line v) + 3 + length v = length-bulk v in
      let shape : encode (bulk v) ++ rest ≡ bulk_line v ++ newline ∷ ((v ++ crlf) ++ rest) =
        append_assoc (bulk_line v) (newline ∷ (v ++ crlf)) rest in
      let whole : leb (length (bulk_line v) + 3 + length v) m ≡ true = le→leb _ _ (omega arith) in
      round_of_bulk m (length (encode (bulk v))) res _ le (at ∙ shape) (
        parse_bulk_lem v ((v ++ crlf) ++ rest) m (omega arith)
        ∙ rw whole (ap (λ t. ok (pos t)) (sym size)))
  round_reply nil rest m res h le at fits =
      round_of_bulk m 5 res _ le at (parse_nil_lem rest m fits)

  -- A line that has not ended ends the loop.
  round_unended :
      (c : ℕ) (xs stale : List ℕ) (res : ByteReqPair)
      → (c ≡ b'+') ⊎ (c ≡ b'$')
      → AllNe newline (c ∷ xs)
      → length (c ∷ xs) ≤ total
      → drop (total - length (c ∷ xs)) mem ≡ c ∷ xs ++ stale
      → redis_round resp (vars (length (c ∷ xs)) res) ≡ stop (vars (length (c ∷ xs)) res)
  round_unended c xs stale res (inl e) h le at =
      round_of_status (length (c ∷ xs)) 0 res (xs ++ stale) le (rw e at at)
        (rw e at ((unended_lem c xs stale h).0 e))
      ∙ took_zero _ res
  round_unended c xs stale res (inr e) h le at =
      round_of_bulk (length (c ∷ xs)) 0 res (xs ++ stale) le (rw e at at)
        (rw e at ((unended_lem c xs stale h).1 e))
      ∙ took_zero _ res

  round_cut_line :
      (c : ℕ) (xs ys stale : List ℕ) (k : ℕ) (res : ByteReqPair)
      → (c ≡ b'+') ⊎ (c ≡ b'$')
      → AllNe newline (c ∷ xs)
      → suc k ≤ length (c ∷ xs)
      → suc k ≤ total
      → drop (total - suc k) mem ≡ take (suc k) (c ∷ xs ++ ys) ++ stale
      → redis_round resp (vars (suc k) res) ≡ stop (vars (suc k) res)
  round_cut_line c xs ys stale k res first h short le at =
      let zs = take k xs in
      let size : suc (length zs) ≡ suc k = ap suc (take-length k xs (omega arith)) in
      let front : take k (xs ++ ys) ≡ zs = take-append_of_le k xs ys (omega arith) in
      subst
        (λ (t : ℕ).
          t ≤ total
          → drop (total - t) mem ≡ c ∷ zs ++ stale
          → redis_round resp (vars t res) ≡ stop (vars t res))
        size (λ l a. round_unended c zs stale res first (h.0, AllNe-take newline k xs h.1) l a) le
        (at ∙ ap (λ t. c ∷ t ++ stale) front)

  -- A bulk string whose first line is there, and whose bytes are not all there.
  round_cut_body :
      (v : List ℕ) (k : ℕ) (stale : List ℕ) (res : ByteReqPair)
      → length (bulk_line v) < k
      → k < length (encode (bulk v))
      → k ≤ total
      → drop (total - k) mem ≡ take k (encode (bulk v)) ++ stale
      → redis_round resp (vars k res) ≡ stop (vars k res)
  round_cut_body v k stale res past lt le at =
      let body = v ++ crlf in
      let j = k - suc (length (bulk_line v)) in
      let more : k - length (bulk_line v) ≡ suc j = omega arith in
      let shape : take k (encode (bulk v)) ++ stale
          ≡ bulk_line v ++ newline ∷ (take j body ++ stale) =
        ap (λ t. t ++ stale)
          (take-append_of_ge k (bulk_line v) (newline ∷ body) (omega arith)
            ∙ ap (λ t. bulk_line v ++ take t (newline ∷ body)) more)
        ∙ append_assoc (bulk_line v) (newline ∷ take j body) stale in
      let part : leb (length (bulk_line v) + 3 + length v) k ≡ false =
        lt→leb _ _ (omega (arith, length-bulk v)) in
      round_of_bulk k 0 res _ le (at ∙ shape)
        (parse_bulk_lem v (take j body ++ stale) k past ∙ rw part refl)
      ∙ took_zero k res

  -- The first part of a reply ends the loop, whatever stale bytes follow it.
  pub round_part :
      (r : Reply) (k : ℕ) (stale : List ℕ) (res : ByteReqPair)
      → IsProper r
      → 0 < k
      → k < length (encode r)
      → k ≤ total
      → drop (total - k) mem ≡ take k (encode r) ++ stale
      → redis_round resp (vars k res) ≡ stop (vars k res)
  round_part r zero stale res h p lt le at = absurd (omega arith)
  round_part (status s) (suc k) stale res h p lt le at =
      round_cut_line b'+' (s ++ 13 ∷ []) (newline ∷ []) stale k res (inl refl)
        (status_line-AllNe s h) (omega (arith, length-status s)) le at
  round_part nil (suc k) stale res h p lt le at =
      round_cut_line b'$' (b'-' ∷ b'1' ∷ 13 ∷ []) (newline ∷ []) stale k res (inr refl)
        nil_line-AllNe (omega arith) le at
  round_part (bulk v) (suc k) stale res h p lt le at =
      elim (Bool-cases (leb (suc k) (length (bulk_line v)))) [
        | inl in_line ↦
            round_cut_line b'$' (decimal (length v) ++ 13 ∷ []) (newline ∷ (v ++ crlf)) stale k res
              (inr refl) (bulk_line-AllNe v) (leb→le _ _ in_line) le at
        | inr in_body ↦ round_cut_body v (suc k) stale res (ground arith) lt le at
      ]
