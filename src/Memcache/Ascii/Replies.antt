-- ===== src/Memcache/Ascii/Replies.antt =====
-- The text replies to get and set, and the rounds of `memcache_ascii_consume_response`
-- (agents/memcache.c:48-107) on them.
use lancet_tool.Base.{
  ℕ, suc, ◌+◌, ◌-◌, ◌≤◌, ◌<◌, ◌≡◌, inl, inr, refl, ap, ◌∙◌, List, [], ◌∷◌, ◌++◌, some, none, true,
  false, ltb, pos, pos-sub_pos, ◌%◌, ◌^◌, Bool-cases, arith, length, length-append, append_assoc,
  take, take-append_of_le, Bool-cases, ok, continue, stop,
}
use lancet_tool.Libc.Decimal.{AllNe, AllNe-append, AllNe-take}
use lancet_tool.Libc.Strings.{codes, is_prefix}
use lancet_tool.AppProto.{ByteReqPair, one_message, plus}
use lancet_tool.Memcache.Ascii.{strchnth, AsciiVars, counted, ascii_reply}
use lancet_tool.Memcache.Ascii.Search.{
  occurrences, occurrences-append, occurrences-take, occurrences-AllNe, strchnth_from-last,
  strchnth_from-few,
}

-- `END` is the reply to a get without a value, `STORED` the one to a set. The first line of a value
-- says its key, its flags and its size.
pub data Reply : Type 0 where
  not_found : Reply
  stored : Reply
  value : (line body : List ℕ) → Reply

-- A value up to its last newline.
abbrev pub value_front : List ℕ → List ℕ → List ℕ
value_front line body = codes "VALUE " ++ (line ++ b'\n' ∷ (body ++ b'\n' ∷ codes "END\r"))

-- As memcached writes them; the line and the body end in a carriage return.
abbrev pub encode : Reply → List ℕ
encode not_found = codes "END\r\n"
encode stored = codes "STORED\r\n"
encode (value line body) = value_front line body ++ b'\n' ∷ []

-- No newline and no NUL stands in the line or the value.
abbrev pub IsProper : Reply → Type 0
IsProper not_found = Unit {0}
IsProper stored = Unit {0}
IsProper (value line body) = (AllNe b'\n' line × AllNe 0 line) × (AllNe b'\n' body × AllNe 0 body)

abbrev pub vars : ℕ → ByteReqPair → AsciiVars
vars m res = record { bytes_to_process = pos m; res = res }

-- What is counted, within the bounds of the machine's numbers.
pub counted_lem :
    (n m : ℕ) (res : ByteReqPair)
    → 0 < n
    → n ≤ m
    → res.bytes + m < 2 ^ 64
    → res.reqs ≤ res.bytes
    → counted (vars m res) n ≡ vars (m - n) (plus res (one_message n))
counted_lem n m res h le fits order =
    let b : (res.bytes + n) % 2 ^ 64 ≡ res.bytes + n = omega arith in
    let r : (res.reqs + 1) % 2 ^ 64 ≡ res.reqs + 1 = omega arith in
    rw (pos-sub_pos m n le, b, r) refl

value_front-occurrences :
    (line body : List ℕ)
    → IsProper (value line body)
    → occurrences b'\n' (value_front line body) ≡ 2
value_front-occurrences line body ((l, l0), (b, b0)) = omega (
  arith,
  occurrences-append b'\n' line (b'\n' ∷ (body ++ b'\n' ∷ codes "END\r")),
  occurrences-append b'\n' body (b'\n' ∷ codes "END\r"),
  occurrences-AllNe b'\n' line l,
  occurrences-AllNe b'\n' body b,
)

nul_free : (line body : List ℕ) → IsProper (value line body) → AllNe 0 (value_front line body)
nul_free line body ((l, l0), (b, b0)) =
    AllNe-append 0 (codes "VALUE ") _ (omega arith)
      (AllNe-append 0 line _ l0 (omega arith, AllNe-append 0 body _ b0 (omega arith)))

pub length-encode : (r : Reply) → 5 ≤ length (encode r)
length-encode not_found = omega arith
length-encode stored = omega arith
length-encode (value line body) = omega arith

length-value : (line body : List ℕ) → 8 ≤ length (encode (value line body))
length-value line body =
    let rest = b'\n' ∷ (body ++ b'\n' ∷ codes "END\r") in
    omega (arith, length-append (line ++ rest) (b'\n' ∷ []), length-append line rest)

-- A whole reply is taken off, whatever follows it.
pub ascii_reply-whole :
    (r : Reply) (rest : List ℕ) (m : ℕ) (s : AsciiVars)
    → IsProper r
    → length (encode r) ≤ m
    → ascii_reply (encode r ++ rest) m s ≡ continue (counted s (length (encode r)))
unfolding ascii_reply is_prefix strchnth
ascii_reply-whole not_found rest m s p le =
    let long : ltb m 5 ≡ false = ground arith in rw long refl
ascii_reply-whole stored rest m s p le =
    let long : ltb m 5 ≡ false = ground arith in
    let longer : ltb m 8 ≡ false = ground arith in rw (long, longer) refl
ascii_reply-whole (value line body) rest m s p le =
    let front = value_front line body in
    let size = length-value line body in
    let long : ltb m 5 ≡ false = ground arith in
    let longer : ltb m 8 ≡ false = ground arith in
    let found : strchnth (encode (value line body) ++ rest) b'\n' 3
        ≡ ok (some (length (encode (value line body)))) =
      ap (λ t. strchnth t b'\n' 3) (append_assoc front (b'\n' ∷ []) rest)
      ∙ strchnth_from-last 2 b'\n' [] front rest (value_front-occurrences line body p)
          (nul_free line body p)
      ∙ ap (λ t. ok (some t)) (omega (arith, length-append front (b'\n' ∷ []))) in
    rw (long, longer, found) refl

-- The front of a reply that is not there as a whole stops the loop, when a NUL follows it.
pub ascii_reply-part :
    (r : Reply) (k : ℕ) (stale : List ℕ) (s : AsciiVars)
    → IsProper r
    → suc k < length (encode r)
    → ascii_reply (take (suc k) (encode r) ++ 0 ∷ stale) (suc k) s ≡ stop s
unfolding ascii_reply is_prefix strchnth
ascii_reply-part not_found k stale s p lt =
    let short : ltb (suc k) 5 ≡ true = ground arith in rw short refl
ascii_reply-part stored k stale s p lt =
    let short : ltb (suc k) 8 ≡ true = ground arith in
    elim (Bool-cases (ltb (suc k) 5)) [ inl a ↦ rw a refl | inr a ↦ rw (a, short) refl ]
ascii_reply-part (value line body) k stale s p lt =
    let front = value_front line body in
    let part = take (suc k) (encode (value line body)) in
    let cut : part ≡ take (suc k) front =
      take-append_of_le (suc k) front (b'\n' ∷ [])
        (omega (arith, length-append front (b'\n' ∷ []))) in
    let few : strchnth (part ++ 0 ∷ stale) b'\n' 3 ≡ ok none =
      ap (λ t. strchnth (t ++ 0 ∷ stale) b'\n' 3) cut
      ∙ strchnth_from-few 3 b'\n' [] (take (suc k) front) stale (omega arith)
          (omega (arith, occurrences-take b'\n' (suc k) front, value_front-occurrences line body p))
          (AllNe-take 0 (suc k) front (nul_free line body p)) in
    elim (Bool-cases (ltb (suc k) 5)) [
      | inl a ↦ rw a refl
      | inr a ↦ elim (Bool-cases (ltb (suc k) 8)) [
        | inl b ↦ rw (a, b) refl
        | inr b ↦ rw (a, b, few) refl
      ]
    ]
