-- ===== src/Redis/Replies.antt =====
-- `redis_kv_consume_response` (agents/redis.c:69-147) on what a Redis server sends.
use lancet_tool.Base.{
  ℕ, ◌+◌, ◌≤◌, ◌<◌, ◌≡◌, refl, sym, ap, ◌∙◌, List, [], ◌∷◌, ◌++◌, some, false, ltb_ℤ, if◌then◌else◌,
  pos, pos-add_pos, arith, length, length-append, append_assoc, drop, leb, ok,
}
use lancet_tool.Libc.{memchr, atoi, decimal}
use lancet_tool.Libc.Decimal.{
  AllNe, AllNe-append, memchr-found, memchr-none, AllDigits-AllNe, decimal-AllDigits, atoi-decimal,
  atoi-minus_one,
}
use lancet_tool.Redis.{newline, parse_string, parse_bulk_string, bulk_size}

-- The replies to SET and GET: a status line, a value, or none.
pub data Reply : Type 0 where
  status : List ℕ → Reply
  bulk : List ℕ → Reply
  nil : Reply

abbrev pub crlf : List ℕ
crlf = 13 ∷ newline ∷ []

-- The first line of a bulk string, without its newline.
abbrev pub bulk_line : List ℕ → List ℕ
bulk_line v = b'$' ∷ (decimal (length v) ++ 13 ∷ [])

-- As the Redis protocol writes them.
abbrev pub encode : Reply → List ℕ
encode (status s) = (b'+' ∷ (s ++ 13 ∷ [])) ++ newline ∷ []
encode (bulk v) = bulk_line v ++ newline ∷ (v ++ crlf)
encode nil = b'$' ∷ b'-' ∷ b'1' ∷ 13 ∷ newline ∷ []

-- A status line has no newline inside.
abbrev pub IsProper : Reply → Type 0
IsProper (status s) = AllNe newline s
IsProper (bulk v) = Unit {0}
IsProper nil = Unit {0}

pub status_line-AllNe : (s : List ℕ) → AllNe newline s → AllNe newline (b'+' ∷ (s ++ 13 ∷ []))
status_line-AllNe s h = (omega arith, AllNe-append newline s (13 ∷ []) h (omega arith, tt))

pub bulk_line-AllNe : (v : List ℕ) → AllNe newline (bulk_line v)
bulk_line-AllNe v = (
  omega arith,
  AllNe-append newline (decimal (length v)) (13 ∷ [])
      (AllDigits-AllNe newline (decimal (length v)) (omega arith) (decimal-AllDigits (length v)))
      (omega arith, tt),
)

pub length-status : (s : List ℕ) → length (encode (status s)) ≡ length (b'+' ∷ (s ++ 13 ∷ [])) + 1
length-status s = length-append (b'+' ∷ (s ++ 13 ∷ [])) (newline ∷ [])

pub length-bulk : (v : List ℕ) → length (encode (bulk v)) ≡ length (bulk_line v) + 3 + length v
length-bulk v =
    omega (arith, length-append (bulk_line v) (newline ∷ (v ++ crlf)), length-append v crlf)

-- A whole status line is taken off.
pub parse_string_lem :
    (s rest : List ℕ) (m : ℕ)
    → AllNe newline s
    → length (encode (status s)) ≤ m
    → parse_string (encode (status s) ++ rest) (pos m) ≡ ok (pos (length (encode (status s))))
unfolding parse_string
parse_string_lem s rest m h k =
    let line = b'+' ∷ (s ++ 13 ∷ []) in
    let positive : ltb_ℤ (pos m) (pos 1) ≡ false = ground (arith, length-status s) in
    let found : memchr (encode (status s) ++ rest) newline m ≡ some (length line) =
      ap (λ t. memchr t newline m) (append_assoc line (newline ∷ []) rest)
      ∙ memchr-found line rest newline m (status_line-AllNe s h) (omega (arith, length-status s)) in
    rw (positive, found) (ap (λ t. ok (pos t)) (sym (length-status s)))

bulk_size_lem :
    (n p m : ℕ) → bulk_size (pos n) p (pos m) ≡ pos (if leb (p + 3 + n) m then p + 3 + n else 0)
unfolding bulk_size
bulk_size_lem n p m =
    let total : n + (p + 1 + 2) ≡ p + 3 + n = omega arith in
    rw (pos-add_pos n (p + 1 + 2), total) (ground arith)

-- Once the first line of a bulk string is there, the size is known: it is taken off if all of it is
-- there, and nothing is taken off otherwise.
pub parse_bulk_lem :
    (v tail : List ℕ) (m : ℕ)
    → length (bulk_line v) < m
    → let size = length (bulk_line v) + 3 + length v in
      parse_bulk_string (bulk_line v ++ newline ∷ tail) (pos m)
      ≡ ok (pos (if leb size m then size else 0))
unfolding parse_bulk_string
parse_bulk_lem v tail m h =
    let positive : ltb_ℤ (pos m) (pos 1) ≡ false = ground arith in
    let found : memchr (bulk_line v ++ newline ∷ tail) newline m ≡ some (length (bulk_line v)) =
      memchr-found (bulk_line v) tail newline m (bulk_line-AllNe v) h in
    let number : atoi (drop 1 (bulk_line v ++ newline ∷ tail)) ≡ pos (length v) =
      ap atoi (append_assoc (decimal (length v)) (13 ∷ []) (newline ∷ tail))
      ∙ atoi-decimal (length v) 13 (newline ∷ tail) refl in
    rw (positive, found, number) (ap ok (bulk_size_lem (length v) (length (bulk_line v)) m))

abbrev pub nil_line : List ℕ
nil_line = b'$' ∷ b'-' ∷ b'1' ∷ 13 ∷ []

pub nil_line-AllNe : AllNe newline nil_line
nil_line-AllNe = omega arith

-- The reply for a key that is not there is taken off.
pub parse_nil_lem :
    (tail : List ℕ) (m : ℕ)
    → 4 < m
    → parse_bulk_string (nil_line ++ newline ∷ tail) (pos m) ≡ ok (pos 5)
unfolding parse_bulk_string bulk_size
parse_nil_lem tail m h =
    let positive : ltb_ℤ (pos m) (pos 1) ≡ false = ground arith in
    rw
      (
        positive,
        memchr-found nil_line tail newline m nil_line-AllNe h,
        atoi-minus_one (newline ∷ tail),
      )
      refl

-- A line that has not ended is left alone, whatever stale bytes follow it.
pub unended_lem :
    (c : ℕ) (xs stale : List ℕ)
    → AllNe newline (c ∷ xs)
    → (c ≡ b'+' → parse_string (c ∷ xs ++ stale) (pos (length (c ∷ xs))) ≡ ok (pos 0))
      × (c ≡ b'$' → parse_bulk_string (c ∷ xs ++ stale) (pos (length (c ∷ xs))) ≡ ok (pos 0))
unfolding parse_string parse_bulk_string
unended_lem c xs stale h =
    let none_found = memchr-none (c ∷ xs) stale newline h in
    let positive : ltb_ℤ (pos (length (c ∷ xs))) (pos 1) ≡ false = ground arith in
    (λ e. rw (positive, none_found, e) refl, λ e. rw (positive, none_found, e) refl)
