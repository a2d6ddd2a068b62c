-- ===== src/Libc.antt =====
-- What the agents use of the C standard library on bytes: memchr, atoi, and sprintf of a number.
pub mod Decimal
pub mod Padded
pub mod Strings
use lancet_tool.Base.{
  ℕ, zero, suc, ◌+◌, ◌-◌, ◌*◌, ◌/◌, ◌%◌, List, [], ◌∷◌, ◌++◌, Option, some, none, Bool, true, false,
  ◌||◌, ◌&&◌, ◌==◌, leb, ltb, if◌then◌else◌, ℤ, pos, sub_ℕ,
}

-- `memchr(xs, c, n)`, as an offset.
pub memchr : List ℕ → ℕ → ℕ → Option ℕ
memchr xs c zero = none
memchr [] c (suc n) = none
memchr (x ∷ xs) c (suc n) =
    let later : Option ℕ = elim (memchr xs c n) [ none ↦ none | some i ↦ some (suc i) ] in
    if x == c then some 0 else later

abbrev pub is_digit : ℕ → Bool
is_digit c = leb b'0' c && leb c b'9'

-- `isspace`
abbrev pub is_space : ℕ → Bool
is_space c = c == 32 || (leb 9 c && leb c 13)

-- The digits of a number up to the first other byte.
unfoldable pub read_digits : ℕ → List ℕ → ℕ
read_digits acc [] = acc
read_digits acc (c ∷ cs) =
    let more = read_digits (10 * acc + (c - b'0')) cs in if is_digit c then more else acc

read_signed : List ℕ → ℤ
read_signed [] = pos 0
read_signed (c ∷ cs) =
    if c == b'-'
    then sub_ℕ 0 (read_digits 0 cs)
    else if c == b'+'
    then pos (read_digits 0 cs)
    else pos (read_digits 0 (c ∷ cs))

-- `atoi`. A number beyond an `int` is undefined in C; here it is itself.
unfoldable pub atoi : List ℕ → ℤ
unfolding read_signed read_digits
atoi [] = pos 0
atoi (c ∷ cs) = let skipped = atoi cs in if is_space c then skipped else read_signed (c ∷ cs)

-- `sprintf("%d", n)` of a number that is not negative; the fuel is more than the digits.
unfoldable decimal_digits : ℕ → ℕ → List ℕ
decimal_digits zero n = []
decimal_digits (suc fuel) n =
    let front = decimal_digits fuel (n / 10) in
    if ltb n 10 then (b'0' + n) ∷ [] else front ++ (b'0' + n % 10) ∷ []

unfoldable pub decimal : ℕ → List ℕ
unfolding decimal_digits
decimal n = decimal_digits (suc n) n
