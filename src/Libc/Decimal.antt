-- ===== src/Libc/Decimal.antt =====
-- `atoi` reads back what `sprintf` prints, and `memchr` finds the first byte of its kind.
use lancet_tool.Base.{
  ℕ, zero, suc, ◌+◌, ◌-◌, ◌*◌, ◌/◌, ◌%◌, ◌≤◌, ◌<◌, ◌≡◌, ◌≢◌, refl, sym, ap, ◌∙◌, List, [], ◌∷◌,
  ◌++◌, some, none, true, false, ltb, pos, negsuc, arith, length, append-nil, take, Bool-cases, inl,
  inr, ==_of_ne, ==_refl,
}
use lancet_tool.Libc.{memchr, is_digit, is_space, read_digits, atoi, decimal_digits, decimal}

abbrev pub AllNe : ℕ → List ℕ → Type 0
AllNe c [] = Unit {0}
AllNe c (x ∷ xs) = (x ≢ c) × AllNe c xs

pub AllNe-append : (c : ℕ) (xs ys : List ℕ) → AllNe c xs → AllNe c ys → AllNe c (xs ++ ys)
AllNe-append c [] ys h k = k
AllNe-append c (x ∷ xs) ys (h, hs) k = (h, AllNe-append c xs ys hs k)

pub AllNe-take : (c n : ℕ) (xs : List ℕ) → AllNe c xs → AllNe c (take n xs)
AllNe-take c zero xs h = tt
AllNe-take c (suc n) [] h = tt
AllNe-take c (suc n) (x ∷ xs) (h, hs) = (h, AllNe-take c n xs hs)

pub memchr-found :
    (xs rest : List ℕ) (c n : ℕ)
    → AllNe c xs
    → length xs < n
    → memchr (xs ++ c ∷ rest) c n ≡ some (length xs)
unfolding memchr
memchr-found xs rest c zero h k = absurd (omega arith)
memchr-found [] rest c (suc n) h k = rw (==_refl c) refl
memchr-found (x ∷ xs) rest c (suc n) (h, hs) k =
    rw (==_of_ne x c h, memchr-found xs rest c n hs (omega arith)) refl

pub memchr-none : (xs rest : List ℕ) (c : ℕ) → AllNe c xs → memchr (xs ++ rest) c (length xs) ≡ none
unfolding memchr
memchr-none [] rest c h = refl
memchr-none (x ∷ xs) rest c (h, hs) = rw (==_of_ne x c h, memchr-none xs rest c hs) refl

abbrev pub AllDigits : List ℕ → Type 0
AllDigits [] = Unit {0}
AllDigits (x ∷ xs) = ((b'0' ≤ x) × (x ≤ b'9')) × AllDigits xs

pub AllDigits-AllNe : (c : ℕ) (xs : List ℕ) → c < b'0' → AllDigits xs → AllNe c xs
AllDigits-AllNe c [] h d = tt
AllDigits-AllNe c (x ∷ xs) h (d, ds) = (omega arith, AllDigits-AllNe c xs h ds)

AllDigits-snoc :
    (xs : List ℕ) (x : ℕ) → AllDigits xs → b'0' ≤ x → x ≤ b'9' → AllDigits (xs ++ x ∷ [])
AllDigits-snoc [] x d lo hi = ((lo, hi), tt)
AllDigits-snoc (y ∷ xs) x (d, ds) lo hi = (d, AllDigits-snoc xs x ds lo hi)

decimal_digits-AllDigits : (f n : ℕ) → AllDigits (decimal_digits f n)
unfolding decimal_digits
decimal_digits-AllDigits zero n = tt
decimal_digits-AllDigits (suc f) n = elim (Bool-cases (ltb n 10)) [
  | inl small ↦ rw small ((ground arith, ground arith), tt)
  | inr large ↦ rw large (
      AllDigits-snoc (decimal_digits f (n / 10)) (b'0' + n % 10)
        (decimal_digits-AllDigits f (n / 10)) (omega arith) (omega arith))
]

pub decimal-AllDigits : (n : ℕ) → AllDigits (decimal n)
unfolding decimal
decimal-AllDigits n = decimal_digits-AllDigits (suc n) n

read_digits-snoc :
    (acc : ℕ) (xs : List ℕ) (x : ℕ) (rest : List ℕ)
    → AllDigits xs
    → b'0' ≤ x
    → x ≤ b'9'
    → is_digit x ≡ true
    → read_digits acc ((xs ++ x ∷ []) ++ rest)
      ≡ read_digits (10 * read_digits acc xs + (x - b'0')) rest
unfolding read_digits
read_digits-snoc acc [] x rest d lo hi t = rw t refl
read_digits-snoc acc (y ∷ xs) x rest (d, ds) lo hi t =
    let digit : is_digit y ≡ true = ground arith in
    rw digit (read_digits-snoc (10 * acc + (y - b'0')) xs x rest ds lo hi t)

pub read_digits-nil : (n : ℕ) → read_digits n [] ≡ n
unfolding read_digits
read_digits-nil n = refl

read_digits-other : (n c : ℕ) (rest : List ℕ) → is_digit c ≡ false → read_digits n (c ∷ rest) ≡ n
unfolding read_digits
read_digits-other n c rest h = rw h refl

pub digits_value :
    (f n : ℕ) (rest : List ℕ)
    → n < f
    → read_digits 0 (decimal_digits f n ++ rest) ≡ read_digits n rest
unfolding decimal_digits
digits_value zero n rest h = absurd (omega arith)
digits_value (suc f) n rest h = elim (Bool-cases (ltb n 10)) [
  | inl small ↦ rw small (
      read_digits-snoc 0 [] (b'0' + n) rest tt (omega arith) (ground arith) (ground arith)
      ∙ ap (λ k. read_digits k rest)
          (rw read_digits-nil (let e : 10 * 0 + (b'0' + n - b'0') ≡ n = omega arith in e)))
  | inr large ↦
      let front = decimal_digits f (n / 10) in
      let inner : read_digits 0 front ≡ n / 10 =
        ap (read_digits 0) (sym (append-nil front))
        ∙ digits_value f (n / 10) [] (ground arith)
        ∙ read_digits-nil (n / 10) in
      rw large (
        read_digits-snoc 0 front (b'0' + n % 10) rest (decimal_digits-AllDigits f (n / 10))
          (omega arith) (omega arith) (ground arith)
        ∙ ap (λ k. read_digits k rest)
            (rw inner (let e : 10 * (n / 10) + (b'0' + n % 10 - b'0') ≡ n = omega arith in e)))
]

snoc-cons : (xs : List ℕ) (y : ℕ) → (d : ℕ) × (ds : List ℕ) × (xs ++ y ∷ [] ≡ d ∷ ds)
snoc-cons [] y = (y, [], refl)
snoc-cons (x ∷ xs) y = (x, xs ++ y ∷ [], refl)

-- Before a digit there is nothing to skip.
atoi-digit :
    (d : ℕ) (cs : List ℕ) → b'0' ≤ d → d ≤ b'9' → atoi (d ∷ cs) ≡ pos (read_digits 0 (d ∷ cs))
unfolding atoi
atoi-digit d cs lo hi =
    let space : is_space d ≡ false = ground arith in
    rw (space, ==_of_ne d b'-' (omega arith), ==_of_ne d b'+' (omega arith)) refl

-- A printed number begins with a digit.
pub decimal-cons : (n : ℕ) → (d : ℕ) × (ds : List ℕ) × (decimal n ≡ d ∷ ds)
unfolding decimal decimal_digits
decimal-cons n = elim (Bool-cases (ltb n 10)) [
  | inl small ↦ (b'0' + n, [], rw small refl)
  | inr large ↦ rw large (snoc-cons (decimal_digits n (n / 10)) (b'0' + n % 10))
]

-- `atoi` of a printed number, with any byte behind it that is no digit, is the number.
pub atoi-decimal :
    (n c : ℕ) (rest : List ℕ) → is_digit c ≡ false → atoi (decimal n ++ c ∷ rest) ≡ pos n
unfolding decimal
atoi-decimal n c rest h =
    let (d, ds, e) = decimal-cons n in
    let digits : AllDigits (d ∷ ds) = rw e at (decimal-AllDigits n) in
    ap (λ t. atoi (t ++ c ∷ rest)) e
    ∙ atoi-digit d (ds ++ c ∷ rest) digits.0.0 digits.0.1
    ∙ ap (λ t. pos (read_digits 0 (t ++ c ∷ rest))) (sym e)
    ∙ ap pos (digits_value (suc n) n (c ∷ rest) (omega arith) ∙ read_digits-other n c rest h)

pub atoi-minus_one : (rest : List ℕ) → atoi (b'-' ∷ b'1' ∷ 13 ∷ rest) ≡ negsuc 0
unfolding atoi read_digits
atoi-minus_one rest = refl

-- The same with nothing behind it.
pub atoi-decimal_alone : (n : ℕ) → atoi (decimal n) ≡ pos n
unfolding decimal
atoi-decimal_alone n =
    let (d, ds, e) = decimal-cons n in
    let digits : AllDigits (d ∷ ds) = rw e at (decimal-AllDigits n) in
    ap atoi e
    ∙ atoi-digit d ds digits.0.0 digits.0.1
    ∙ ap (λ t. pos (read_digits 0 t)) (sym e ∙ sym (append-nil (decimal n)))
    ∙ ap pos (digits_value (suc n) n [] (omega arith) ∙ read_digits-nil n)

-- No printed number holds a byte beyond the digits.
AllDigits-AllNe_above : (c : ℕ) (xs : List ℕ) → b'9' < c → AllDigits xs → AllNe c xs
AllDigits-AllNe_above c [] h d = tt
AllDigits-AllNe_above c (x ∷ xs) h (d, ds) = (omega arith, AllDigits-AllNe_above c xs h ds)

pub decimal-AllNe_above : (c n : ℕ) → b'9' < c → AllNe c (decimal n)
decimal-AllNe_above c n h = AllDigits-AllNe_above c (decimal n) h (decimal-AllDigits n)
