-- ===== src/Libc/Padded.antt =====
-- Numbers printed with leading zeros, as the format "%0*d" does.
use lancet_tool.Base.{
  ℕ, zero, suc, ◌+◌, ◌/◌, ◌%◌, ◌^◌, ◌≤◌, ◌<◌, ◌≡◌, refl, sym, ap, ◌∙◌, List, [], ◌∷◌, ◌++◌, ltb,
  arith, length, append-nil, Bool-cases, inl, inr, replicate, length-append,
}
use native.Mathlib.Nat.{div-lt_iff_lt-mul, pow-suc}
use lancet_tool.Libc.{read_digits, decimal_digits, decimal}
use lancet_tool.Libc.Decimal.{digits_value, read_digits-nil}

-- Leading zeros do not change the number that is read.
read_digits-zeros :
    (k : ℕ) (rest : List ℕ) → read_digits 0 (replicate k b'0' ++ rest) ≡ read_digits 0 rest
unfolding read_digits
read_digits-zeros zero rest = refl
read_digits-zeros (suc k) rest = read_digits-zeros k rest

pub padded_value : (k n : ℕ) → read_digits 0 (replicate k b'0' ++ decimal n) ≡ n
unfolding decimal
padded_value k n =
    read_digits-zeros k (decimal n)
    ∙ ap (read_digits 0) (sym (append-nil (decimal n)))
    ∙ digits_value (suc n) n [] (omega arith)
    ∙ read_digits-nil n

length-decimal_digits :
    (f n size : ℕ) → n < f → 0 < size → n < 10 ^ size → length (decimal_digits f n) ≤ size
unfolding decimal_digits
length-decimal_digits zero n size h p lt = absurd (omega arith)
length-decimal_digits (suc f) n zero h p lt = absurd (omega arith)
length-decimal_digits (suc f) n (suc size) h p lt = elim (Bool-cases (ltb n 10)) [
  | inl small ↦ rw small (omega arith)
  | inr large ↦
      let fewer : n / 10 < 10 ^ size =
        (div-lt_iff_lt-mul {k = 10} (omega arith)).1 (rw (pow-suc 10 size) at lt) in
      let more : 0 < size = size_pos size fewer (ground arith) in
      rw large (
        omega (
          arith,
          length-decimal_digits f (n / 10) size (ground arith) more fewer,
          length-append (decimal_digits f (n / 10)) ((b'0' + n % 10) ∷ []),
        ))
]
  where
    size_pos : (k : ℕ) → n / 10 < 10 ^ k → 10 ≤ n → 0 < k
    size_pos zero a b = absurd (omega arith)
    size_pos (suc k) a b = omega arith

-- A number below `10 ^ size` has at most `size` digits.
pub length-decimal : (n size : ℕ) → 0 < size → n < 10 ^ size → length (decimal n) ≤ size
unfolding decimal
length-decimal n size p lt = length-decimal_digits (suc n) n size (omega arith) p lt
