-- ===== src/Timespec.antt =====
-- `struct timespec` and `timespec_diff` (agents/timestamping.c:320-341).
use lancet_tool.Base.{
  ℕ, ◌+◌, ◌*◌, ◌≡◌, ℤ, pos, ◌-ℤ◌, ◌≤ℤ◌, ltb_ℤ, pos_part, neg_part, sub_ℕ, Bool, ◌||◌, if◌then◌else◌,
  Option, some, none, ◌==◌, int_laws, refl, arith, inl, inr, true, Bool-cases, ltb→lt, ltb_false→le,
  ◌-◌, false,
}

pub record TimeSpec : Type 0 where
  pub tv_sec : ℤ
  pub tv_nsec : ℤ

abbrev pub billion : ℕ
billion = 1_000_000_000

abbrev pub is_zero : ℤ → Bool
is_zero x = pos_part x + neg_part x == 0

diff_fields : TimeSpec → TimeSpec → TimeSpec
diff_fields a b =
    if ltb_ℤ a.tv_nsec b.tv_nsec
    then record {
      tv_sec = a.tv_sec -ℤ pos 1 -ℤ b.tv_sec;
      tv_nsec = pos billion -ℤ (b.tv_nsec -ℤ a.tv_nsec);
    }
    else record { tv_sec = a.tv_sec -ℤ b.tv_sec; tv_nsec = a.tv_nsec -ℤ b.tv_nsec }

-- `timespec_diff`: `none` for a pointer is NULL, and for the result it is the status -1, with `*res`
-- as it was. A `long` that overflows is outside the model.
unfoldable pub timespec_diff : Option TimeSpec → Option TimeSpec → Option TimeSpec
unfolding diff_fields
timespec_diff none b = none
timespec_diff (some a) none = none
timespec_diff (some a) (some b) =
    if is_zero a.tv_sec || is_zero b.tv_sec then none else some (diff_fields a b)

-- A time as the kernel reports it: the nanoseconds are a proper fraction of a second.
pub record IsNormal (t : TimeSpec) : Type 0 where
  pub low : pos 0 ≤ℤ t.tv_nsec
  pub high : t.tv_nsec ≤ℤ pos (billion - 1)

-- The time in nanoseconds.
unfoldable pub to_ns : TimeSpec → ℤ
to_ns t =
    sub_ℕ (billion * pos_part t.tv_sec + pos_part t.tv_nsec)
      (billion * neg_part t.tv_sec + neg_part t.tv_nsec)

to_ns_parts :
    (t : TimeSpec)
    → pos_part (to_ns t) + billion * neg_part t.tv_sec + neg_part t.tv_nsec
      ≡ neg_part (to_ns t) + billion * pos_part t.tv_sec + pos_part t.tv_nsec
unfolding to_ns
to_ns_parts t = ground arith

-- Of two proper times with seconds that are not 0, the difference is exact, and is a proper time.
pub timespec_diff_lem :
    (a b : TimeSpec)
    → IsNormal a
    → IsNormal b
    → is_zero a.tv_sec ≡ false
    → is_zero b.tv_sec ≡ false
    → (d : TimeSpec) × (timespec_diff (some a) (some b) ≡ some d)
      × IsNormal d
      × (to_ns d ≡ to_ns a -ℤ to_ns b)
unfolding timespec_diff
timespec_diff_lem a b na nb za zb = elim (Bool-cases (ltb_ℤ a.tv_nsec b.tv_nsec)) [
  | inl borrow ↦
      let lt = ltb→lt _ _ borrow in
      (
        record {
          tv_sec = a.tv_sec -ℤ pos 1 -ℤ b.tv_sec;
          tv_nsec = pos billion -ℤ (b.tv_nsec -ℤ a.tv_nsec);
        },
        rw (za, zb, borrow) refl,
        omega int_laws,
        omega (int_laws, to_ns_parts _, to_ns_parts a, to_ns_parts b),
      )
  | inr plain ↦
      let le = ltb_false→le _ _ plain in
      (
        record { tv_sec = a.tv_sec -ℤ b.tv_sec; tv_nsec = a.tv_nsec -ℤ b.tv_nsec },
        rw (za, zb, plain) refl,
        omega int_laws,
        omega (int_laws, to_ns_parts _, to_ns_parts a, to_ns_parts b),
      )
]

-- A time that was never set has no difference to another.
pub timespec_diff_unset :
    (a b : TimeSpec) → is_zero b.tv_sec ≡ true → timespec_diff (some a) (some b) ≡ none
unfolding timespec_diff
timespec_diff_unset a b z = ground arith
