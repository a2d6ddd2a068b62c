-- ===== src/Memcache/Ascii/Search.antt =====
-- `strchnth` (agents/memcache.c:48-59) finds the occurrence that it is asked for.
use lancet_tool.Base.{
  ℕ, zero, suc, ◌+◌, ◌≤◌, ◌<◌, ◌≡◌, ◌≢◌, ◌⊎◌, inl, inr, refl, sym, ap, subst, ◌∙◌, List, [], ◌∷◌,
  ◌++◌, some, none, ◌==◌, if◌then◌else◌, Bool-cases, ==_iff, ==_of_ne, ==_refl, arith, length,
  length-append, append_assoc, take, drop-length_append, ok,
}
use lancet_tool.Libc.Decimal.{AllNe}
use lancet_tool.Memcache.Ascii.{strchr, strchnth_from}

-- A byte that the text before it does not hold is found behind that text.
strchr-found :
    (c : ℕ) (w rest : List ℕ)
    → AllNe c w
    → AllNe 0 w
    → strchr (w ++ c ∷ rest) c ≡ ok (some (length w))
unfolding strchr
strchr-found c [] rest h k = rw (==_refl c) refl
strchr-found c (x ∷ w) rest (h, hs) (k, ks) =
    rw (==_of_ne x c h, ==_of_ne x 0 k, strchr-found c w rest hs ks) refl

strchr-missing :
    (c : ℕ) (w rest : List ℕ) → c ≢ 0 → AllNe c w → AllNe 0 w → strchr (w ++ 0 ∷ rest) c ≡ ok none
unfolding strchr
strchr-missing c [] rest n h k = rw (==_of_ne 0 c (λ e. n (sym e))) refl
strchr-missing c (x ∷ w) rest n (h, hs) (k, ks) =
    rw (==_of_ne x c h, ==_of_ne x 0 k, strchr-missing c w rest n hs ks) refl

-- One more occurrence found.
strchnth_from-found :
    (rounds c : ℕ) (front w rest : List ℕ)
    → AllNe c w
    → AllNe 0 w
    → strchnth_from (suc rounds) (length front) (front ++ (w ++ c ∷ rest)) c
      ≡ strchnth_from rounds (length front + length w + 1) (front ++ (w ++ c ∷ rest)) c
unfolding strchnth_from
strchnth_from-found rounds c front w rest h k =
    rw (drop-length_append front (w ++ c ∷ rest), strchr-found c w rest h k) refl

strchnth_from-missing :
    (rounds c : ℕ) (front w rest : List ℕ)
    → c ≢ 0
    → AllNe c w
    → AllNe 0 w
    → strchnth_from (suc rounds) (length front) (front ++ (w ++ 0 ∷ rest)) c ≡ ok none
unfolding strchnth_from
strchnth_from-missing rounds c front w rest n h k =
    rw (drop-length_append front (w ++ 0 ∷ rest), strchr-missing c w rest n h k) refl

-- How often a byte stands in a text.
abbrev pub occurrences : ℕ → List ℕ → ℕ
occurrences c [] = 0
occurrences c (x ∷ w) = let later = occurrences c w in if x == c then suc later else later

pub occurrences-append :
    (c : ℕ) (v w : List ℕ) → occurrences c (v ++ w) ≡ occurrences c v + occurrences c w
occurrences-append c [] w = omega arith
occurrences-append c (x ∷ v) w = ground (arith, occurrences-append c v w)

pub occurrences-take : (c k : ℕ) (w : List ℕ) → occurrences c (take k w) ≤ occurrences c w
occurrences-take c zero w = omega arith
occurrences-take c (suc k) [] = omega arith
occurrences-take c (suc k) (x ∷ w) = ground (arith, occurrences-take c k w)

pub occurrences-AllNe : (c : ℕ) (w : List ℕ) → AllNe c w → occurrences c w ≡ 0
occurrences-AllNe c [] h = refl
occurrences-AllNe c (x ∷ w) (h, hs) = rw (==_of_ne x c h) (occurrences-AllNe c w hs)

-- A text is cut at the first of these.
cut_first :
    (c : ℕ) (w : List ℕ)
    → (AllNe c w)
      ⊎ ((u : List ℕ) × (v : List ℕ) × (w ≡ u ++ c ∷ v)
          × (AllNe c u)
          × (occurrences c w ≡ suc (occurrences c v)))
cut_first c [] = inl tt
cut_first c (x ∷ w) = elim (Bool-cases (x == c)) [
  | inl same ↦
      let e : x ≡ c = (==_iff x c).0 same in inr ([], w, ap (λ t. t ∷ w) e, tt, rw same refl)
  | inr other ↦
      let ne : x ≢ c = ground arith in
      elim (cut_first c w) [
        | inl none_left ↦ inl (ne, none_left)
        | inr (u, v, e, h, n) ↦ inr (x ∷ u, v, ap (◌∷◌ x) e, (ne, h), rw other n)
      ]
]

-- The parts of a text without a byte are without it.
AllNe-parts : (c : ℕ) (v w : List ℕ) → AllNe c (v ++ w) → AllNe c v × AllNe c w
AllNe-parts c [] w h = (tt, h)
AllNe-parts c (x ∷ v) w (h, hs) = let (a, b) = AllNe-parts c v w hs in ((h, a), b)

-- The text up to a place found goes to the front.
shift_front :
    (rounds c : ℕ) (front u rest : List ℕ)
    → strchnth_from rounds (length front + length u + 1) (front ++ (u ++ c ∷ rest)) c
      ≡ strchnth_from rounds (length (front ++ (u ++ c ∷ []))) ((front ++ (u ++ c ∷ [])) ++ rest) c
shift_front rounds c front u rest =
    let n : length front + length u + 1 ≡ length (front ++ (u ++ c ∷ [])) =
      omega (arith, length-append front (u ++ c ∷ []), length-append u (c ∷ [])) in
    let e : front ++ (u ++ c ∷ rest) ≡ (front ++ (u ++ c ∷ [])) ++ rest = simp append_assoc in
    ap (λ t. strchnth_from rounds t (front ++ (u ++ c ∷ rest)) c) n
    ∙ ap (λ t. strchnth_from rounds (length (front ++ (u ++ c ∷ []))) t c) e

-- The last of the occurrences that are asked for.
pub strchnth_from-last :
    (rounds c : ℕ) (front w rest : List ℕ)
    → occurrences c w ≡ rounds
    → AllNe 0 w
    → strchnth_from (suc rounds) (length front) (front ++ (w ++ c ∷ rest)) c
      ≡ ok (some (length front + length w + 1))
unfolding strchnth_from
strchnth_from-last zero c front w rest n k = elim (cut_first c w) [
  | inl h ↦ strchnth_from-found 0 c front w rest h k
  | inr (u, v, e, h, m) ↦ absurd (omega (arith, m, n))
]
strchnth_from-last (suc rounds) c front w rest n k = elim (cut_first c w) [
  | inl h ↦ absurd (omega (arith, n, occurrences-AllNe c w h))
  | inr (u, v, e, h, m) ↦
      let (ku, kv) = AllNe-parts 0 u (c ∷ v) (subst (AllNe 0) e k) in
      let mem : front ++ (w ++ c ∷ rest) ≡ front ++ (u ++ c ∷ (v ++ c ∷ rest)) =
        ap (λ t. front ++ (t ++ c ∷ rest)) e
        ∙ ap (λ t. front ++ t) (append_assoc u (c ∷ v) (c ∷ rest)) in
      let size : length (front ++ (u ++ c ∷ [])) + length v + 1 ≡ length front + length w + 1 =
        omega (
          arith,
          length-append front (u ++ c ∷ []),
          length-append u (c ∷ []),
          length-append u (c ∷ v),
          ap length e,
        ) in
      ap (λ t. strchnth_from (suc (suc rounds)) (length front) t c) mem
      ∙ strchnth_from-found (suc rounds) c front u (v ++ c ∷ rest) h ku
      ∙ shift_front (suc rounds) c front u (v ++ c ∷ rest)
      ∙ strchnth_from-last rounds c (front ++ (u ++ c ∷ [])) v rest (omega (arith, m, n)) kv.1
      ∙ ap (λ t. ok (some t)) size
]

-- Fewer occurrences before the NUL than are asked for.
pub strchnth_from-few :
    (rounds c : ℕ) (front w rest : List ℕ)
    → c ≢ 0
    → occurrences c w < rounds
    → AllNe 0 w
    → strchnth_from rounds (length front) (front ++ (w ++ 0 ∷ rest)) c ≡ ok none
unfolding strchnth_from
strchnth_from-few zero c front w rest ne n k = absurd (omega arith)
strchnth_from-few (suc rounds) c front w rest ne n k = elim (cut_first c w) [
  | inl h ↦ strchnth_from-missing rounds c front w rest ne h k
  | inr (u, v, e, h, m) ↦
      let (ku, kv) = AllNe-parts 0 u (c ∷ v) (subst (AllNe 0) e k) in
      let mem : front ++ (w ++ 0 ∷ rest) ≡ front ++ (u ++ c ∷ (v ++ 0 ∷ rest)) =
        ap (λ t. front ++ (t ++ 0 ∷ rest)) e
        ∙ ap (λ t. front ++ t) (append_assoc u (c ∷ v) (0 ∷ rest)) in
      ap (λ t. strchnth_from (suc rounds) (length front) t c) mem
      ∙ strchnth_from-found rounds c front u (v ++ 0 ∷ rest) h ku
      ∙ shift_front rounds c front u (v ++ 0 ∷ rest)
      ∙ strchnth_from-few rounds c (front ++ (u ++ c ∷ [])) v rest ne (omega (arith, m, n)) kv.1
]
