-- ===== src/AppProto/Framing.antt =====
-- What a client of a response parser wants: the responses are messages of a byte stream, and the
-- parser counts the whole ones at its front. `frame` gives the size of the first whole message.
use lancet_tool.Base.{
  ℕ, zero, suc, ◌+◌, ◌≤◌, ◌<◌, ◌≡◌, refl, sym, ap, ◌∙◌, List, ◌++◌, Option, some, none,
  Option-cases, inl, inr, arith, length, drop, length-drop, drop-append_of_le, drop-drop,
}
use lancet_tool.AppProto.{ByteReqPair, zero_pair, plus, one_message}

pub record IsFraming (frame : List ℕ → Option ℕ) : Type 0 where
  pub pos : (xs : List ℕ) (n : ℕ) → frame xs ≡ some n → 0 < n
  pub within : (xs : List ℕ) (n : ℕ) → frame xs ≡ some n → n ≤ length xs
  -- More input does not change the first message.
  pub stable : (xs ys : List ℕ) (n : ℕ) → frame xs ≡ some n → frame (xs ++ ys) ≡ some n

pub plus-zero_right : (a : ByteReqPair) → plus a zero_pair ≡ a
plus-zero_right a = ground arith

pub plus-zero : (a : ByteReqPair) → plus zero_pair a ≡ a
plus-zero a = ground arith

pub plus_assoc : (a b c : ByteReqPair) → plus (plus a b) c ≡ plus a (plus b c)
plus_assoc a b c = ground arith

module _ (frame : List ℕ → Option ℕ) where
  unfoldable pub scan : ℕ → List ℕ → ByteReqPair
  scan zero xs = zero_pair
  scan (suc fuel) xs = elim (frame xs) [
    | none ↦ zero_pair
    | some n ↦ let rest = scan fuel (drop n xs) in plus (one_message n) rest
  ]

  -- All whole messages at the front of a stream.
  abbrev pub decode : List ℕ → ByteReqPair
  decode xs = scan (length xs) xs

  pub scan-none : (fuel : ℕ) (xs : List ℕ) → frame xs ≡ none → scan fuel xs ≡ zero_pair
  unfolding scan
  scan-none zero xs e = refl
  scan-none (suc fuel) xs e = rw (e, scan)

  pub scan-some :
      (fuel : ℕ) (xs : List ℕ) (n : ℕ)
      → frame xs ≡ some n
      → scan (suc fuel) xs ≡ plus (one_message n) (scan fuel (drop n xs))
  unfolding scan
  scan-some fuel xs n e = rw (e, scan)

  module _ (law : IsFraming frame) where
    -- A stream with no bytes, or no fuel for them, holds no message.
    pub frame_of_nil : (xs : List ℕ) → length xs ≤ 0 → frame xs ≡ none
    frame_of_nil xs h = elim (Option-cases (frame xs)) [
      | inl e ↦ e
      | inr (n, e) ↦ absurd (omega (arith, law.pos xs n e, law.within xs n e))
    ]

    -- Fuel beyond the length of the stream changes nothing.
    pub scan-fuel : (f g : ℕ) (xs : List ℕ) → length xs ≤ f → length xs ≤ g → scan f xs ≡ scan g xs
    scan-fuel zero g xs hf hg =
        scan-none zero xs (frame_of_nil xs hf) ∙ sym (scan-none g xs (frame_of_nil xs hf))
    scan-fuel (suc f) zero xs hf hg =
        scan-none (suc f) xs (frame_of_nil xs hg) ∙ sym (scan-none zero xs (frame_of_nil xs hg))
    scan-fuel (suc f) (suc g) xs hf hg = elim (Option-cases (frame xs)) [
      | inl e ↦ scan-none (suc f) xs e ∙ sym (scan-none (suc g) xs e)
      | inr (n, e) ↦
          let left : length (drop n xs) ≤ f =
            omega (arith, law.pos xs n e, law.within xs n e, length-drop n xs) in
          let right : length (drop n xs) ≤ g =
            omega (arith, law.pos xs n e, law.within xs n e, length-drop n xs) in
          scan-some f xs n e
          ∙ ap (plus (one_message n)) (scan-fuel f g (drop n xs) left right)
          ∙ sym (scan-some g xs n e)
    ]

    pub decode-some :
        (xs : List ℕ) (n : ℕ)
        → frame xs ≡ some n
        → decode xs ≡ plus (one_message n) (decode (drop n xs))
    decode-some xs n e =
        scan-fuel (length xs) (suc (length xs)) xs (omega arith) (omega arith)
        ∙ scan-some (length xs) xs n e
        ∙ ap (plus (one_message n)) (
            scan-fuel (length xs) (length (drop n xs)) (drop n xs) (omega (arith, length-drop n xs))
              (omega arith))

    -- No more bytes are counted than there are, and requests are counted exactly when bytes are.
    pub scan_bounds :
        (f : ℕ) (xs : List ℕ)
        → ((scan f xs).bytes ≤ length xs)
          × ((scan f xs).reqs ≤ (scan f xs).bytes)
          × (0 < (scan f xs).bytes → 0 < (scan f xs).reqs)
    unfolding scan
    scan_bounds zero xs = omega arith
    scan_bounds (suc f) xs = elim (Option-cases (frame xs)) [
      | inl e ↦ rw (scan-none (suc f) xs e) (omega arith)
      | inr (n, e) ↦ rw (scan-some f xs n e) (
          omega
            (arith, law.pos xs n e, law.within xs n e, length-drop n xs, scan_bounds f (drop n xs)))
    ]

    -- A stream may be cut anywhere: what is decoded of the first part stays decoded, and the rest
    -- is decoded with the bytes that follow.
    pub scan-append :
        (f : ℕ) (xs ys : List ℕ)
        → length xs ≤ f
        → decode (xs ++ ys) ≡ plus (scan f xs) (decode (drop (scan f xs).bytes xs ++ ys))
    unfolding scan
    scan-append zero xs ys h = sym (plus-zero (decode (xs ++ ys)))
    scan-append (suc f) xs ys h = elim (Option-cases (frame xs)) [
      | inl e ↦ rw (scan-none (suc f) xs e) (sym (plus-zero (decode (xs ++ ys))))
      | inr (n, e) ↦
          let r = scan f (drop n xs) in
          let short : length (drop n xs) ≤ f =
            omega (arith, law.pos xs n e, law.within xs n e, length-drop n xs) in
          decode-some (xs ++ ys) n (law.stable xs ys n e)
          ∙ rw (drop-append_of_le n xs ys (law.within xs n e), scan-append f (drop n xs) ys short)
              (rw (scan-some f xs n e, drop-drop r.bytes n xs)
                (sym (plus_assoc (one_message n) r (decode (drop (n + r.bytes) xs ++ ys)))))
    ]
