-- ===== src/AppProto/Replies.antt =====
-- The loops that take whole replies off the front of a response, whatever the protocol
-- (agents/redis.c:113-147, agents/memcache.c:74-103).
use lancet_tool.Base.{
  ℕ, zero, suc, ◌+◌, ◌-◌, ◌^◌, ◌≤◌, ◌<◌, ◌≡◌, refl, inl, inr, Next, continue, stop, sym, ap, ◌∙◌,
  List, [], ◌∷◌, ◌++◌, Bool, true, false, ltb, Bool-cases, arith, length, length-append,
  append_assoc, drop, drop-drop, drop-length_append, ok, run_loop, run_loop-exit, run_loop-stop,
  run_loop-continue,
}
use lancet_tool.AppProto.{ByteReqPair, plus, one_message}
use lancet_tool.AppProto.Framing.{plus-zero_right}

module _ {R : Type 0} (encode : R → List ℕ) where
  abbrev pub encode_all : List R → List ℕ
  encode_all [] = []
  encode_all (r ∷ rs) = encode r ++ encode_all rs

  -- The count of these replies.
  abbrev pub count : List R → ByteReqPair
  count rs = record { bytes = length (encode_all rs); reqs = length rs }

  -- One reply counted, and then the others.
  count_lem :
      (res : ByteReqPair) (r : R) (rs : List R)
      → plus (plus res (one_message (length (encode r)))) (count rs) ≡ plus res (count (r ∷ rs))
  count_lem res r rs =
      let b : res.bytes + length (encode r) + length (encode_all rs)
          ≡ res.bytes + length (encode_all (r ∷ rs)) =
        omega (arith, length-append (encode r) (encode_all rs)) in
      let n : res.reqs + 1 + length rs ≡ res.reqs + suc (length rs) = omega arith in rw (b, n) refl

  module _ (IsProper : R → Type 0) where
    abbrev pub AllProper : List R → Type 0
    AllProper [] = Unit {0}
    AllProper (r ∷ rs) = IsProper r × AllProper rs

    module _ {S : Type 0} (vars : ℕ → ByteReqPair → S) (test : S → Bool) (body : S → Next S)
        (mem : List ℕ) (total : ℕ) (part : List ℕ) (k : ℕ) (stale : List ℕ) where
      -- What a round of the loop does with `m` bytes of the response left: it takes the whole reply at
      -- their front, or stops at the `k` bytes of `part` that no reply follows.
      pub record TakesReplies : Type 0 where
        pub reply_pos : (r : R) → 0 < length (encode r)
        pub test_pos : (m : ℕ) (res : ByteReqPair) → 0 < m → test (vars m res) ≡ true
        pub test_zero : (res : ByteReqPair) → test (vars 0 res) ≡ false
        pub round_reply :
            (r : R) (rest : List ℕ) (m : ℕ) (res : ByteReqPair)
            → IsProper r
            → m ≤ total
            → drop (total - m) mem ≡ encode r ++ rest
            → length (encode r) ≤ m
            → res.bytes + m < 2 ^ 64
            → res.reqs ≤ res.bytes
            → body (vars m res)
              ≡ continue (vars (m - length (encode r)) (plus res (one_message (length (encode r)))))
        pub round_part :
            (res : ByteReqPair)
            → 0 < k
            → k ≤ total
            → drop (total - k) mem ≡ part ++ stale
            → body (vars k res) ≡ stop (vars k res)

      module _ (takes : TakesReplies) where
        abbrev rest_of : List R → List ℕ
        rest_of rs = encode_all rs ++ (part ++ stale)

        -- Behind a reply that was taken off stand the others.
        rest_lem :
            (r : R) (rs : List R) (m : ℕ)
            → m ≤ total
            → length (encode r) ≤ m
            → drop (total - m) mem ≡ rest_of (r ∷ rs)
            → drop (total - (m - length (encode r))) mem ≡ rest_of rs
        rest_lem r rs m le fits at =
            let n = length (encode r) in
            let shift : total - (m - n) ≡ total - m + n = omega arith in
            ap (λ i. drop i mem) shift
            ∙ sym (drop-drop n (total - m) mem)
            ∙ ap (drop n) (at ∙ append_assoc (encode r) (encode_all rs) (part ++ stale))
            ∙ drop-length_append (encode r) (rest_of rs)

        -- What the loop does from any reply on. The part at the end stops it.
        pub loop_lem :
            (rs : List R) (fuel m : ℕ) (res : ByteReqPair)
            → AllProper rs
            → m ≡ length (encode_all rs) + k
            → m ≤ total
            → drop (total - m) mem ≡ rest_of rs
            → length rs < fuel
            → res.bytes + m < 2 ^ 64
            → res.reqs ≤ res.bytes
            → run_loop fuel test body (vars m res) ≡ ok (vars k (plus res (count rs)))
        loop_lem rs zero m res ps e le at f fits order = absurd (omega arith)
        loop_lem [] (suc fuel) m res ps e le at f fits order =
            let same : m ≡ k = omega arith in
            let done : ok (vars m res) ≡ ok (vars k (plus res (count []))) =
              ap (λ n. ok (vars n res)) same
              ∙ ap (λ t. ok (vars k t)) (sym (plus-zero_right res)) in
            elim (Bool-cases (ltb 0 k)) [
              | inl some_left ↦
                  let more : 0 < k = ground arith in
                  let at_k : drop (total - k) mem ≡ part ++ stale =
                    ap (λ n. drop (total - n) mem) (sym same) ∙ at in
                  let halt : body (vars m res) ≡ stop (vars m res) =
                    ap (λ n. body (vars n res)) same
                    ∙ takes.round_part res more (omega arith) at_k
                    ∙ ap (λ n. stop (vars n res)) (sym same) in
                  run_loop-stop fuel test body (vars m res) (takes.test_pos m res (omega arith))
                    halt
                  ∙ done
              | inr none_left ↦
                  let empty : m ≡ 0 = ground arith in
                  run_loop-exit fuel test body (vars m res)
                    (ap (λ n. test (vars n res)) empty ∙ takes.test_zero res)
                  ∙ done
            ]
        loop_lem (r ∷ rs) (suc fuel) m res ps e le at f fits order =
            let n = length (encode r) in
            let size : length (encode_all (r ∷ rs)) ≡ n + length (encode_all rs) =
              length-append (encode r) (encode_all rs) in
            let positive : 0 < n = takes.reply_pos r in
            let within : n ≤ m = omega arith in
            let next : body (vars m res) ≡ continue (vars (m - n) (plus res (one_message n))) =
              takes.round_reply r (rest_of rs) m res ps.0 le
                (at ∙ append_assoc (encode r) (encode_all rs) (part ++ stale)) within fits order in
            run_loop-continue fuel test body (vars m res) (takes.test_pos m res (omega arith)) next
            ∙ loop_lem rs fuel (m - n) (plus res (one_message n)) ps.1 (omega arith) (omega arith)
                (rest_lem r rs m le within at) (omega arith) (omega arith) (omega arith)
            ∙ ap (λ t. ok (vars k t)) (count_lem res r rs)
