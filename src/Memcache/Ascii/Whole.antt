-- ===== src/Memcache/Ascii/Whole.antt =====
-- `memcache_ascii_consume_response` (agents/memcache.c:61-107) on a whole buffer of replies.
use lancet_tool.Base.{
  ℕ, zero, suc, ◌+◌, ◌-◌, ◌^◌, ◌≤◌, ◌<◌, ◌≡◌, refl, ap, ◌∙◌, List, [], ◌∷◌, ◌++◌, Bool, not, eqb_ℤ,
  pos, arith, length, length-append, take, drop, ok, ◌>>=◌, continue, stop,
}
use lancet_tool.AppProto.{ByteReqPair, zero_pair}
use lancet_tool.AppProto.Framing.{plus-zero}
use lancet_tool.AppProto.Replies.{encode_all, count, AllProper, TakesReplies, loop_lem}
use lancet_tool.Memcache.Ascii.{AsciiVars, ascii_round, memcache_ascii_consume_response}
use lancet_tool.Memcache.Ascii.Replies.{
  Reply, encode, IsProper, vars, counted_lem, length-encode, ascii_reply-whole, ascii_reply-part,
}

abbrev test : AsciiVars → Bool
test s = not (eqb_ℤ s.bytes_to_process (pos 0))

-- The front of a reply that is not there as a whole.
part_lem :
    (mem : List ℕ) (total : ℕ) (last : Reply) (k : ℕ) (stale : List ℕ) (res : ByteReqPair)
    → IsProper last
    → k < length (encode last)
    → 0 < k
    → drop (total - k) mem ≡ take k (encode last) ++ 0 ∷ stale
    → ascii_round (record { iov_base = mem; iov_len = total }) (vars k res) ≡ stop (vars k res)
unfolding ascii_round
part_lem mem total last zero stale res p lt more at = absurd (omega arith)
part_lem mem total last (suc k) stale res p lt more at =
    rw at (ascii_reply-part last k stale (vars (suc k) res) p lt)

-- The rounds of the loop take replies.
ascii_round-TakesReplies :
    (mem : List ℕ) (total : ℕ) (last : Reply) (k : ℕ) (stale : List ℕ)
    → IsProper last
    → k < length (encode last)
    → TakesReplies encode IsProper vars test
        (ascii_round (record { iov_base = mem; iov_len = total }))
        mem
        total
        (take k (encode last))
        k
        (0 ∷ stale)
unfolding ascii_round
ascii_round-TakesReplies mem total last k stale p lt = record {
  reply_pos = λ r. omega (arith, length-encode r);
  test_pos = λ m res h. ground arith;
  test_zero = λ res. refl;
  round_reply = λ r rest m res ps le at within fits order.
      rw at (ascii_reply-whole r rest m (vars m res) ps within)
      ∙ ap continue (
          counted_lem (length (encode r)) m res (omega (arith, length-encode r)) within fits order);
  round_part = λ res more le at. part_lem mem total last k stale res p lt more at;
}

length-encode_all : (rs : List Reply) → length rs ≤ length (encode_all encode rs)
length-encode_all [] = omega arith
length-encode_all (r ∷ rs) =
    omega (
      arith,
      length-encode r,
      length-append (encode r) (encode_all encode rs),
      length-encode_all rs,
    )

-- `memcache_ascii_consume_response` on a buffer that holds whole replies, then the first `k` bytes of
-- another reply (`k` may be 0), and behind the `iov_len` bytes of the response a NUL: it returns, and
-- counts exactly the whole replies and their bytes, when no line and no value has a newline or a NUL
-- inside and the `int` holds the length.
pub memcache_ascii_consume_response_lem :
    (rs : List Reply) (last : Reply) (k : ℕ) (stale : List ℕ)
    → AllProper encode IsProper rs
    → IsProper last
    → k < length (encode last)
    → length (encode_all encode rs) + k < 2 ^ 31
    → memcache_ascii_consume_response (record {
      iov_base = encode_all encode rs ++ (take k (encode last) ++ 0 ∷ stale);
      iov_len = length (encode_all encode rs) + k;
    })
      ≡ ok (record { bytes = length (encode_all encode rs); reqs = length rs })
unfolding memcache_ascii_consume_response
memcache_ascii_consume_response_lem rs last k stale ps p lt fits =
    let total = length (encode_all encode rs) + k in
    let part = take k (encode last) in
    let mem = encode_all encode rs ++ (part ++ 0 ∷ stale) in
    let start : drop (total - total) mem ≡ mem =
      ap (λ i. drop i mem) (let z : total - total ≡ 0 = omega arith in z) in
    ap (λ o. o >>= λ s. ok s.res)
      (loop_lem encode IsProper vars test (ascii_round (record { iov_base = mem; iov_len = total }))
        mem total part k (0 ∷ stale) (ascii_round-TakesReplies mem total last k stale p lt) rs
        (total + 2) total zero_pair ps refl (omega arith) start
        (omega (arith, length-encode_all rs)) (omega arith) (omega arith))
    ∙ ap ok (plus-zero (count encode rs))
