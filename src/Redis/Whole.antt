-- ===== src/Redis/Whole.antt =====
-- `redis_kv_consume_response` (agents/redis.c:113-147) on a whole buffer of replies.
use lancet_tool.Base.{
  ℕ, ◌+◌, ◌-◌, ◌^◌, ◌<◌, ◌≡◌, refl, ap, ◌∙◌, List, ◌++◌, Bool, not, eqb_ℤ, pos, arith, length, take,
  drop, ok, ◌>>=◌,
}
use lancet_tool.AppProto.{zero_pair}
use lancet_tool.AppProto.Framing.{plus-zero}
use lancet_tool.AppProto.Replies.{encode_all, count, AllProper, TakesReplies, loop_lem}
use lancet_tool.Redis.{RedisVars, redis_round, redis_kv_consume_response}
use lancet_tool.Redis.Replies.{Reply, encode, IsProper}
use lancet_tool.Redis.Stream.{vars, resp, encode_pos, took_lem, round_reply, round_part}

abbrev test : RedisVars → Bool
test s = not (eqb_ℤ s.bytes_to_process (pos 0))

-- The rounds of the loop take replies.
redis_round-TakesReplies :
    (mem : List ℕ) (total : ℕ) (last : Reply) (k : ℕ) (stale : List ℕ)
    → IsProper last
    → k < length (encode last)
    → TakesReplies encode IsProper vars test
        (redis_round (resp mem total))
        mem
        total
        (take k (encode last))
        k
        stale
redis_round-TakesReplies mem total last k stale p lt = record {
  reply_pos = encode_pos;
  test_pos = λ m res h. ground arith;
  test_zero = λ res. refl;
  round_reply = λ r rest m res ps le at within fits order.
      round_reply mem total r rest m res ps le at within
      ∙ took_lem (length (encode r)) m res (encode_pos r) within fits order;
  round_part = λ res more le at. round_part mem total last k stale res p more lt le at;
}

-- `redis_kv_consume_response` on a buffer that holds whole replies, then the first `k` bytes of
-- another reply (`k` may be 0), then any stale bytes behind the `iov_len` bytes of the response:
-- it counts exactly the whole replies and their bytes, for every fuel above the number of replies,
-- when no status line has a newline inside and the `int` holds the length.
pub redis_kv_consume_response_lem :
    (rs : List Reply) (last : Reply) (k : ℕ) (stale : List ℕ) (fuel : ℕ)
    → AllProper encode IsProper rs
    → IsProper last
    → k < length (encode last)
    → length rs < fuel
    → length (encode_all encode rs) + k < 2 ^ 31
    → redis_kv_consume_response fuel (record {
      iov_base = encode_all encode rs ++ (take k (encode last) ++ stale);
      iov_len = length (encode_all encode rs) + k;
    })
      ≡ ok (record { bytes = length (encode_all encode rs); reqs = length rs })
unfolding redis_kv_consume_response
redis_kv_consume_response_lem rs last k stale fuel ps p lt f fits =
    let total = length (encode_all encode rs) + k in
    let part = take k (encode last) in
    let mem = encode_all encode rs ++ (part ++ stale) in
    let start : drop (total - total) mem ≡ mem =
      ap (λ i. drop i mem) (let z : total - total ≡ 0 = omega arith in z) in
    ap (λ o. o >>= λ s. ok s.res)
      (loop_lem encode IsProper vars test (redis_round (resp mem total)) mem total part k stale
        (redis_round-TakesReplies mem total last k stale p lt) rs fuel total zero_pair ps refl
        (omega arith) start f (omega arith) (omega arith))
    ∙ ap ok (plus-zero (count encode rs))
