-- ===== src/Redis.antt =====
-- agents/redis.c: the parser of Redis replies (69-147).
pub mod Replies
pub mod Stream
pub mod Whole
pub mod Requests
pub mod Ycsbe
mod Tests
use lancet_tool.Base.{
  ℕ, zero, suc, ◌+◌, ◌-◌, ◌%◌, ◌^◌, List, [], ◌∷◌, ◌++◌, Option, some, none, Bool, true, false, not,
  ◌==◌, leb, if◌then◌else◌, ℤ, pos, negsuc, ◌+ℤ◌, ◌-ℤ◌, ltb_ℤ, leb_ℤ, eqb_ℤ, pos_part, neg_part,
  get_elem?, drop, Outcome, ok, fault, Fault, ◌>>=◌, Next, continue, stop, crash, run_loop,
}
use lancet_tool.AppProto.{ByteReqPair, zero_pair, Iovec, add_u64}
use lancet_tool.Libc.{memchr, atoi}

abbrev pub newline : ℕ
newline = 10

-- The first byte of a buffer is `c`; reading it outside the memory is a fault.
first_is : ℕ → List ℕ → Outcome Bool
first_is c [] = fault Fault.out_of_bounds
first_is c (x ∷ xs) = ok (x == c)

-- `parse_string`. `bytes_left` is positive where `memchr` is called with it.
pub parse_string : List ℕ → ℤ → Outcome ℤ
unfolding first_is
parse_string buf bytes_left =
    let line : ℤ = elim (memchr buf newline (pos_part bytes_left)) [
      | none ↦ pos 0
      | some p ↦ pos (p + 1)
    ] in
    if ltb_ℤ bytes_left (pos 1)
    then ok (pos 0)
    else (first_is b'+' buf >>= λ b. if b then ok line else fault Fault.assertion)

-- The size of a bulk string of length `len` whose first line ends at `p`.
bulk_size : (len : ℤ) (p : ℕ) (bytes_left : ℤ) → ℤ
bulk_size len p bytes_left =
    let extra = pos (p + 1 + 2) in
    if eqb_ℤ len (negsuc 0)
    then pos 5
    else if leb_ℤ (len +ℤ extra) bytes_left
    then len +ℤ extra
    else pos 0

-- `parse_bulk_string`
pub parse_bulk_string : List ℕ → ℤ → Outcome ℤ
unfolding first_is bulk_size
parse_bulk_string buf bytes_left =
    let size : ℤ = elim (memchr buf newline (pos_part bytes_left)) [
      | none ↦ pos 0
      | some p ↦ bulk_size (atoi (drop 1 buf)) p bytes_left
    ] in
    if ltb_ℤ bytes_left (pos 1)
    then ok (pos 0)
    else (first_is b'$' buf >>= λ b. if b then ok size else fault Fault.assertion)

-- The variables of the loop in `redis_kv_consume_response`. The `int` may fall below 0.
pub record RedisVars : Type 0 where
  pub bytes_to_process : ℤ
  pub res : ByteReqPair

-- `res.bytes += processed`: an `int` added to a `uint64_t`.
abbrev pub add_int : ℕ → ℤ → ℕ
add_int b z = (b + pos_part z + (2 ^ 64 - neg_part z % 2 ^ 64)) % 2 ^ 64

-- What a branch does with what its parser returned.
pub took : RedisVars → ℤ → Next RedisVars
took s processed =
    if eqb_ℤ processed (pos 0)
    then stop s
    else continue (record {
      bytes_to_process = s.bytes_to_process -ℤ processed;
      res = record { bytes = add_int s.res.bytes processed; reqs = add_u64 s.res.reqs 1 };
    })

next_of : RedisVars → Outcome ℤ → Next RedisVars
unfolding took
next_of s (ok processed) = took s processed
next_of s (fault e) = crash e

-- One reply, at offset `i` of the memory.
pub reply_at : List ℕ → ℕ → RedisVars → Next RedisVars
unfolding next_of
reply_at mem i s = elim (get_elem? mem i) [
  | none ↦ crash Fault.out_of_bounds
  | some c ↦
      if c == b'+'
      then next_of s (parse_string (drop i mem) s.bytes_to_process)
      else if c == b'$'
      then next_of s (parse_bulk_string (drop i mem) s.bytes_to_process)
      else crash Fault.assertion
]

pub redis_round : Iovec → RedisVars → Next RedisVars
unfolding reply_at
redis_round resp s = elim (pos resp.iov_len -ℤ s.bytes_to_process) [
  | pos i ↦ reply_at resp.iov_base i s
  | negsuc i ↦ crash Fault.out_of_bounds
]

-- `redis_kv_consume_response`. The loop need not end on a malformed reply, so the fuel is an argument.
pub redis_kv_consume_response : ℕ → Iovec → Outcome ByteReqPair
unfolding redis_round
redis_kv_consume_response fuel resp =
    run_loop fuel (λ s. not (eqb_ℤ s.bytes_to_process (pos 0))) (redis_round resp)
      (record { bytes_to_process = pos resp.iov_len; res = zero_pair })
    >>= λ s. ok s.res
