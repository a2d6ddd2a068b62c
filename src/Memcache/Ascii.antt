-- ===== src/Memcache/Ascii.antt =====
-- `memcache_ascii_consume_response` (agents/memcache.c:48-107): the parser of text responses.
pub mod Search
pub mod Replies
pub mod Whole
mod Tests
use lancet_tool.Base.{
  ℕ, zero, suc, ◌+◌, ◌-◌, List, [], ◌∷◌, Option, some, none, Bool, not, ◌==◌, ltb, if◌then◌else◌, ℤ,
  pos, negsuc, ◌-ℤ◌, eqb_ℤ, drop, Outcome, ok, fault, Fault, ◌>>=◌, Next, continue, stop, crash,
  run_loop,
}
use lancet_tool.Libc.Strings.{codes, is_prefix}
use lancet_tool.AppProto.{ByteReqPair, zero_pair, Iovec, add_u64}

-- `strchr(s, c)`, as an offset; `none` for NULL. Without a NUL it reads outside the memory.
pub strchr : List ℕ → ℕ → Outcome (Option ℕ)
strchr [] c = fault Fault.out_of_bounds
strchr (x ∷ s) c =
    let later = strchr s c in
    if x == c
    then ok (some 0)
    else if x == 0
    then ok none
    else (later >>= λ o. elim o [ none ↦ ok none | some i ↦ ok (some (suc i)) ])

-- The loop of `strchnth` with `rounds` to go, where `next` is the offset of `ptr + 1`. It gives the
-- offset behind the last one found.
pub strchnth_from : (rounds next : ℕ) → List ℕ → ℕ → Outcome (Option ℕ)
strchnth_from zero next s c = ok (some next)
strchnth_from (suc rounds) next s c = strchr (drop next s) c >>= λ o. elim o [
  | none ↦ ok none
  | some i ↦ strchnth_from rounds (next + i + 1) s c
]

-- `strchnth(s, c, occ) + 1`, as an offset.
pub strchnth : List ℕ → (c occ : ℕ) → Outcome (Option ℕ)
unfolding strchnth_from
strchnth s c occ = strchnth_from occ 0 s c

-- The variables of `memcache_ascii_consume_response`. The `int` may fall below 0.
pub record AsciiVars : Type 0 where
  pub bytes_to_process : ℤ
  pub res : ByteReqPair

-- A reply of `n` bytes is taken off.
abbrev pub counted : AsciiVars → ℕ → AsciiVars
counted s n = record {
  bytes_to_process = s.bytes_to_process -ℤ pos n;
  res = record { bytes = add_u64 s.res.bytes n; reqs = add_u64 s.res.reqs 1 };
}

-- What follows from the search for the third newline.
pub get_reply : AsciiVars → Outcome (Option ℕ) → Next AsciiVars
get_reply s (fault e) = crash e
get_reply s (ok none) = stop s
get_reply s (ok (some size)) = continue (counted s size)

-- One round of the loop, with `left` bytes to go of which the first stands at `at`.
pub ascii_reply : List ℕ → ℕ → AsciiVars → Next AsciiVars
unfolding get_reply
ascii_reply at left s =
    if ltb left 5
    then stop s
    else if is_prefix (codes "END\r\n") at
    then continue (counted s 5)
    else if ltb left 8
    then stop s
    else if is_prefix (codes "STORED\r\n") at
    then continue (counted s 8)
    else get_reply s (strchnth at b'\n' 3)

pub ascii_round : Iovec → AsciiVars → Next AsciiVars
unfolding ascii_reply
ascii_round resp s = elim s.bytes_to_process [
  | negsuc n ↦ stop s
  | pos left ↦ ascii_reply (drop (resp.iov_len - left) resp.iov_base) left s
]

-- `memcache_ascii_consume_response`. A round that goes on takes at least one byte off.
pub memcache_ascii_consume_response : Iovec → Outcome ByteReqPair
unfolding ascii_round
memcache_ascii_consume_response resp =
    run_loop (resp.iov_len + 2) (λ s. not (eqb_ℤ s.bytes_to_process (pos 0))) (ascii_round resp)
      (record { bytes_to_process = pos resp.iov_len; res = zero_pair })
    >>= λ s. ok s.res
