-- ===== src/AppProto/Stss.antt =====
-- The stss responses (agents/app_proto.c:199-221).
use lancet_tool.Base.{
  ℕ, suc, ◌+◌, ◌^◌, ◌<◌, ◌≡◌, refl, ap, ◌∙◌, some, ok, arith, true, false, ltb, run_loop-stop,
  run_loop-continue, continue, stop, Bool, ◌%◌, ◌>>=◌,
}
use lancet_tool.AppProto.{
  zero_pair, one_message, Iovec, read_le, sub_u64, StssVars, stss_round, stss_consume_response,
}

-- The round that finds more bytes behind the length than the reply has.
round_more :
    (s : StssVars) (size : ℕ) (response : Iovec)
    → read_le 8 response.iov_base s.processed ≡ some size
    → size < sub_u64 response.iov_len (s.processed + 8)
    → stss_round response s ≡ stop (record s { processed = s.processed + 8 })
unfolding stss_round
round_more s size response head more =
    let left : ltb size (sub_u64 response.iov_len (s.processed + 8)) ≡ true = ground arith in
    rw (head, stss_round) (rw left refl)

-- The round that counts a reply, with less than another length behind it.
round_whole :
    (size : ℕ) (response : Iovec)
    → read_le 8 response.iov_base 0 ≡ some size
    → size + 8 ≡ response.iov_len
    → response.iov_len < 2 ^ 31
    → stss_round response (record { processed = 0; res = zero_pair })
      ≡ continue (record { processed = response.iov_len; res = one_message (size + 8) })
unfolding stss_round
round_whole size response head e small =
    let fits : ltb size (sub_u64 response.iov_len (0 + 8)) ≡ false = ground arith in
    let end : ltb 8 (sub_u64 response.iov_len (0 + 8 + size)) ≡ false = ground arith in
    let at : 0 + 8 + size ≡ response.iov_len = omega arith in
    let bytes : (0 + (8 + size)) % 2 ^ 64 ≡ size + 8 = omega arith in
    rw (head, stss_round) (rw (fits, end, bytes, at) refl)

-- A response that begins with a reply of `size` bytes behind its length, when `processed` happens to
-- start at 0. If the reply ends the response, it is counted, after the 8 bytes behind the response
-- have been read as well. If anything follows the reply, nothing is counted.
pub stss_consume_response_lem :
    (fuel size stale : ℕ) (response : Iovec)
    → read_le 8 response.iov_base 0 ≡ some size
    → read_le 8 response.iov_base response.iov_len ≡ some stale
    → stale < 2 ^ 63
    → response.iov_len < 2 ^ 31
    → (size + 8 ≡ response.iov_len
        → stss_consume_response (suc (suc fuel)) 0 response ≡ ok (one_message (size + 8)))
      × (size + 8 < response.iov_len
          → stss_consume_response (suc (suc fuel)) 0 response ≡ ok zero_pair)
unfolding stss_consume_response
stss_consume_response_lem fuel size stale response head behind s h =
    let start : StssVars = record { processed = 0; res = zero_pair } in
    let done : StssVars = record { processed = response.iov_len; res = one_message (size + 8) } in
    let test : StssVars → Bool = λ v. true in
    let body = stss_round response in
    (
      λ e.
          let long : ltb response.iov_len 8 ≡ false = ground arith in
          rw long (
            ap (λ o. o >>= λ v. ok v.res)
              (run_loop-continue (suc fuel) test body start refl
                  (round_whole size response head e h)
                ∙ run_loop-stop fuel test body done refl
                    (round_more done stale response behind (omega arith)))),
      λ more.
          let long : ltb response.iov_len 8 ≡ false = ground arith in
          rw long (
            ap (λ o. o >>= λ v. ok v.res)
              (run_loop-stop (suc fuel) test body start refl
                (round_more start size response head (omega arith)))),
    )
