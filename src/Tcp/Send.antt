-- ===== src/Tcp/Send.antt =====
-- The partial writes of agents/tp_tcp.c: `send_request` (550-602) and the write loop of
-- `throughput_tcp_main` (275-295). The iovecs from the current one on are a list.
pub mod Complete
mod Tests
use lancet_tool.Base.{
  ℕ, ◌+◌, ◌-◌, ◌==◌, ltb, leb, if◌then◌else◌, List, [], ◌∷◌, ◌++◌, Bool, true, false, Option, some,
  none, take, drop, Outcome, ok, fault, Fault, ◌>>=◌, ◌>>◌, check,
}
use lancet_tool.AppProto.{Iovec, gather}

-- What a call of `sendmsg` or `writev` comes to: the number of bytes it takes, EWOULDBLOCK, or another
-- error.
pub data SendResult : Type 0 where
  sent : ℕ → SendResult
  would_block failed : SendResult

-- `bytes_to_send`. An `int` that overflows is outside the model.
abbrev pub total_len : List Iovec → ℕ
total_len [] = 0
total_len (v ∷ vs) = v.iov_len + total_len vs

-- `iov_base += n; iov_len -= n`
abbrev pub skip : ℕ → Iovec → Iovec
skip n v = record { iov_base = drop n v.iov_base; iov_len = v.iov_len - n }

-- The loop of `send_request` over `i`, from `current_iovs[i]` on. It ends with the new
-- `current_iovs`, which stay the same when `ret` is 0.
pub advance : (current : List Iovec) (ret cumulative_bytes : ℕ) → List Iovec → Outcome (List Iovec)
advance current ret cumulative_bytes [] =
    if ltb cumulative_bytes ret then fault Fault.assertion else ok current
advance current ret cumulative_bytes (v ∷ vs) =
    let upto = cumulative_bytes + v.iov_len in
    let later = advance current ret upto vs in
    if ltb cumulative_bytes ret
    then (check (leb cumulative_bytes ret)
        >> (if ltb ret upto
            then ok (
                record { iov_base = drop (ret - cumulative_bytes) v.iov_base; iov_len = upto - ret }
                ∷ vs)
            else if upto == ret
            then ok vs
            else later))
    else ok current

-- `send_request`, for what its calls of `sendmsg` come to, one after the other. It gives the bytes that
-- the calls took, and whether it ended with all sent or on an error, which it does not report.
pub send_request : List SendResult → List Iovec → Outcome (List ℕ × Bool)
unfolding advance
send_request [] iovs = fault Fault.out_of_fuel
send_request (failed ∷ results) iovs = ok ([], false)
send_request (would_block ∷ results) iovs = send_request results iovs
send_request (sent ret ∷ results) iovs =
    if ltb ret (total_len iovs)
    then (advance iovs ret 0 iovs >>= λ iovs'.
        send_request results iovs' >>= λ r. ok (take ret (gather iovs) ++ r.0, r.1))
    else ok (take ret (gather iovs), true)

-- The `for` loop behind a partial `writev`.
pub advance_writev : ℕ → List Iovec → List Iovec
advance_writev ret [] = []
advance_writev ret (v ∷ vs) =
    let later = advance_writev (ret - v.iov_len) vs in
    if ltb ret v.iov_len then skip ret v ∷ vs else later

-- The write loop of `throughput_tcp_main`: the bytes that the calls of `writev` took, and `ret` as the
-- loop leaves it, which is counted as the bytes sent; `none` when the agent ends on an error.
unfoldable pub write_loop :
    List SendResult → (bytes_to_send : ℕ) → List Iovec → Outcome (List ℕ × Option ℕ)
unfolding advance_writev
write_loop [] bytes_to_send iovs = fault Fault.out_of_fuel
write_loop (failed ∷ results) bytes_to_send iovs = ok ([], none)
write_loop (would_block ∷ results) bytes_to_send iovs = write_loop results bytes_to_send iovs
write_loop (sent ret ∷ results) bytes_to_send iovs =
    let rest = write_loop results (bytes_to_send - ret) (advance_writev ret iovs) in
    if ret == bytes_to_send
    then ok (take ret (gather iovs), some ret)
    else (rest >>= λ r. ok (take ret (gather iovs) ++ r.0, r.1))

-- What a single `writev` or `sendmsg` returned, with the assertion behind it, in the loops that write
-- once: all bytes of the request, or the agent ends. On EWOULDBLOCK the -1 is not the number of bytes.
unfoldable pub written : SendResult → (bytes_to_send : ℕ) → Outcome (Option ℕ)
written failed bytes_to_send = ok none
written would_block bytes_to_send = fault Fault.assertion
written (sent n) bytes_to_send = check (n == bytes_to_send) >> ok (some n)

-- The latency agents end on every negative result.
abbrev pub as_failed : SendResult → SendResult
as_failed (sent n) = sent n
as_failed r = failed
