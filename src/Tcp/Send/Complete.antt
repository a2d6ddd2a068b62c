-- ===== src/Tcp/Send/Complete.antt =====
-- However the kernel cuts the writes (agents/tp_tcp.c:275-295 and 550-602), a request goes out whole,
-- once and in order.
use lancet_tool.Base.{
  ℕ, zero, suc, ◌+◌, ◌-◌, ◌≤◌, ◌<◌, ◌≡◌, refl, sym, ap, ◌∙◌, ◌⊎◌, inl, inr, List, [], ◌∷◌, ◌++◌,
  ltb, ◌==◌, Bool-cases, if◌then◌else◌, true, false, some, arith, length, take, drop, length-append,
  length-take, length-drop, take-append-drop, drop-append_of_le, drop-drop, drop-take,
  drop-length_append, ok, take-of_le, drop-nil,
}
use lancet_tool.AppProto.{Iovec, gather}
use lancet_tool.Tcp.Send.{
  SendResult, sent, would_block, failed, total_len, skip, advance, send_request, advance_writev,
  write_loop,
}

-- Each iovec has the memory it speaks of.
abbrev pub AllBacked : List Iovec → Type 0
AllBacked [] = Unit {0}
AllBacked (v ∷ vs) = (v.iov_len ≤ length v.iov_base) × AllBacked vs

length-gather : (vs : List Iovec) → AllBacked vs → length (gather vs) ≡ total_len vs
length-gather [] h = refl
length-gather (v ∷ vs) (h, hs) = omega (
  arith,
  length-append (take v.iov_len v.iov_base) (gather vs),
  length-take v.iov_len v.iov_base,
  length-gather vs hs,
)

-- The calls take all `n` bytes in the end, and none of them takes more than is left.
abbrev pub Drains : List SendResult → ℕ → Type 0
Drains [] n = ⊥
Drains (failed ∷ rs) n = ⊥
Drains (would_block ∷ rs) n = Drains rs n
Drains (sent k ∷ rs) n = (k ≡ n) ⊎ ((k < n) × Drains rs (n - k))

-- Iovecs that hold what is behind the first `k` bytes of these.
pub record IsRest (k : ℕ) (vs rest : List Iovec) : Type 0 where
  pub bytes : gather rest ≡ drop k (gather vs)
  pub size : total_len rest ≡ total_len vs - k
  pub backed : AllBacked rest

-- Within the first iovec.
skip-IsRest :
    (k : ℕ) (v : Iovec) (vs : List Iovec)
    → k ≤ v.iov_len
    → AllBacked (v ∷ vs)
    → IsRest k (v ∷ vs) (skip k v ∷ vs)
skip-IsRest k v vs le (h, hs) =
    let front = take v.iov_len v.iov_base in
    let n : length front ≡ v.iov_len = omega (arith, length-take v.iov_len v.iov_base) in
    record {
      bytes = sym (
          drop-append_of_le k front (gather vs) (omega arith)
          ∙ ap (λ t. t ++ gather vs) (drop-take k v.iov_len v.iov_base le));
      size = omega arith;
      backed = (omega (arith, length-drop k v.iov_base), hs);
    }

-- Behind the first iovec.
tail-IsRest :
    (k : ℕ) (v : Iovec) (vs rest : List Iovec)
    → v.iov_len ≤ k
    → AllBacked (v ∷ vs)
    → IsRest (k - v.iov_len) vs rest
    → IsRest k (v ∷ vs) rest
tail-IsRest k v vs rest le (h, hs) r =
    let front = take v.iov_len v.iov_base in
    let n : length front ≡ v.iov_len = omega (arith, length-take v.iov_len v.iov_base) in
    let split : length front + (k - v.iov_len) ≡ k = omega arith in
    record {
      bytes =
          r.bytes
          ∙ ap (drop (k - v.iov_len)) (sym (drop-length_append front (gather vs)))
          ∙ drop-drop (k - v.iov_len) (length front) (front ++ gather vs)
          ∙ ap (λ i. drop i (front ++ gather vs)) split;
      size = omega (arith, r.size);
      backed = r.backed;
    }

-- The search of `send_request` for the first byte that was not taken.
advance_lem :
    (current : List Iovec) (ret c : ℕ) (vs : List Iovec)
    → AllBacked vs
    → c < ret
    → ret < c + total_len vs
    → (rest : List Iovec) × (advance current ret c vs ≡ ok rest) × IsRest (ret - c) vs rest
unfolding advance
advance_lem current ret c [] h lo hi = absurd (omega arith)
advance_lem current ret c (v ∷ vs) h lo hi = elim (Bool-cases (ltb ret (c + v.iov_len))) [
  | inl within ↦
      let left : c + v.iov_len - ret ≡ v.iov_len - (ret - c) = ground arith in
      (skip (ret - c) v ∷ vs, rw left (ground arith), skip-IsRest (ret - c) v vs (ground arith) h)
  | inr past ↦ elim (Bool-cases (c + v.iov_len == ret)) [
    | inl exact ↦
        let zero_left : 0 ≡ ret - c - v.iov_len = ground arith in
        let none_left : IsRest (ret - c - v.iov_len) vs vs = record {
          bytes = ap (λ i. drop i (gather vs)) zero_left;
          size = omega arith;
          backed = h.1;
        } in
        (vs, ground arith, tail-IsRest (ret - c) v vs vs (ground arith) h none_left)
    | inr beyond ↦
        let (rest, ran, r) =
          advance_lem current ret (c + v.iov_len) vs h.1 (ground arith) (omega arith) in
        let shift : ret - (c + v.iov_len) ≡ ret - c - v.iov_len = omega arith in
        (rest, ground arith, tail-IsRest (ret - c) v vs rest (ground arith) h (rw shift at r))
  ]
]

advance_start :
    (ret : ℕ) (vs : List Iovec)
    → AllBacked vs
    → ret < total_len vs
    → (rest : List Iovec) × (advance vs ret 0 vs ≡ ok rest) × IsRest ret vs rest
unfolding advance
advance_start zero [] h lt = absurd (omega arith)
advance_start zero (v ∷ vs) h lt =
    (v ∷ vs, refl, record { bytes = refl; size = omega arith; backed = h })
advance_start (suc k) vs h lt =
    let (rest, ran, r) = advance_lem vs (suc k) 0 vs h (omega arith) (omega arith) in
    let all : suc k - 0 ≡ suc k = omega arith in (rest, ran, rw all at r)

-- The search of `throughput_tcp_main`.
advance_writev_lem :
    (ret : ℕ) (vs : List Iovec) → AllBacked vs → IsRest ret vs (advance_writev ret vs)
unfolding advance_writev
advance_writev_lem ret [] h = record { bytes = sym (drop-nil ret); size = omega arith; backed = tt }
advance_writev_lem ret (v ∷ vs) h = elim (Bool-cases (ltb ret v.iov_len)) [
  | inl within ↦ rw within (skip-IsRest ret v vs (ground arith) h)
  | inr past ↦ rw past (
      tail-IsRest ret v vs (advance_writev (ret - v.iov_len) vs) (ground arith) h
        (advance_writev_lem (ret - v.iov_len) vs h.1))
]

-- What a call took and then the rest are all.
taken_lem :
    (k : ℕ) (vs rest : List Iovec)
    → IsRest k vs rest
    → take k (gather vs) ++ gather rest ≡ gather vs
taken_lem k vs rest r = ap (λ t. take k (gather vs) ++ t) r.bytes ∙ take-append-drop k (gather vs)

-- `send_request`, when its calls of sendmsg take all bytes in the end: no assertion fails, the bytes
-- taken are those of the request, each once and in order, however the calls cut them.
pub send_request_lem :
    (results : List SendResult) (iovs : List Iovec)
    → AllBacked iovs
    → Drains results (total_len iovs)
    → send_request results iovs ≡ ok (gather iovs, true)
unfolding send_request
send_request_lem [] iovs h d = absurd d
send_request_lem (failed ∷ rs) iovs h d = absurd d
send_request_lem (would_block ∷ rs) iovs h d = send_request_lem rs iovs h d
send_request_lem (sent k ∷ rs) iovs h (inl all) =
    let stops : ltb k (total_len iovs) ≡ false = ground arith in
    rw stops
      (ap (λ t. ok (t, true)) (take-of_le k (gather iovs) (omega (arith, length-gather iovs h))))
send_request_lem (sent k ∷ rs) iovs h (inr (part, more)) =
    let (rest, ran, r) = advance_start k iovs h part in
    let goes_on : ltb k (total_len iovs) ≡ true = ground arith in
    let later = send_request_lem rs rest r.backed (rw r.size more) in
    rw (goes_on, ran, later) (ap (λ t. ok (t, true)) (taken_lem k iovs rest r))

-- The bytes of the last call that took some.
abbrev pub last_sent : List SendResult → ℕ → ℕ
last_sent [] n = 0
last_sent (failed ∷ rs) n = 0
last_sent (would_block ∷ rs) n = last_sent rs n
last_sent (sent k ∷ rs) n = let later = last_sent rs (n - k) in if k == n then k else later

-- The write loop of `throughput_tcp_main`, when its calls of writev take all bytes in the end: the
-- bytes taken are those of the request, each once and in order, and what it leaves to be counted are
-- the bytes of the last call alone.
pub write_loop_lem :
    (results : List SendResult) (iovs : List Iovec)
    → AllBacked iovs
    → Drains results (total_len iovs)
    → write_loop results (total_len iovs) iovs
      ≡ ok (gather iovs, some (last_sent results (total_len iovs)))
unfolding write_loop
write_loop_lem [] iovs h d = absurd d
write_loop_lem (failed ∷ rs) iovs h d = absurd d
write_loop_lem (would_block ∷ rs) iovs h d = write_loop_lem rs iovs h d
write_loop_lem (sent k ∷ rs) iovs h (inl all) =
    let stops : (k == total_len iovs) ≡ true = ground arith in
    rw stops
      (ap (λ t. ok (t, some k)) (take-of_le k (gather iovs) (omega (arith, length-gather iovs h))))
write_loop_lem (sent k ∷ rs) iovs h (inr (part, more)) =
    let rest = advance_writev k iovs in
    let r = advance_writev_lem k iovs h in
    let goes_on : (k == total_len iovs) ≡ false = ground arith in
    let later = write_loop_lem rs rest r.backed (rw r.size more) in
    rw (goes_on, ← r.size, later)
      (ap (λ t. ok (t, some (last_sent rs (total_len rest)))) (taken_lem k iovs rest r))
