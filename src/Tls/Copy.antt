-- ===== src/Tls/Copy.antt =====
-- The copy of a request into `wbuf` (agents/tp_ssl.c:275-301).
use lancet_tool.Base.{
  ℕ, ◌+◌, ◌≤◌, ◌≡◌, refl, ap, sym, ◌∙◌, List, [], ◌∷◌, ◌++◌, true, false, take, drop, length,
  length-append, length-take, length-drop, take-length_append, append_assoc, append-nil, arith, ok,
  ltb, ==_refl, inl, pos, eqb_ℤ,
}
use lancet_tool.Timestamping.{push_complete_tx_timestamp}
use lancet_tool.Stats.{add_throughput_tx_sample}
use lancet_tool.Tcp.{add_u16}
use lancet_tool.AppProto.{ByteReqPair, Iovec, gather, payload}
use lancet_tool.Tcp.Send.{sent, total_len}
use lancet_tool.Tcp.Send.Complete.{AllBacked, send_request_lem}
use lancet_tool.Tcp.Symmetric.{SymState, on_symmetric_send}
use lancet_tool.Tls.{overwrite, copy_iovs, grow, fill_wbuf, TlsSend, on_tls_send}

-- What `memcpy` leaves in front of the end of the copy.
overwrite_lem :
    (wbuf bytes : List ℕ) (copied : ℕ)
    → copied + length bytes ≤ length wbuf
    → (length (overwrite wbuf copied bytes) ≡ length wbuf)
      × (take (copied + length bytes) (overwrite wbuf copied bytes) ≡ take copied wbuf ++ bytes)
overwrite_lem wbuf bytes copied h =
    let front = take copied wbuf in
    let kept = drop (copied + length bytes) wbuf in
    let n : length front ≡ copied = omega (arith, length-take copied wbuf) in
    let m : length (front ++ bytes) ≡ copied + length bytes =
      omega (arith, length-append front bytes, n) in
    (
      omega (
        arith,
        n,
        length-append front (bytes ++ kept),
        length-append bytes kept,
        length-drop (copied + length bytes) wbuf,
      ),
      ap (take (copied + length bytes)) (sym (append_assoc front bytes kept))
          ∙ ap (λ k. take k ((front ++ bytes) ++ kept)) (sym m)
          ∙ take-length_append (front ++ bytes) kept,
    )

-- From `copied` on, in a buffer with room for all: the loop stays within the buffer, and puts the bytes
-- of the iovecs behind those that are there.
copy_iovs_lem :
    (wbuf : List ℕ) (copied : ℕ) (iovs : List Iovec)
    → AllBacked iovs
    → copied + total_len iovs ≤ length wbuf
    → (wbuf' : List ℕ) × (copy_iovs wbuf copied iovs ≡ ok (wbuf', copied + total_len iovs))
      × (take (copied + total_len iovs) wbuf' ≡ take copied wbuf ++ gather iovs)
unfolding copy_iovs
copy_iovs_lem wbuf copied [] h room =
    let e : copied ≡ copied + 0 = omega arith in
    (
      wbuf,
      ap (λ k. ok (wbuf, k)) e,
      ap (λ k. take k wbuf) (sym e) ∙ sym (append-nil (take copied wbuf)),
    )
copy_iovs_lem wbuf copied (v ∷ vs) (h, hs) room =
    let bytes = take v.iov_len v.iov_base in
    let n : length bytes ≡ v.iov_len = omega (arith, length-take v.iov_len v.iov_base) in
    let fits : ltb (length wbuf) (copied + v.iov_len) ≡ false = ground arith in
    let (size, front) = overwrite_lem wbuf bytes copied (omega arith) in
    let (wbuf', ran, held) =
      copy_iovs_lem (overwrite wbuf copied bytes) (copied + v.iov_len) vs hs (omega arith) in
    let total : copied + v.iov_len + total_len vs ≡ copied + (v.iov_len + total_len vs) =
      omega arith in
    (
      wbuf',
      rw fits ran ∙ ap (λ k. ok (wbuf', k)) total,
      ap (λ k. take k wbuf') (sym total)
          ∙ held
          ∙ ap (λ k. take (copied + k) (overwrite wbuf copied bytes) ++ gather vs) (sym n)
          ∙ ap (λ t. t ++ gather vs) front
          ∙ append_assoc (take copied wbuf) bytes (gather vs),
    )

module _ (malloc : ℕ → List ℕ) (sized : (n : ℕ) → length (malloc n) ≡ n) where
  length-grow : (n : ℕ) (wbuf : List ℕ) → n ≤ length (grow malloc n wbuf)
  unfolding grow
  length-grow n wbuf = ground (arith, sized n)

  -- Whatever the buffer held before and however small it was, the copy stays within it, fails no
  -- assertion, and leaves the request's bytes at its front.
  pub fill_wbuf_lem :
      (wbuf : List ℕ) (iovs : List Iovec)
      → AllBacked iovs
      → (wbuf' : List ℕ) × (fill_wbuf malloc wbuf iovs ≡ ok wbuf')
        × (take (total_len iovs) wbuf' ≡ gather iovs)
  unfolding fill_wbuf
  fill_wbuf_lem wbuf iovs h =
      let (wbuf', ran, held) =
        copy_iovs_lem (grow malloc (total_len iovs) wbuf) 0 iovs h
          (omega (arith, length-grow (total_len iovs) wbuf)) in
      let from_start : 0 + total_len iovs ≡ total_len iovs = omega arith in
      (
        wbuf',
        rw (ran, from_start, ==_refl (total_len iovs)) refl,
        ap (λ k. take k wbuf') (sym from_start) ∙ held,
      )

  -- A request that `SSL_write` takes whole goes out as it does over TCP with one `sendmsg`: the bytes
  -- that are encrypted are its payload, and the connection, the ring of transmit times and the
  -- statistics change in the same way, whatever `wbuf` held before and however small it was.
  pub on_tls_send-symmetric :
      (max_pending : ℕ) (x : TlsSend) (s : SymState)
      → AllBacked (take x.request.iov_cnt x.request.iovs)
      → x.ret ≡ pos (total_len (take x.request.iov_cnt x.request.iovs))
      → (s' : SymState) × (on_tls_send malloc max_pending x s ≡ ok (payload x.request, s'))
        × (on_symmetric_send x.should_measure max_pending x.sampled x.tx_timestamp
              (sent (total_len (take x.request.iov_cnt x.request.iovs)) ∷ [])
              x.request
              s
            ≡ ok (payload x.request, s'))
  unfolding on_tls_send on_symmetric_send
  on_tls_send-symmetric max_pending x s backed all =
      let iovs = take x.request.iov_cnt x.request.iovs in
      let c = s.conn in
      let a = s.times in
      let r = push_complete_tx_timestamp max_pending x.sampled a.ring x.tx_timestamp a.stats in
      let (wbuf', ran, held) = fill_wbuf_lem x.wbuf iovs backed in
      let whole : eqb_ℤ (pos (total_len iovs)) (pos (total_len iovs)) ≡ true = ground arith in
      let counted : ByteReqPair = record { bytes = total_len iovs; reqs = 1 } in
      let s' : SymState = record s {
        conn = record c { pending_reqs = add_u16 c.pending_reqs 1 };
        times = record a {
          ring = r.0;
          stats = add_throughput_tx_sample x.should_measure counted r.1;
        };
      } in
      (
        s',
        rw (ran, all, whole, held) refl,
        rw (send_request_lem (sent (total_len iovs) ∷ []) iovs backed (inl refl)) refl,
      )
