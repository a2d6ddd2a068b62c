-- ===== src/Udp/Loops/Closed.antt =====
-- How many requests are under way in the UDP loops (agents/tp_udp.c).
use lancet_tool.Base.{
  ℕ, ◌+◌, ◌≤◌, ◌≡◌, refl, List, length, Option, some, none, ◌∙◌, get_elem?, Outcome, ok, ◌>>=◌,
  Bool, true, false, arith, Bool-cases, inl, inr, ltb_ℤ, if◌then◌else◌, ◌&&◌, check, leb, take,
}
use lancet_tool.Base.Each.{Each, Each-ok, Each-bind, Each-after, Each-option}
use lancet_tool.AppProto.{ByteReqPair, Iovec, Request}
use lancet_tool.Stats.{ThreadStats, add_tx_timestamp}
use lancet_tool.EventLoop.{
  again, done, Thread, Turn, Event, Round, Handlers, departed, send_at, send_one, item_at, handled,
  handle_one, main_loop,
}
use lancet_tool.EventLoop.Keeps.{KeptAfter}
use lancet_tool.EventLoop.Growth.{total, main_loop-Grows}
use lancet_tool.Tcp.Send.{SendResult, total_len, written}
use lancet_tool.Udp.{
  UdpSocket, UdpState, udp_max_payload, send_datagram, on_throughput_udp_send,
  on_symmetric_udp_send,
}
use lancet_tool.Udp.Sockets.{
  one_if_free, free, free-set, free-replace, At, item_at-At, Picked, get_socket-Picked,
}
use lancet_tool.Udp.Loops.{
  UdpSend, UdpEvent, socket_and_stats, in_state, throughput_udp_main, symmetric_udp_main,
}

-- What a send leaves of the socket that it goes out on.
abbrev SameTaken : {B : Type 0} → UdpSocket → Option (UdpSocket × B) → Type 0
SameTaken s none = Unit {0}
SameTaken s (some n) = n.0.taken ≡ s.taken

-- The requests that went out and the sockets that are free.
abbrev used : Thread UdpSocket → ℕ
used t = length t.departures + free t.items

module _ {T E : Type 0} (h : Handlers UdpSocket T E)
    (pick : (ss : List UdpSocket) (k : ℕ) → Each (Picked (free ss)) (h.pick ss k))
    (send : (x : T) (s : UdpSocket) (stats : ThreadStats)
      → Each (λ r. SameTaken s r.1) (h.send x s stats)) where
  Used : ℕ → Thread UdpSocket → Type 0
  Used n t = used t ≤ n

  after_if :
      (b : Bool) (n : ℕ) (t : Thread UdpSocket)
      → used t ≤ n
      → KeptAfter (λ t'. used t' ≤ n) (if b then again t else done t)
        × KeptAfter (λ t'. used t' ≤ n) (if b then done t else again t)
  after_if true n t p = (p, p)
  after_if false n t p = (p, p)

  departed-used :
      (i : ℕ) (turn : Turn T) (t : Thread UdpSocket) (n : ℕ) (bytes : List ℕ) (s : UdpSocket)
      (o : Option (UdpSocket × ThreadStats))
      → used t + 1 ≤ n
      → get_elem? t.items i ≡ some s
      → SameTaken s o
      → KeptAfter (λ t'. used t' ≤ n) (departed h i turn t bytes o)
  unfolding departed
  departed-used i turn t n bytes s none room at same = tt
  departed-used i turn t n bytes s (some r) room at same =
      let as_before : one_if_free r.0 ≡ one_if_free s = rw same refl in
      (after_if h.repeats n _ (omega (arith, room, as_before, free-replace t.items i s r.0 at))).0

  send_at-used :
      (turn : Turn T) (t : Thread UdpSocket) (n : ℕ) (o : Option ℕ) (ss : List UdpSocket) (k : ℕ)
      → length t.departures + free t.items ≤ n
      → Picked (free t.items) (o, ss, k)
      → Each (KeptAfter (λ t'. used t' ≤ n)) (send_at h turn (record t { items = ss; turn = k }) o)
  unfolding send_at
  send_at-used turn t n none ss k room p = Each-ok _ _ (omega (arith, room, p))
  send_at-used turn t n (some i) ss k room p = Each-bind (At ss i) (item_at-At ss i) (λ s at.
      Each-bind (λ r. SameTaken s r.1) (send turn.input s t.stats)
        (λ r same. Each-ok (KeptAfter (λ t'. used t' ≤ n)) _ (
          departed-used i turn (record t { items = ss; turn = k }) n r.0 s r.1
            (omega (arith, room, p)) at same)))

  send_one-used :
      (turn : Turn T) (t : Thread UdpSocket)
      → Each (KeptAfter (λ t'. used t' ≤ used t + 0)) (send_one h turn t)
  unfolding send_one
  send_one-used turn t = elim (Bool-cases (ltb_ℤ turn.clock t.next_tx)) [
    | inl early ↦ rw early (Each-ok _ (done t) (omega arith))
    | inr due ↦ rw due (
        Each-bind (Picked (free t.items)) (pick t.items t.turn)
          (λ q p. send_at-used turn t (used t + 0) q.0 q.1 q.2 (omega arith) p))
  ]

  handled-used :
      (e : Event E) (t : Thread UdpSocket) (o : Option (UdpSocket × ThreadStats × Bool))
      → KeptAfter (λ t'. used t' ≤ used t + 1) (handled h e t o)
  unfolding handled
  handled-used e t none = tt
  handled-used e t (some n) =
      (after_if (h.breaks && n.2 && ltb_ℤ t.next_tx e.clock) (used t + 1) _
        (omega (arith, free-set t.items e.idx n.0))).1

  handle_one-used :
      (e : Event E) (t : Thread UdpSocket)
      → Each (KeptAfter (λ t'. used t' ≤ used t + 1)) (handle_one h e t)
  unfolding handle_one
  handle_one-used e t =
      Each-after (item_at t.items e.idx)
        (λ s. Each-after (h.handle e.input s t.stats) (λ r. Each-ok _ _ (handled-used e t r)))

  main_loop-used :
      (rounds : List (Round T E)) (t t' : Thread UdpSocket)
      → main_loop h rounds t ≡ ok (some t')
      → used t' ≤ used t + total (λ r. length r.events) rounds
  main_loop-used rounds t t' ran =
      (main_loop-Grows h used (λ s clock. omega arith) send_one-used handle_one-used rounds t).each
        (some t') ran

send_datagram-SameTaken :
    (before after : UdpState → UdpState) (should_measure : Bool) (result : SendResult)
    (req : Request) (socket : UdpSocket) (stats : ThreadStats)
    → ((s : UdpState) → (before s).socket.taken ≡ s.socket.taken)
    → ((s : UdpState) → (after s).socket.taken ≡ s.socket.taken)
    → Each
        (λ r. SameTaken socket (socket_and_stats r.1))
        (send_datagram before after should_measure result req (in_state socket stats))
unfolding send_datagram
send_datagram-SameTaken before after should_measure result req socket stats b a =
    let iovs = take req.iov_cnt req.iovs in
    Each-after (check (leb (total_len iovs) udp_max_payload)) (λ u.
      Each-after (written result (total_len iovs)) (λ w.
        Each-option w (Each-ok _ _ tt) (λ ret. Each-ok _ _ (a _ ∙ b (in_state socket stats)))))

-- The pair that the loops make of it.
paired-SameTaken :
    (socket : UdpSocket) (m : Outcome (List ℕ × Option UdpState))
    → Each (λ r. SameTaken socket (socket_and_stats r.1)) m
    → Each
        (λ (r : List ℕ × Option (UdpSocket × ThreadStats)). SameTaken socket r.1)
        (m >>= λ q. ok (q.0, socket_and_stats q.1))
paired-SameTaken socket m same =
    Each-bind (λ r. SameTaken socket (socket_and_stats r.1)) same
      (λ r k. Each-ok (λ q. SameTaken socket q.1) (r.0, socket_and_stats r.1) k)

module _ (consume : Iovec → Outcome ByteReqPair) (rounds : List (Round UdpSend UdpEvent))
    (t t' : Thread UdpSocket) where
  -- `throughput_udp_main` has no more requests under way than sockets: whatever the kernel gives and
  -- whatever the parser counts, for any number of rounds, the requests that went out and the sockets
  -- that are free in the end are together no more than those at the start and the events that were
  -- handled.
  pub throughput_udp_main-used :
      main_loop (throughput_udp_main consume) rounds t ≡ ok (some t')
      → length t'.departures + free t'.items
        ≤ length t.departures + free t.items + total (λ r. length r.events) rounds
  unfolding throughput_udp_main on_throughput_udp_send
  throughput_udp_main-used ran =
      main_loop-used (throughput_udp_main consume) (λ ss k. get_socket-Picked (length ss) ss k)
        (λ x s stats.
          paired-SameTaken s
            (on_throughput_udp_send x.should_measure x.sampled x.now x.result x.request
              (in_state s stats))
            (send_datagram-SameTaken
              (λ u. record u { stats = add_tx_timestamp x.sampled x.now u.stats }) (λ u. u)
              x.should_measure x.result x.request s stats (λ u. refl) (λ u. refl)))
        rounds t t' ran

  -- And so has `symmetric_udp_main`.
  pub symmetric_udp_main-used :
      main_loop (symmetric_udp_main consume) rounds t ≡ ok (some t')
      → length t'.departures + free t'.items
        ≤ length t.departures + free t.items + total (λ r. length r.events) rounds
  unfolding symmetric_udp_main on_symmetric_udp_send
  symmetric_udp_main-used ran =
      main_loop-used (symmetric_udp_main consume) (λ ss k. get_socket-Picked (length ss) ss k)
        (λ x s stats.
          paired-SameTaken s
            (on_symmetric_udp_send x.should_measure x.sampled x.now x.result x.request
              (in_state s stats))
            (send_datagram-SameTaken
              (λ u.
                let socket = u.socket in
                record u { socket = record socket { tx_timestamp = x.now } })
              (λ u. record u { stats = add_tx_timestamp x.sampled u.socket.tx_timestamp u.stats })
              x.should_measure x.result x.request s stats (λ u. refl) (λ u. refl)))
        rounds t t' ran
