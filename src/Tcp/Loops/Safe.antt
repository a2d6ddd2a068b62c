-- ===== src/Tcp/Loops/Safe.antt =====
-- The buffers of the connections of throughput_tcp_main (agents/tp_tcp.c:235-339).
use mathlib.Core.List.{map}
use lancet_tool.Base.{
  ℕ, ◌+◌, ◌-◌, ◌≤◌, ◌≡◌, ◌≢◌, refl, List, Bool, Option, some, none, take, length, length-take,
  Outcome, ok, Fault, ltb, ◌==◌, Bool-cases, inl, inr, arith, true, false,
}
use lancet_tool.Base.Each.{All, Each, Each-ok, Each-fault, Each-bind, Each-after}
use lancet_tool.AppProto.{ByteReqPair, Iovec}
use lancet_tool.Stats.{ThreadStats}
use lancet_tool.EventLoop.{Thread, Round, main_loop}
use lancet_tool.EventLoop.Items.{KeptItem, KeptEvent, KeepsItems, Fits, main_loop-Hold}
use lancet_tool.Tcp.{Connection, max_payload, pick_conn}
use lancet_tool.Tcp.Buffer.{IsValid}
use lancet_tool.Tcp.Throughput.{AgentState}
use lancet_tool.Tcp.Throughput.Bounds.{
  ValidSent, on_throughput_readable-IsValid, on_throughput_send-IsValid,
}
use lancet_tool.Tcp.Loops.{
  RecvResult, chunk, nothing_there, recv_error, Arrival, arrived, closing, broken, overrun, arrive,
  TcpEvent, epollin, epollerr, other_event, SendInput, pick_item, on_arrival, read_throughput,
  on_throughput_event, send_throughput, throughput_tcp_main,
}

-- A socket that epoll reports as readable: `recv` does not come to EWOULDBLOCK.
abbrev pub Ready : TcpEvent → Type 0
Ready (epollin r) = r.result ≢ nothing_there
Ready (epollerr m) = Unit {0}
Ready other_event = Unit {0}

-- What `recv` leaves of a connection with so many requests under way.
abbrev pub ValidArrival : ℕ → Arrival → Type 0
ValidArrival pending (arrived c bytes) =
    IsValid c × (c.buffer_idx + length bytes ≤ max_payload) × (c.pending_reqs ≡ pending)
ValidArrival pending (closing c) = IsValid c × (c.pending_reqs ≡ pending)
ValidArrival pending broken = Unit {0}
ValidArrival pending overrun = ⊥

pub arrive-Valid :
    (result : RecvResult) (c : Connection)
    → result ≢ nothing_there
    → IsValid c
    → ValidArrival c.pending_reqs (arrive result c)
unfolding arrive
arrive-Valid recv_error c some_result v = tt
arrive-Valid nothing_there c some_result v = absurd (some_result refl)
arrive-Valid (chunk bytes) c some_result v =
    let given = take (max_payload - c.buffer_idx) bytes in
    let inside : ltb max_payload c.buffer_idx ≡ false = ground (arith, v.index) in
    elim (Bool-cases (length given == 0)) [
      | inl nothing ↦ rw (inside, nothing) (record { size = v.size; index = v.index }, refl)
      | inr more ↦
          rw (inside, more)
            (v, omega (arith, length-take (max_payload - c.buffer_idx) bytes, v.index), refl)
    ]

module _ {C : Type 0} (Q : C → Type 0) where
  abbrev pub QEvent : C × ThreadStats × Bool → Type 0
  QEvent r = Q r.0

  -- The branches behind `recv` keep `Q`, if the read and the closing do.
  pub on_arrival-Kept :
      (pending : ℕ) (read : Connection → List ℕ → Outcome (C × ThreadStats × Bool))
      (closed : Connection → C) (stats : ThreadStats) (a : Arrival)
      → ValidArrival pending a
      → ((c : Connection) (bytes : List ℕ)
          → IsValid c
          → c.buffer_idx + length bytes ≤ max_payload
          → c.pending_reqs ≡ pending
          → Each QEvent (read c bytes))
      → ((c : Connection) → IsValid c → c.pending_reqs ≡ pending → Q (closed c))
      → Each (KeptEvent Q) (on_arrival read closed stats a)
  unfolding on_arrival
  on_arrival-Kept pending read closed stats broken v k l = Each-ok (KeptEvent Q) none tt
  on_arrival-Kept pending read closed stats overrun v k l = absurd v
  on_arrival-Kept pending read closed stats (closing c) v k l =
      Each-ok (KeptEvent Q) (some (closed c, stats, false)) (l c v.0 v.1)
  on_arrival-Kept pending read closed stats (arrived c bytes) v k l =
      Each-bind QEvent (k c bytes v.0 v.1 v.2) (λ r q. Each-ok (KeptEvent Q) (some r) q)

  pub pick_item-Hold :
      (conn_of : C → Connection) (max_pending count : ℕ) (items : List C) (k : ℕ)
      → All Q items × (length items ≡ count)
      → Each (λ p. All Q p.1 × (length p.1 ≡ count)) (pick_item conn_of max_pending items k)
  unfolding pick_item
  pick_item-Hold conn_of max_pending count items k held =
      Each-after (pick_conn (length items) max_pending (map conn_of items) k)
        (λ p. Each-ok (λ q. All Q q.1 × (length q.1 ≡ count)) _ held)

module _ (consume : Iovec → Outcome ByteReqPair) (max_pending : ℕ) where
  throughput-Keeps :
      (count : ℕ)
      → KeepsItems (throughput_tcp_main consume max_pending) IsValid count (λ x. Unit {0}) Ready
  unfolding throughput_tcp_main send_throughput on_throughput_event read_throughput
  throughput-Keeps count = record {
    pick = pick_item-Hold IsValid (λ c. c) max_pending count;
    send = λ x c stats u v.
        Each-bind _
          (on_throughput_send-IsValid x.should_measure x.sampled x.tx_timestamp x.results x.request
            (record { conn = c; stats = stats }) v)
          (λ r k. Each-ok (λ q. KeptItem IsValid q.1) _ (sent r.0 r.1 k));
    handle = handle;
  }
    where
      sent :
          (b : List ℕ) (o : Option AgentState)
          → ValidSent (b, o)
          → KeptItem IsValid (elim o [ none ↦ none | some s ↦ some (s.conn, s.stats) ])
      sent b none k = tt
      sent b (some s) k = k

      handle :
          (e : TcpEvent) (c : Connection) (stats : ThreadStats)
          → Ready e
          → IsValid c
          → Each (KeptEvent IsValid) (on_throughput_event consume max_pending e c stats)
      handle (epollin r) c stats ready v =
          on_arrival-Kept IsValid c.pending_reqs (read_throughput consume max_pending r stats)
            (λ c'. c') stats (arrive r.result c) (arrive-Valid r.result c ready v)
            (λ c' bytes v' fits same.
              Each-bind _
                (on_throughput_readable-IsValid consume r.should_measure
                  (record { conn = c'; stats = stats }) bytes v' fits)
                (λ s k. Each-ok _ (s.conn, s.stats, true) k))
            (λ c' v' same. v')
      handle (epollerr m) c stats ready v = Each-fault _ Fault.assertion
      handle other_event c stats ready v = Each-fault _ Fault.assertion

  -- Whatever the parser counts and whatever the kernel gives, as long as `recv` does not come to
  -- EWOULDBLOCK: every round of `throughput_tcp_main` leaves each connection with its buffer, and with
  -- an index that lies within it.
  pub throughput_tcp_main-IsValid :
      (rounds : List (Round SendInput TcpEvent)) (count : ℕ) (t t' : Thread Connection)
      → All
          (Fits (throughput_tcp_main consume max_pending) IsValid count (λ x. Unit {0}) Ready)
          rounds
      → main_loop (throughput_tcp_main consume max_pending) rounds t ≡ ok (some t')
      → All IsValid t.items × (length t.items ≡ count)
      → All IsValid t'.items × (length t'.items ≡ count)
  throughput_tcp_main-IsValid rounds count t t' ready ran held =
      main_loop-Hold (throughput_tcp_main consume max_pending) IsValid count (λ x. Unit {0}) Ready
        (throughput-Keeps count) rounds t t' ready ran held
