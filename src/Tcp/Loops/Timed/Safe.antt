-- ===== src/Tcp/Loops/Timed/Safe.antt =====
-- The buffers of the connections of symmetric_tcp_main and symmetric_nic_tcp_main
-- (agents/tp_tcp.c:415-718).
use lancet_tool.Base.{
  ℕ, ◌+◌, ◌%◌, ◌≤◌, ◌≡◌, refl, ◌∙◌, length-set, List, [], ◌++◌, Bool, Option, some, none, take,
  length, Outcome, ok, Fault, suc,
}
use lancet_tool.Base.Each.{All, Each, Each-ok, Each-fault, Each-bind, Each-after, Each-option}
use lancet_tool.AppProto.{ByteReqPair, Iovec}
use lancet_tool.Stats.{ThreadStats}
use lancet_tool.Timestamping.{TimestampInfo, PendingTx, add_pending_tx_timestamp}
use lancet_tool.EventLoop.{Thread, Round, main_loop}
use lancet_tool.EventLoop.Items.{KeptItem, KeptEvent, Fits, main_loop-Hold}
use lancet_tool.Tcp.{Connection, max_payload, received, handle_response}
use lancet_tool.Tcp.Buffer.{IsValid}
use lancet_tool.Tcp.Send.{total_len, written}
use lancet_tool.Tcp.Symmetric.{SymState}
use lancet_tool.Tcp.Bounds.{Counts64}
use lancet_tool.Tcp.Symmetric.Bounds.{
  IsPaired, sent-IsPaired, on_symmetric_readable-IsPaired, on_symmetric_send-IsPaired,
}
use lancet_tool.Timestamping.Counters.{get_tx_timestamp-SameRing}
use lancet_tool.Tcp.Loops.{arrive, ReadInput, TcpEvent, epollin, epollerr, other_event, SendInput}
use lancet_tool.Tcp.Loops.Timed.{
  Link, to_state, to_link, on_nic_send, on_nic_readable, read_symmetric, on_symmetric_event,
  fetch_times, on_nic_event, send_symmetric, send_nic, first_result, symmetric_tcp_main,
  symmetric_nic_tcp_main,
}
use lancet_tool.Tcp.Loops.Safe.{Ready, arrive-Valid, on_arrival-Kept, pick_item-Hold}

-- The connection with its ring.
abbrev pub ValidLink : ℕ → Link → Type 0
ValidLink max_pending l = IsPaired max_pending l.conn l.ring

abbrev KeptState : ℕ → Option SymState → Type 0
KeptState max_pending none = Unit {0}
KeptState max_pending (some s) = IsPaired max_pending s.conn s.times.ring

module _ (consume : Iovec → Outcome ByteReqPair) (small : Counts64 consume) (max_pending : ℕ)
    (junk : TimestampInfo) where
  abbrev PairedRead : SymState × Bool → Type 0
  PairedRead q = IsPaired max_pending q.0.conn q.0.times.ring

  read_symmetric-Valid :
      (r : ReadInput) (l : Link) (stats : ThreadStats) (c : Connection) (bytes : List ℕ)
      → IsPaired max_pending c l.ring
      → c.buffer_idx + length bytes ≤ max_payload
      → Each
          (λ q. ValidLink max_pending q.0)
          (read_symmetric consume max_pending junk r l stats c bytes)
  unfolding read_symmetric on_nic_readable
  read_symmetric-Valid r l stats c bytes v fits =
      Each-bind PairedRead
        (Each-after (handle_response consume (received c bytes)) (λ h.
          Each-bind _
            (on_symmetric_readable-IsPaired max_pending junk consume small r.should_measure r.period
              r.time (to_state (record l { conn = c }) stats) bytes v fits)
            (λ s k. Each-ok PairedRead (s, _) k)))
        (λ s k. Each-ok (λ q. ValidLink max_pending q.0) (to_link s.0, s.0.times.stats, s.1) k)

  -- The connection that `recv` leaves, with the ring of the one before.
  still-IsPaired :
      (c c' : Connection) (t : PendingTx)
      → IsPaired max_pending c t
      → IsValid c'
      → c'.pending_reqs ≡ c.pending_reqs
      → IsPaired max_pending c' t
  still-IsPaired c c' t v valid same = record {
    buffer = valid;
    size = v.size;
    under_way = rw same v.under_way;
  }

  on_symmetric_event-Valid :
      (e : TcpEvent) (l : Link) (stats : ThreadStats)
      → Ready e
      → ValidLink max_pending l
      → Each
          (KeptEvent (ValidLink max_pending))
          (on_symmetric_event consume max_pending junk e l stats)
  unfolding on_symmetric_event
  on_symmetric_event-Valid (epollin r) l stats ready v =
      on_arrival-Kept (ValidLink max_pending) l.conn.pending_reqs
        (read_symmetric consume max_pending junk r l stats) (λ c. record l { conn = c }) stats
        (arrive r.result l.conn) (arrive-Valid r.result l.conn ready v.buffer)
        (λ c bytes valid fits same.
          read_symmetric-Valid r l stats c bytes (still-IsPaired l.conn c l.ring v valid same) fits)
        (λ c valid same. still-IsPaired l.conn c l.ring v valid same)
  on_symmetric_event-Valid (epollerr m) l stats ready v = Each-fault _ Fault.assertion
  on_symmetric_event-Valid other_event l stats ready v = Each-fault _ Fault.assertion

  on_nic_event-Valid :
      (e : TcpEvent) (l : Link) (stats : ThreadStats)
      → Ready e
      → ValidLink max_pending l
      → Each (KeptEvent (ValidLink max_pending)) (on_nic_event consume max_pending junk e l stats)
  unfolding on_nic_event fetch_times
  on_nic_event-Valid (epollin r) l stats ready v =
      on_symmetric_event-Valid (epollin r) l stats ready v
  on_nic_event-Valid (epollerr m) l stats ready v =
      Each-bind _
        (get_tx_timestamp-SameRing max_pending (suc max_pending) junk (l.queue ++ m)
          (record { ring = l.ring; stats = stats; draws = l.draws }))
        (λ r same. Each-ok (KeptEvent (ValidLink max_pending)) _ (record {
          buffer = v.buffer;
          size = same.size ∙ v.size;
          under_way = rw (same.head, same.consumed) v.under_way;
        }))
  on_nic_event-Valid other_event l stats ready v =
      on_symmetric_event-Valid other_event l stats ready v

  send_nic-Valid :
      (x : SendInput) (l : Link) (stats : ThreadStats)
      → ValidLink max_pending l
      → Each
          (λ r. KeptItem (ValidLink max_pending) r.1)
          (send_nic consume max_pending junk x l stats)
  unfolding send_nic on_nic_send add_pending_tx_timestamp
  send_nic-Valid x l stats v =
      Each-bind (λ (r : List ℕ × Option SymState). KeptState max_pending r.1)
        (Each-after
          (written (first_result x.results) (total_len (take x.request.iov_cnt x.request.iovs)))
          (λ w.
            Each-option w
              (Each-ok (λ (r : List ℕ × Option SymState). KeptState max_pending r.1) ([], none) tt)
              (λ ret.
                Each-ok (λ (r : List ℕ × Option SymState). KeptState max_pending r.1) _
                  (sent-IsPaired max_pending l.conn l.ring
                    (add_pending_tx_timestamp max_pending l.ring
                      (total_len (take x.request.iov_cnt x.request.iovs)))
                    v refl refl (length-set l.ring.pending (l.ring.head % max_pending) _)))))
        (λ r k. Each-ok (λ q. KeptItem (ValidLink max_pending) q.1) _ (sent r.1 k))
    where
      sent :
          (o : Option SymState)
          → KeptState max_pending o
          → KeptItem
              (ValidLink max_pending)
              (elim o [ none ↦ none | some s ↦ some (to_link s, s.times.stats) ])
      sent none k = tt
      sent (some s) k = k

  -- `symmetric_nic_tcp_main`, for any parser whose counts have 64 bits and whatever the kernel gives and
  -- reports, as long as `recv` does not come to EWOULDBLOCK: the rounds, from connections for which this
  -- holds, leave each connection with its buffer and an index that lies within it, and with its ring of
  -- `max_pending` entries, of which the places from `consumed` to `head` are as many as `pending_reqs`,
  -- modulo 2^16.
  pub symmetric_nic_tcp_main-IsValid :
      (rounds : List (Round SendInput TcpEvent)) (count : ℕ) (t t' : Thread Link)
      → All
          (Fits
            (symmetric_nic_tcp_main consume max_pending junk)
            (ValidLink max_pending)
            count
            (λ x. Unit {0})
            Ready)
          rounds
      → main_loop (symmetric_nic_tcp_main consume max_pending junk) rounds t ≡ ok (some t')
      → All (ValidLink max_pending) t.items × (length t.items ≡ count)
      → All (ValidLink max_pending) t'.items × (length t'.items ≡ count)
  unfolding symmetric_nic_tcp_main
  symmetric_nic_tcp_main-IsValid rounds count t t' ready ran held =
      main_loop-Hold (symmetric_nic_tcp_main consume max_pending junk) (ValidLink max_pending) count
        (λ x. Unit {0}) Ready
        (record {
          pick = pick_item-Hold (ValidLink max_pending) (λ l. l.conn) max_pending count;
          send = λ x l stats u v. send_nic-Valid x l stats v;
          handle = on_nic_event-Valid;
        })
        rounds t t' ready ran held

  -- `symmetric_tcp_main`, under the same conditions.
  pub symmetric_tcp_main-IsValid :
      (rounds : List (Round SendInput TcpEvent)) (count : ℕ) (t t' : Thread Link)
      → All
          (Fits
            (symmetric_tcp_main consume max_pending junk)
            (ValidLink max_pending)
            count
            (λ x. Unit {0})
            Ready)
          rounds
      → main_loop (symmetric_tcp_main consume max_pending junk) rounds t ≡ ok (some t')
      → All (ValidLink max_pending) t.items × (length t.items ≡ count)
      → All (ValidLink max_pending) t'.items × (length t'.items ≡ count)
  unfolding symmetric_tcp_main send_symmetric
  symmetric_tcp_main-IsValid rounds count t t' ready ran held =
      main_loop-Hold (symmetric_tcp_main consume max_pending junk) (ValidLink max_pending) count
        (λ x. Unit {0}) Ready
        (record {
          pick = pick_item-Hold (ValidLink max_pending) (λ l. l.conn) max_pending count;
          send = λ x l stats u v.
              Each-bind _
                (on_symmetric_send-IsPaired x.should_measure max_pending x.sampled x.tx_timestamp
                  x.results x.request (to_state l stats) v)
                (λ r k. Each-ok (λ q. KeptItem (ValidLink max_pending) q.1) _ k);
          handle = on_symmetric_event-Valid;
        })
        rounds t t' ready ran held
