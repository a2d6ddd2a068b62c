-- ===== src/Tcp/Symmetric/Bounds.antt =====
-- The buffer of a connection and the ring of its transmit times in the symmetric agents
-- (agents/tp_tcp.c:550-713), whatever the parser counts and the kernel reports.
use lancet_tool.Base.{
  ℕ, ◌+◌, ◌%◌, ◌^◌, ◌<◌, ◌≤◌, ◌≡◌, sym, subst, ◌∙◌, refl, List, Outcome, Bool, take, length,
  length-set, none, ◌==◌, arith,
}
use lancet_tool.Base.Each.{Each, Each-ok, Each-bind, Each-after, Each-if, Each-both}
use lancet_tool.AppProto.{ByteReqPair, Iovec, Request}
use lancet_tool.Timespec.{TimeSpec}
use lancet_tool.Stats.{add_u32}
use lancet_tool.Timestamping.{TimestampInfo, PendingTx, push_complete_tx_timestamp}
use lancet_tool.Tcp.{Connection, max_payload, received, add_u16, sub_u16}
use lancet_tool.Tcp.Buffer.{IsValid, received_lem}
use lancet_tool.Tcp.Bounds.{Counts64, Left, handle_response-IsValid, handle_response-Left}
use lancet_tool.Tcp.Send.{SendResult, send_request}
use lancet_tool.Tcp.Symmetric.{SymState, record_latency, on_symmetric_readable, on_symmetric_send}
use lancet_tool.Tcp.Symmetric.Uses.{Used, match_times-Used}

-- The connection has its buffer, the ring its entries, and the places of the ring from `consumed` to
-- `head` are as many as the requests under way, as far as the 16 bits of `pending_reqs` tell.
pub record IsPaired (max_pending : ℕ) (c : Connection) (t : PendingTx) : Type 0 where
  pub buffer : IsValid c
  pub size : length t.pending ≡ max_pending
  pub under_way : (t.consumed + c.pending_reqs) % 2 ^ 16 ≡ t.head % 2 ^ 16

module _ (max_pending : ℕ) (junk : TimestampInfo) where
  abbrev pub PairedState : SymState → Type 0
  PairedState s = IsPaired max_pending s.conn s.times.ring

  received-pending :
      (c : Connection) (bytes : List ℕ) → (received c bytes).pending_reqs ≡ c.pending_reqs
  unfolding received
  received-pending c bytes = refl

  -- As many requests are answered as times are used.
  answered_lem :
      (consumed pending reqs consumed' head : ℕ)
      → (consumed + pending) % 2 ^ 16 ≡ head % 2 ^ 16
      → consumed' % 2 ^ 16 ≡ (consumed + reqs) % 2 ^ 16
      → reqs < 2 ^ 64
      → (consumed' + sub_u16 pending reqs) % 2 ^ 16 ≡ head % 2 ^ 16
  answered_lem consumed pending reqs consumed' head before used small = omega arith

  pub on_symmetric_readable-IsPaired :
      (consume : Iovec → Outcome ByteReqPair)
      → Counts64 consume
      → (should_measure : Bool) (period : ℕ) (rx_timestamp : TimeSpec) (s : SymState)
        (bytes : List ℕ)
      → PairedState s
      → s.conn.buffer_idx + length bytes ≤ max_payload
      → Each PairedState (
          on_symmetric_readable consume should_measure period max_pending junk rx_timestamp s bytes)
  unfolding on_symmetric_readable
  on_symmetric_readable-IsPaired consume small should_measure period rx_timestamp s bytes v fits =
      Each-bind (λ r. IsValid r.1 × Left (received s.conn bytes) r)
        (Each-both
          (handle_response-IsValid consume (received s.conn bytes)
            (received_lem s.conn bytes v.buffer fits).0)
          (handle_response-Left consume small (received s.conn bytes)))
        (λ h (valid, (same, lt)).
          let as_before : h.1.pending_reqs ≡ s.conn.pending_reqs =
            same ∙ received-pending s.conn bytes in
          Each-if (h.0.reqs == 0)
            (λ e.
              Each-ok PairedState _
                (record { buffer = valid; size = v.size; under_way = rw as_before v.under_way }))
            (λ e. Each-bind _ (match_times-Used max_pending junk h.0.reqs none _) (λ m used.
              Each-after (record_latency should_measure period rx_timestamp m.0 m.1.times.stats)
                (λ stats. Each-ok PairedState _ (after h m.1 valid as_before lt used)))))
    where
      after :
          (h : ByteReqPair × Connection) (s' : SymState)
          → IsValid h.1
          → h.1.pending_reqs ≡ s.conn.pending_reqs
          → h.0.reqs < 2 ^ 64
          → Used h.0.reqs
              (record s {
                conn = let c = h.1 in record c { pending_reqs = sub_u16 c.pending_reqs h.0.reqs };
              })
              s'
          → PairedState s'
      after h s' valid as_before lt used = record {
        buffer = subst IsValid (sym used.conn) (record { size = valid.size; index = valid.index });
        size = used.size ∙ v.size;
        under_way =
            rw (used.conn, used.head, as_before)
              (answered_lem s.times.ring.consumed s.conn.pending_reqs h.0.reqs
                s'.times.ring.consumed s.times.ring.head v.under_way used.consumed lt);
      }

-- One more request is under way, and the ring has one more place in use.
sent_lem :
    (consumed pending head : ℕ)
    → (consumed + pending) % 2 ^ 16 ≡ head % 2 ^ 16
    → (consumed + add_u16 pending 1) % 2 ^ 16 ≡ add_u32 head 1 % 2 ^ 16
sent_lem consumed pending head before = omega arith

pub sent-IsPaired :
    (max_pending : ℕ) (c : Connection) (t t' : PendingTx)
    → IsPaired max_pending c t
    → t'.head ≡ add_u32 t.head 1
    → t'.consumed ≡ t.consumed
    → length t'.pending ≡ length t.pending
    → IsPaired max_pending (record c { pending_reqs = add_u16 c.pending_reqs 1 }) t'
sent-IsPaired max_pending c t t' v head consumed size = record {
  buffer = record { size = v.buffer.size; index = v.buffer.index };
  size = size ∙ v.size;
  under_way = rw (head, consumed) (sent_lem t.consumed c.pending_reqs t.head v.under_way);
}

pub on_symmetric_send-IsPaired :
    (should_measure : Bool) (max_pending : ℕ) (sampled : Bool) (tx : TimeSpec)
    (results : List SendResult) (req : Request) (s : SymState)
    → IsPaired max_pending s.conn s.times.ring
    → Each
        (λ r. IsPaired max_pending r.1.conn r.1.times.ring)
        (on_symmetric_send should_measure max_pending sampled tx results req s)
unfolding on_symmetric_send push_complete_tx_timestamp
on_symmetric_send-IsPaired should_measure max_pending sampled tx results req s v =
    let t = s.times.ring in
    let pushed = push_complete_tx_timestamp max_pending sampled t tx s.times.stats in
    Each-after (send_request results (take req.iov_cnt req.iovs)) (λ r.
      Each-ok (λ q. IsPaired max_pending q.1.conn q.1.times.ring) _
        (sent-IsPaired max_pending s.conn t pushed.0 v refl refl
          (length-set t.pending (t.tail % max_pending) _)))
