-- ===== src/Tcp/Symmetric/Matching.antt =====
-- The transmit times that a read of the symmetric agent uses up (agents/tp_tcp.c:684-709).
use lancet_tool.Base.{
  some_inj, none≢some, ℕ, ◌+◌, ◌^◌, ◌<◌, ◌≡◌, refl, sym, ap, subst, ◌∙◌, List, [], ◌∷◌, ◌++◌, Bool,
  false, Option, some, none, arith, length, length-append, ◌-ℤ◌, inl, inr, Outcome, ok, fault,
  Fault,
}
use lancet_tool.Timespec.{TimeSpec, IsNormal, is_zero, to_ns, timespec_diff_lem}
use lancet_tool.Stats.{ThreadStats, add_latency_sample}
use lancet_tool.Timestamping.{TimestampInfo}
use lancet_tool.Timestamping.Queue as Queue
use lancet_tool.Tcp.{Connection, sub_u16}
use lancet_tool.Tcp.Buffer.{
  Parses, waiting, length-waiting, received_lem, Handled, handle_response_lem,
}
use lancet_tool.Tcp.Buffer as Buffer
use lancet_tool.Tcp.Symmetric.{SymState, next_time, match_times, record_latency}

-- The last of these times.
abbrev pub newest : Option TimeSpec → List TimeSpec → Option TimeSpec
newest o [] = o
newest o (t ∷ ts) = newest (some t) ts

abbrev pub time_of : Option TimestampInfo → Option TimeSpec
time_of none = none
time_of (some info) = some info.time

module _ (max_pending : ℕ) (junk : TimestampInfo) where
  -- The loop takes as many times as there are responses, oldest first, and asks the kernel for none.
  pub match_times_lem :
      (taken rest : List TimeSpec) (last : Option TimestampInfo) (s : SymState)
      → Queue.IsValid max_pending s.times.ring
      → Queue.completed max_pending s.times.ring ≡ taken ++ rest
      → (info : Option TimestampInfo) × (s' : SymState) × (match_times max_pending junk
            (length taken)
            last
            s
          ≡ ok (info, s'))
        × (time_of info ≡ newest (time_of last) taken)
        × Queue.IsValid max_pending s'.times.ring
        × (Queue.completed max_pending s'.times.ring ≡ rest)
        × (s'.times.stats ≡ s.times.stats)
        × (s'.conn ≡ s.conn)
        × (s'.times.ring.head ≡ s.times.ring.head)
        × (s'.times.ring.tail ≡ s.times.ring.tail)
  unfolding match_times next_time
  match_times_lem [] rest last s v e = (last, s, refl, refl, v, e, refl, refl, refl, refl)
  match_times_lem (t ∷ ts) rest last s v e =
      elim (Queue.pop_pending_tx_timestamps_lem max_pending s.times.ring v) [
        | inl (none_there, ran) ↦ absurd (nil≢cons (sym none_there ∙ e))
        | inr (info, ring, ran, front, same, v', heads, tails) ↦
            let next : SymState = record s { times = record s.times { ring = ring } } in
            let (head_time, others) = cons_inj (sym front ∙ e) in
            let (last', s', ran', time, v'', left, stats, conn, heads', tails') =
              match_times_lem ts rest (some info) next v' others in
            (
              last',
              s',
              rw ran ran',
              time ∙ ap (λ o. newest o ts) (ap some head_time),
              v'',
              left,
              stats,
              conn,
              heads' ∙ heads,
              tails' ∙ tails,
            )
      ]
    where
      nil≢cons : {x : TimeSpec} {xs : List TimeSpec} → [] ≡ x ∷ xs → ⊥
      nil≢cons h = cc

      cons_inj : {x y : TimeSpec} {xs ys : List TimeSpec} → x ∷ xs ≡ y ∷ ys → (x ≡ y) × (xs ≡ ys)
      cons_inj h = (cc, cc)

pub newest-snoc :
    (o : Option TimeSpec) (ts : List TimeSpec) (t : TimeSpec) → newest o (ts ++ t ∷ []) ≡ some t
newest-snoc o [] t = refl
newest-snoc o (x ∷ ts) t = newest-snoc (some x) ts t

record_latency-some :
    (should_measure : Bool) (period : ℕ) (rx : TimeSpec) (info : TimestampInfo)
    (stats : ThreadStats)
    → IsNormal rx
    → is_zero rx.tv_sec ≡ false
    → IsNormal info.time
    → is_zero info.time.tv_sec ≡ false
    → record_latency should_measure period rx (some info) stats
      ≡ add_latency_sample should_measure period
          (to_ns rx -ℤ to_ns info.time)
          (some info.time)
          stats
unfolding record_latency
record_latency-some should_measure period rx info stats n z n' z' =
    let (d, ran, normal, gap) = timespec_diff_lem rx info.time n n' z z' in
    let outcome : Option TimeSpec → Outcome ThreadStats = λ o. elim o [
      | none ↦ fault Fault.assertion
      | some l ↦ add_latency_sample should_measure period (to_ns l) (some info.time) stats
    ] in
    ap outcome ran ∙ ap (λ g. add_latency_sample should_measure period g (some info.time) stats) gap

-- The difference that is sampled is exact.
pub record_latency_lem :
    (should_measure : Bool) (period : ℕ) (rx sent : TimeSpec) (info : Option TimestampInfo)
    (stats : ThreadStats)
    → time_of info ≡ some sent
    → IsNormal rx
    → is_zero rx.tv_sec ≡ false
    → IsNormal sent
    → is_zero sent.tv_sec ≡ false
    → record_latency should_measure period rx info stats
      ≡ add_latency_sample should_measure period (to_ns rx -ℤ to_ns sent) (some sent) stats
record_latency_lem should_measure period rx sent none stats e n z = absurd (none≢some e)
record_latency_lem should_measure period rx sent (some info) stats e n z =
    subst
      (λ t.
        IsNormal t
        → is_zero t.tv_sec ≡ false
        → record_latency should_measure period rx (some info) stats
          ≡ add_latency_sample should_measure period (to_ns rx -ℤ to_ns t) (some t) stats)
      (some_inj e) (record_latency-some should_measure period rx info stats n z)

-- Each request under way has its transmit time in the ring, and only those do.
pub record IsMatched (max_pending : ℕ) (s : SymState) : Type 0 where
  pub buffer : Buffer.IsValid s.conn
  pub ring : Queue.IsValid max_pending s.times.ring
  pub known : s.times.ring.head ≡ s.times.ring.tail
  pub pending : s.conn.pending_reqs ≡ length (Queue.completed max_pending s.times.ring)
  pub width : s.conn.pending_reqs < 2 ^ 16

-- `pending_reqs` is right again when the times of the answered requests have left the ring.
pub matched_lem :
    (max_pending reqs : ℕ) (s s' : SymState) (c : Connection) (all rest : List TimeSpec)
    → IsMatched max_pending s
    → reqs ≡ length all
    → Queue.completed max_pending s.times.ring ≡ all ++ rest
    → Buffer.IsValid c
    → c.pending_reqs ≡ s.conn.pending_reqs
    → Queue.IsValid max_pending s'.times.ring
    → Queue.completed max_pending s'.times.ring ≡ rest
    → s'.times.ring.head ≡ s.times.ring.head
    → s'.times.ring.tail ≡ s.times.ring.tail
    → s'.conn ≡ record c { pending_reqs = sub_u16 c.pending_reqs reqs }
    → IsMatched max_pending s'
matched_lem max_pending reqs s s' c all rest v many times bv same_pending rv left heads tails conn =
    let total : s.conn.pending_reqs ≡ length all + length rest =
      v.pending ∙ ap length times ∙ length-append all rest in
    let now : s'.conn.pending_reqs ≡ sub_u16 c.pending_reqs reqs = ap (λ t. t.pending_reqs) conn in
    let fewer : s'.conn.pending_reqs ≡ length rest = omega (arith, v.width) in
    record {
      buffer = subst Buffer.IsValid (sym conn) (record { size = bv.size; index = bv.index });
      ring = rv;
      known = heads ∙ v.known ∙ sym tails;
      pending = fewer ∙ sym (ap length left);
      width = omega (arith, v.width);
    }
