-- ===== src/R2p2/Exchange.antt =====
-- A request of the symmetric agent over R2P2 and the callback for its response (agents/tp_r2p2.c:75-105, 433-498).
use native.Mathlib.Nat.{mod-lt}
use lancet_tool.Base.{
  ℕ, ◌<◌, ◌≡◌, refl, List, [], ◌∷◌, ◌++◌, true, false, some, get_elem?, take, length, ◌-ℤ◌, ok,
  ◌==◌, ◌%◌, ◌^◌, if◌then◌else◌, arith, Bool-cases, inl, inr,
}
use lancet_tool.AppProto.{ByteReqPair, Iovec, payload}
use lancet_tool.Timespec.{IsNormal, timespec_diff_lem, to_ns, is_zero}
use lancet_tool.Stats.{
  ThreadStats, add_latency_sample, add_throughput_rx_sample, add_throughput_tx_sample,
  add_tx_timestamp,
}
use lancet_tool.Tcp.Send.{total_len}
use lancet_tool.R2p2.Contexts.{context_at-live}
use lancet_tool.R2p2.{
  R2p2Ctx, R2p2Heap, R2p2Send, R2p2Event, success, pick_target, sum_bytes, release, hand_over,
  lancet_success_timestamping_cb, on_symmetric_r2p2_send, on_symmetric_callback,
}

-- The target that a request goes to: the first one, or the one that was drawn.
abbrev pub target_of : (fixed_route target_count : ℕ) → R2p2Send → ℕ
target_of fixed_route target_count x =
    if x.request.meta == fixed_route then 0 else x.rand % target_count

pub pick_target_lem :
    (fixed_route target_count : ℕ) (x : R2p2Send)
    → 0 < target_count
    → (pick_target fixed_route target_count x ≡ ok (target_of fixed_route target_count x))
      × (target_of fixed_route target_count x < target_count)
unfolding pick_target
pick_target_lem fixed_route target_count x some_target =
    elim (Bool-cases (x.request.meta == fixed_route)) [
      | inl fixed ↦ (rw fixed refl, rw fixed some_target)
      | inr any ↦
          let nonzero : (target_count == 0) ≡ false = ground arith in
          (rw (any, nonzero) refl, rw any (mod-lt x.rand some_target))
    ]

get_elem?-last : {A : Type 0} (xs : List A) (a : A) → get_elem? (xs ++ a ∷ []) (length xs) ≡ some a
get_elem?-last [] a = refl
get_elem?-last (x ∷ xs) a = get_elem?-last xs a

module _ (e : R2p2Event) (iov : List Iovec) (heap : R2p2Heap) (ctx : R2p2Ctx)
    (stats sampled : ThreadStats) (n : IsNormal e.now) (n' : IsNormal ctx.tx_timestamp)
    (z : is_zero e.now.tv_sec ≡ false) (z' : is_zero ctx.tx_timestamp.tv_sec ≡ false)
    (offered : add_latency_sample e.should_measure e.period
        (to_ns e.now -ℤ to_ns ctx.tx_timestamp)
        (some ctx.tx_timestamp)
        (add_throughput_rx_sample e.should_measure
          (record { bytes = sum_bytes 0 iov; reqs = 1 })
          stats)
      ≡ ok sampled) where
  -- The difference that is sampled is exact.
  sample_lem :
      lancet_success_timestamping_cb e ctx iov heap stats ≡ ok (release e.ctx heap, sampled)
  unfolding lancet_success_timestamping_cb
  sample_lem =
      let (d, ran, normal, gap) = timespec_diff_lem e.now ctx.tx_timestamp n n' z z' in
      rw (ran, lancet_success_timestamping_cb, gap, offered) refl

  -- The callback for a response, in a heap where the context still holds the time of its request.
  success_lem :
      get_elem? heap.contexts e.ctx ≡ some (some ctx)
      → on_symmetric_callback e (success iov) heap stats
        ≡ ok (some (release e.ctx heap, sampled, true))
  unfolding on_symmetric_callback
  success_lem at = rw (context_at-live heap e.ctx ctx at, sample_lem) refl

-- The context of a request of the symmetric agent.
abbrev pub context_for : (fixed_route target_count : ℕ) → R2p2Send → R2p2Ctx
context_for fixed_route target_count x = record {
  destination = target_of fixed_route target_count x;
  timeout = 5000000;
  routing_policy = x.request.meta % 2 ^ 32;
  tx_timestamp = x.now;
}

-- A request of the symmetric agent at the time `x.now`: its payload is handed to the library with one of
-- the targets, and with a fresh context. When the library calls back for this context with a response,
-- and both times are proper and set, the latency offered to the statistics is exactly the difference of
-- the two, whatever other contexts were allocated or freed in between; and the context is freed.
pub r2p2_exchange_lem :
    (fixed_route target_count : ℕ) (x : R2p2Send) (heap : R2p2Heap) (stats : ThreadStats)
    (e : R2p2Event) (iov : List Iovec) (later : R2p2Heap) (before sampled : ThreadStats)
    → 0 < target_count
    → IsNormal x.now
    → is_zero x.now.tv_sec ≡ false
    → e.ctx ≡ length heap.contexts
    → get_elem? later.contexts e.ctx ≡ some (some (context_for fixed_route target_count x))
    → IsNormal e.now
    → is_zero e.now.tv_sec ≡ false
    → add_latency_sample e.should_measure e.period (to_ns e.now -ℤ to_ns x.now) (some x.now) (
        add_throughput_rx_sample e.should_measure
          (record { bytes = sum_bytes 0 iov; reqs = 1 })
          before)
      ≡ ok sampled
    → (heap' : R2p2Heap) × (stats' : ThreadStats) × (on_symmetric_r2p2_send fixed_route target_count
          x heap stats
        ≡ ok (payload x.request, some (heap', stats')))
      × (get_elem? heap'.contexts e.ctx ≡ some (some (context_for fixed_route target_count x)))
      × (target_of fixed_route target_count x < target_count)
      × (on_symmetric_callback e (success iov) later before
          ≡ ok (some (release e.ctx later, sampled, true)))
unfolding on_symmetric_r2p2_send hand_over
r2p2_exchange_lem fixed_route target_count x heap stats e iov later before sampled some_target n z
      same at n' z' offered =
    let (found, inside) = pick_target_lem fixed_route target_count x some_target in
    let ctx = context_for fixed_route target_count x in
    let send_res : ByteReqPair = record {
      bytes = total_len (take x.request.iov_cnt x.request.iovs);
      reqs = 1;
    } in
    (
      record heap { contexts = heap.contexts ++ some ctx ∷ [] },
      add_tx_timestamp x.sampled x.now (add_throughput_tx_sample x.should_measure send_res stats),
      rw found refl,
      rw same (get_elem?-last heap.contexts (some ctx)),
      inside,
      success_lem e iov later ctx before sampled n' n z' z offered at,
    )
