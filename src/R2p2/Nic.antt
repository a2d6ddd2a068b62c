-- ===== src/R2p2/Nic.antt =====
-- symmetric_nic_r2p2_main and its callback (agents/tp_r2p2.c:41-72, 360-431), of the build with the times
-- of the network card, which the library writes into the contexts.
use lancet_tool.Base.{
  ℕ, ◌%◌, ◌^◌, ◌==◌, ◌≡◌, refl, if◌then◌else◌, List, [], ◌∷◌, ◌++◌, Bool, true, false, Option, some,
  none, get_elem?, take, pos, ◌-ℤ◌, Outcome, ok, fault, Fault, ◌>>=◌,
}
use lancet_tool.AppProto.{ByteReqPair, Iovec, gather}
use lancet_tool.Timespec.{TimeSpec, timespec_diff, to_ns, IsNormal, is_zero, timespec_diff_lem}
use lancet_tool.Stats.{
  ThreadStats, add_latency_sample, add_throughput_rx_sample, add_throughput_tx_sample,
  add_tx_timestamp,
}
use lancet_tool.Tcp.Send.{total_len}
use lancet_tool.EventLoop.{Handlers}
use lancet_tool.R2p2.{
  R2p2Ctx, R2p2Heap, R2p2Send, Callback, success, failure, timeout, sum_bytes, context_at, release,
  only_item,
}
use lancet_tool.R2p2.Contexts.{context_at-live}

-- A callback, with the times that the context holds by then and the draw of `add_tx_timestamp`.
pub record NicEvent : Type 0 where
  pub ctx : ℕ
  pub callback : Callback
  pub tx_timestamp : TimeSpec
  pub rx_timestamp : TimeSpec
  pub sampled : Bool
  pub should_measure : Bool
  pub period : ℕ

-- `lancet_success_nic_timestamping_cb`
lancet_success_nic_timestamping_cb :
    NicEvent → List Iovec → R2p2Heap → ThreadStats → Outcome (R2p2Heap × ThreadStats)
lancet_success_nic_timestamping_cb e iov heap stats =
    let read_res : ByteReqPair = record { bytes = sum_bytes 0 iov; reqs = 1 } in
    let counted = add_throughput_rx_sample e.should_measure read_res stats in
    elim (timespec_diff (some e.rx_timestamp) (some e.tx_timestamp)) [
      | none ↦ ok (release e.ctx heap, counted)
      | some latency ↦
          add_latency_sample e.should_measure e.period (to_ns latency) (some e.tx_timestamp)
            (add_tx_timestamp e.sampled e.tx_timestamp counted)
          >>= λ s. ok (release e.ctx heap, s)
    ]

-- A callback.
pub on_nic_callback :
    NicEvent → Callback → R2p2Heap → ThreadStats → Outcome (Option (R2p2Heap × ThreadStats × Bool))
unfolding lancet_success_nic_timestamping_cb
on_nic_callback e (success iov) heap stats = context_at heap e.ctx >>= λ ctx.
    lancet_success_nic_timestamping_cb e iov heap stats >>= λ r. ok (some (r.0, r.1, true))
on_nic_callback e failure heap stats =
    context_at heap e.ctx >>= λ ctx. ok (some (release e.ctx heap, stats, true))
on_nic_callback e timeout heap stats =
    context_at heap e.ctx >>= λ ctx. ok (some (release e.ctx heap, stats, true))

-- The target of a request: every one with a route goes to the first target.
nic_target : (target_count : ℕ) → R2p2Send → Outcome ℕ
nic_target target_count x =
    if x.request.meta == 0
    then (if target_count == 0 then fault Fault.div_by_zero else ok (x.rand % target_count))
    else ok 0

-- A request. The context was allocated behind the request before it, and counts as fresh from here on.
pub on_nic_r2p2_send :
    (target_count : ℕ)
    → R2p2Send
    → R2p2Heap
    → ThreadStats
    → Outcome (List ℕ × Option (R2p2Heap × ThreadStats))
unfolding nic_target
on_nic_r2p2_send target_count x heap stats =
    let iovs = take x.request.iov_cnt x.request.iovs in
    nic_target target_count x >>= λ target.
    let ctx : R2p2Ctx = record {
      destination = target;
      timeout = 1000000;
      routing_policy = x.request.meta % 2 ^ 32;
      tx_timestamp = record { tv_sec = pos 0; tv_nsec = pos 0 };
    } in
    let send_res : ByteReqPair = record { bytes = total_len iovs; reqs = 1 } in
    ok (
      gather iovs,
      some (
        record heap { contexts = heap.contexts ++ some ctx ∷ [] },
        add_throughput_tx_sample x.should_measure send_res stats,
      ),
    )

-- `symmetric_nic_r2p2_main`
pub symmetric_nic_r2p2_main : (target_count : ℕ) → Handlers R2p2Heap R2p2Send NicEvent
unfolding on_nic_r2p2_send on_nic_callback
symmetric_nic_r2p2_main target_count = record {
  pick = only_item;
  send = on_nic_r2p2_send target_count;
  handle = λ e heap stats. on_nic_callback e e.callback heap stats;
  repeats = false;
  breaks = false;
}

-- A response for a live context with two proper times that are set: its transmit time is told to the
-- statistics, the latency offered to them is exactly the difference of the two, and the context is freed.
pub on_nic_callback_success :
    (e : NicEvent) (iov : List Iovec) (heap : R2p2Heap) (ctx : R2p2Ctx)
    (stats sampled : ThreadStats)
    → get_elem? heap.contexts e.ctx ≡ some (some ctx)
    → IsNormal e.rx_timestamp
    → IsNormal e.tx_timestamp
    → is_zero e.rx_timestamp.tv_sec ≡ false
    → is_zero e.tx_timestamp.tv_sec ≡ false
    → add_latency_sample e.should_measure e.period
        (to_ns e.rx_timestamp -ℤ to_ns e.tx_timestamp)
        (some e.tx_timestamp)
        (add_tx_timestamp e.sampled e.tx_timestamp (
          add_throughput_rx_sample e.should_measure
            (record { bytes = sum_bytes 0 iov; reqs = 1 })
            stats))
      ≡ ok sampled
    → on_nic_callback e (success iov) heap stats ≡ ok (some (release e.ctx heap, sampled, true))
unfolding on_nic_callback
on_nic_callback_success e iov heap ctx stats sampled at n n' z z' offered =
    let (d, ran, normal, gap) = timespec_diff_lem e.rx_timestamp e.tx_timestamp n n' z z' in
    rw (context_at-live heap e.ctx ctx at, ran, lancet_success_nic_timestamping_cb, gap, offered)
      refl
