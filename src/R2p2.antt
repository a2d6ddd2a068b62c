-- ===== src/R2p2.antt =====
-- agents/tp_r2p2.c, of the build with R2P2: the requests that are handed to the R2P2 library, and its callbacks. The library is not of this repository: which callback
-- it calls for which context, and when, is an argument, and so is the value of FIXED_ROUTE.
pub mod Contexts
pub mod Exchange
pub mod Latency
pub mod Nic
mod Tests
use lancet_tool.Base.{
  ℕ, ◌+◌, ◌-◌, ◌%◌, ◌^◌, ◌==◌, if◌then◌else◌, List, [], ◌∷◌, ◌++◌, Bool, true, false, Option, some,
  none, get_elem?, set, take, length, ℤ, ◌-ℤ◌, pos, Outcome, ok, fault, Fault, ◌>>=◌, ◌>>◌, check,
}
use lancet_tool.AppProto.{ByteReqPair, Request, Iovec, gather, add_u64}
use lancet_tool.Timespec.{TimeSpec, timespec_diff, to_ns}
use lancet_tool.Stats.{
  ThreadStats, add_latency_sample, add_throughput_rx_sample, add_throughput_tx_sample,
  add_tx_timestamp,
}
use lancet_tool.Tcp.Send.{total_len}
use lancet_tool.EventLoop.{Handlers}

-- `struct r2p2_ctx`, as far as the transport sets it, with the transmit time that `symmetric_r2p2_main` keeps
-- behind it. The destination is an index of `targets`; the routing policy is an `int`, of which the model
-- has the 32 bits.
pub record R2p2Ctx : Type 0 where
  pub destination : ℕ
  pub timeout : ℕ
  pub routing_policy : ℕ
  pub tx_timestamp : TimeSpec

-- The contexts of a thread, by the order of their allocation; `none` is one that has been freed.
pub record R2p2Heap : Type 0 where
  pub contexts : List (Option R2p2Ctx)

-- The input of a send: the request, the draw of `rand()`, the time that the code reads, the draw of
-- `add_tx_timestamp` and a flag.
pub record R2p2Send : Type 0 where
  pub request : Request
  pub rand : ℕ
  pub now : TimeSpec
  pub sampled : Bool
  pub should_measure : Bool

-- A callback of the library for the context of this number: the response, an error or a timeout.
pub data Callback : Type 0 where
  success : List Iovec → Callback
  failure timeout : Callback

pub record R2p2Event : Type 0 where
  pub ctx : ℕ
  pub callback : Callback
  pub now : TimeSpec
  pub should_measure : Bool
  pub period : ℕ

-- The target of a request.
pub pick_target : (fixed_route target_count : ℕ) → R2p2Send → Outcome ℕ
pick_target fixed_route target_count x =
    if x.request.meta == fixed_route
    then ok 0
    else if target_count == 0
    then fault Fault.div_by_zero
    else ok (x.rand % target_count)

-- The sum of the lengths of a response, from the value that the counter has before.
pub sum_bytes : ℕ → List Iovec → ℕ
sum_bytes bytes [] = bytes
sum_bytes bytes (v ∷ vs) = sum_bytes (add_u64 bytes v.iov_len) vs

-- What the callbacks find at `arg`: a context that has been freed is no memory of theirs.
context_of : Option (Option R2p2Ctx) → Outcome R2p2Ctx
context_of (some (some ctx)) = ok ctx
context_of (some none) = fault Fault.out_of_bounds
context_of none = fault Fault.out_of_bounds

pub context_at : R2p2Heap → ℕ → Outcome R2p2Ctx
unfolding context_of
context_at heap i = context_of (get_elem? heap.contexts i)

-- `free(arg)`
abbrev pub release : ℕ → R2p2Heap → R2p2Heap
release i heap = record heap { contexts = set heap.contexts i none }

-- `lancet_success_cb`. `junk` is what `read_res` holds, which the code does not initialise.
lancet_success_cb :
    (junk : ℕ) → Bool → ℕ → List Iovec → R2p2Heap → ThreadStats → Outcome (R2p2Heap × ThreadStats)
unfolding sum_bytes
lancet_success_cb junk should_measure i iov heap stats =
    let read_res : ByteReqPair = record { bytes = sum_bytes junk iov; reqs = 1 } in
    ok (release i heap, add_throughput_rx_sample should_measure read_res stats)

-- `lancet_success_timestamping_cb`
pub lancet_success_timestamping_cb :
    R2p2Event → R2p2Ctx → List Iovec → R2p2Heap → ThreadStats → Outcome (R2p2Heap × ThreadStats)
unfolding sum_bytes
lancet_success_timestamping_cb e ctx iov heap stats =
    let read_res : ByteReqPair = record { bytes = sum_bytes 0 iov; reqs = 1 } in
    let counted = add_throughput_rx_sample e.should_measure read_res stats in
    elim (timespec_diff (some e.now) (some ctx.tx_timestamp)) [
      | none ↦ ok (release e.ctx heap, counted)
      | some latency ↦
          add_latency_sample e.should_measure e.period (to_ns latency) (some ctx.tx_timestamp)
            counted
          >>= λ sampled. ok (release e.ctx heap, sampled)
    ]

-- A callback of `throughput_r2p2_main`; `lancet_error_cb` and `lancet_timeout_cb` free the context alone.
pub on_throughput_callback :
    (junk : ℕ)
    → R2p2Event
    → Callback
    → R2p2Heap
    → ThreadStats
    → Outcome (Option (R2p2Heap × ThreadStats × Bool))
unfolding lancet_success_cb context_at
on_throughput_callback junk e (success iov) heap stats = context_at heap e.ctx >>= λ ctx.
    lancet_success_cb junk e.should_measure e.ctx iov heap stats >>= λ r. ok (some (r.0, r.1, true))
on_throughput_callback junk e failure heap stats =
    context_at heap e.ctx >>= λ ctx. ok (some (release e.ctx heap, stats, true))
on_throughput_callback junk e timeout heap stats =
    context_at heap e.ctx >>= λ ctx. ok (some (release e.ctx heap, stats, true))

-- A callback of `symmetric_r2p2_main`.
pub on_symmetric_callback :
    R2p2Event → Callback → R2p2Heap → ThreadStats → Outcome (Option (R2p2Heap × ThreadStats × Bool))
unfolding context_at
on_symmetric_callback e (success iov) heap stats = context_at heap e.ctx >>= λ ctx.
    lancet_success_timestamping_cb e ctx iov heap stats >>= λ r. ok (some (r.0, r.1, true))
on_symmetric_callback e failure heap stats =
    context_at heap e.ctx >>= λ ctx. ok (some (release e.ctx heap, stats, true))
on_symmetric_callback e timeout heap stats =
    context_at heap e.ctx >>= λ ctx. ok (some (release e.ctx heap, stats, true))

-- A request, which the loops hand over with a fresh context: the context holds the time `kept`, and the
-- time of the request is told to the statistics before the send or behind it.
hand_over :
    (fixed_route target_count : ℕ)
    → (kept : TimeSpec) → (before after : ThreadStats → ThreadStats) → R2p2Send
    → R2p2Heap
    → ThreadStats
    → Outcome (List ℕ × Option (R2p2Heap × ThreadStats))
unfolding pick_target
hand_over fixed_route target_count kept before after x heap stats =
    let iovs = take x.request.iov_cnt x.request.iovs in
    pick_target fixed_route target_count x >>= λ target.
    let ctx : R2p2Ctx = record {
      destination = target;
      timeout = 5000000;
      routing_policy = x.request.meta % 2 ^ 32;
      tx_timestamp = kept;
    } in
    let send_res : ByteReqPair = record { bytes = total_len iovs; reqs = 1 } in
    ok (
      gather iovs,
      some (
        record heap { contexts = heap.contexts ++ some ctx ∷ [] },
        after (add_throughput_tx_sample x.should_measure send_res (before stats)),
      ),
    )

-- The send of `throughput_r2p2_main`. Its contexts hold no time.
pub on_throughput_r2p2_send :
    (fixed_route target_count : ℕ)
    → R2p2Send
    → R2p2Heap
    → ThreadStats
    → Outcome (List ℕ × Option (R2p2Heap × ThreadStats))
unfolding hand_over
on_throughput_r2p2_send fixed_route target_count x heap stats =
    hand_over fixed_route target_count (record { tv_sec = pos 0; tv_nsec = pos 0 })
      (add_tx_timestamp x.sampled x.now) (λ s. s) x heap stats

-- The send of `symmetric_r2p2_main`.
pub on_symmetric_r2p2_send :
    (fixed_route target_count : ℕ)
    → R2p2Send
    → R2p2Heap
    → ThreadStats
    → Outcome (List ℕ × Option (R2p2Heap × ThreadStats))
unfolding hand_over
on_symmetric_r2p2_send fixed_route target_count x heap stats =
    hand_over fixed_route target_count x.now (λ s. s) (add_tx_timestamp x.sampled x.now) x heap
      stats

-- The loops have no connections: all requests go through the one instance of the library.
abbrev pub only_item : List R2p2Heap → ℕ → Outcome (Option ℕ × List R2p2Heap × ℕ)
only_item items turn = ok (some 0, items, turn)

module _ (fixed_route target_count : ℕ) where
  -- `throughput_r2p2_main`, where `r2p2_poll` makes the callbacks.
  pub throughput_r2p2_main : (junk : ℕ) → Handlers R2p2Heap R2p2Send R2p2Event
  unfolding on_throughput_r2p2_send on_throughput_callback
  throughput_r2p2_main junk = record {
    pick = only_item;
    send = on_throughput_r2p2_send fixed_route target_count;
    handle = λ e heap stats. on_throughput_callback junk e e.callback heap stats;
    repeats = false;
    breaks = false;
  }

  -- `symmetric_r2p2_main`
  pub symmetric_r2p2_main : Handlers R2p2Heap R2p2Send R2p2Event
  unfolding on_symmetric_r2p2_send on_symmetric_callback
  symmetric_r2p2_main = record {
    pick = only_item;
    send = on_symmetric_r2p2_send fixed_route target_count;
    handle = λ e heap stats. on_symmetric_callback e e.callback heap stats;
    repeats = false;
    breaks = false;
  }
