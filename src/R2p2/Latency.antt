-- ===== src/R2p2/Latency.antt =====
-- latency_r2p2_main (agents/tp_r2p2.c:236-358), over blocking sockets.
use lancet_tool.Base.{
  ℕ, ◌+◌, ◌-◌, ◌%◌, ◌^◌, ◌==◌, if◌then◌else◌, List, [], ◌∷◌, Bool, false, Option, some, none, take,
  ℤ, ◌-ℤ◌, Outcome, ok, fault, Fault, ◌>>=◌, ◌>>◌, check,
}
use lancet_tool.AppProto.{Request, gather}
use lancet_tool.EventLoop.{Handlers}
use lancet_tool.R2p2.{R2p2Send, pick_target}
use lancet_tool.Stats.{
  ThreadStats, add_latency_sample, add_throughput_rx_sample, add_throughput_tx_sample,
}
use lancet_tool.Tcp.Send.{total_len}

-- What the blocking `read` of the latency agent returns: a datagram with the id and the last-packet mark of
-- its header, and its length; or -1.
pub data R2p2Read : Type 0 where
  datagram : (rid : ℕ) → (is_last : Bool) → (size : ℕ) → R2p2Read
  no_answer : R2p2Read

-- The loop that reads a reply: the bytes that were read. It ends on another id too.
unfoldable pub read_reply : (rid byte_count : ℕ) → List R2p2Read → Outcome ℕ
read_reply rid byte_count [] = fault Fault.out_of_fuel
read_reply rid byte_count (no_answer ∷ reads) = ok byte_count
read_reply rid byte_count (datagram id is_last size ∷ reads) =
    let more = read_reply rid (byte_count + size) reads in
    if id == rid then (if is_last then ok (byte_count + size) else more) else ok (byte_count + size)

-- The loop over the packets: `assert(ret == payload_len)`.
all_sent : List (ℕ × ℕ) → Outcome (Unit {0})
all_sent [] = ok tt
all_sent ((payload_len, ret) ∷ packets) =
    let rest = all_sent packets in check (ret == payload_len) >> rest

-- One exchange of `latency_r2p2_main` between the times `start` and `finish`, for the lengths of the packets
-- of `r2p2_prepare_msg` with what `sendto` returns for each. A reply is counted less one header, whose
-- size is `header`, on 64 bits.
pub on_latency_r2p2_exchange :
    (header : ℕ)
    → Bool
    → ℕ
    → (start finish : ℤ) → (rid : ℕ) → (packets : List (ℕ × ℕ)) → List R2p2Read
    → Request
    → ThreadStats
    → Outcome ThreadStats
unfolding read_reply all_sent
on_latency_r2p2_exchange header should_measure period start finish rid packets reads req stats =
    let iovs = take req.iov_cnt req.iovs in
    all_sent packets
    >> (read_reply rid 0 reads >>= λ byte_count.
        add_latency_sample should_measure period (finish -ℤ start) none (
          add_throughput_tx_sample should_measure (record { bytes = total_len iovs; reqs = 1 })
            stats)
        >>= λ sampled. ok (
            add_throughput_rx_sample should_measure
              (record { bytes = (byte_count + 2 ^ 64 - header) % 2 ^ 64; reqs = 1 }) sampled))

-- The input of an exchange: the request with the draw of its target, the draw of the socket, and what the
-- calls return.
pub record R2p2Exchange : Type 0 where
  pub send : R2p2Send
  pub socket : ℕ
  pub rid : ℕ
  pub packets : List (ℕ × ℕ)
  pub reads : List R2p2Read
  pub start : ℤ
  pub finish : ℤ
  pub period : ℕ

-- The latency agent waits for no events.
pub data NoCallback : Type 0 where

-- The sockets keep no state.
abbrev any_socket : List (Unit {0}) → ℕ → Outcome (Option ℕ × List (Unit {0}) × ℕ)
any_socket items turn = ok (some 0, items, turn)

-- `latency_r2p2_main`, from the point where its sockets are open. It compares the policy with FIXED_ROUTE
-- after the conversion to `int`.
pub latency_r2p2_main :
    (header fixed_route target_count per_thread_conn : ℕ)
    → Handlers (Unit {0}) R2p2Exchange NoCallback
unfolding on_latency_r2p2_exchange
latency_r2p2_main header fixed_route target_count per_thread_conn = record {
  pick = any_socket;
  send = λ x u stats.
      let req = x.send.request in
      let policy = req.meta % 2 ^ 32 in
      if per_thread_conn == 0
      then fault Fault.div_by_zero
      else (pick_target fixed_route target_count
            (record x.send { request = record req { meta = policy } })
          >>= λ target.
              on_latency_r2p2_exchange header x.send.should_measure x.period x.start x.finish x.rid
                x.packets x.reads req stats
              >>= λ s. ok (gather (take req.iov_cnt req.iovs), some (u, s)));
  handle = λ e u stats. elim e [ ];
  repeats = false;
  breaks = false;
}
