-- ===== src/Tcp/Throughput.antt =====
-- `throughput_tcp_main` (agents/tp_tcp.c:235-339) for one connection: a request that goes out, and the
-- reads.
pub mod Counting
pub mod Bounds
mod Tests
use lancet_tool.Base.{
  ℕ, List, [], ◌∷◌, Bool, Option, some, none, ltb, if◌then◌else◌, Outcome, ok, fault, Fault, ◌>>=◌,
  take,
}
use lancet_tool.AppProto.{ByteReqPair, Iovec, Request}
use lancet_tool.Timespec.{TimeSpec}
use lancet_tool.Stats.{
  ThreadStats, add_tx_timestamp, add_throughput_tx_sample, add_throughput_rx_sample,
}
use lancet_tool.Tcp.{Connection, add_u16, on_readable}
use lancet_tool.Tcp.Send.{SendResult, total_len, write_loop}

-- The connection, and the thread's statistics.
pub record AgentState : Type 0 where
  pub conn : Connection
  pub stats : ThreadStats

-- A request that goes out, of which the last `writev` returned at the time `tx_timestamp`; `none` when the
-- agent ends on an error.
unfoldable pub on_throughput_send :
    Bool
    → (sampled : Bool) → TimeSpec
    → List SendResult
    → Request
    → AgentState
    → Outcome (List ℕ × Option AgentState)
on_throughput_send should_measure sampled tx_timestamp results req s =
    let iovs = take req.iov_cnt req.iovs in
    let c = s.conn in
    write_loop results (total_len iovs) iovs >>= λ r. elim r.1 [
      | none ↦ ok (r.0, none)
      | some ret ↦
          let send_res : ByteReqPair = record { bytes = ret; reqs = 1 } in
          let next : AgentState = record {
            conn = record c { pending_reqs = add_u16 c.pending_reqs 1 };
            stats =
                add_throughput_tx_sample should_measure send_res
                  (add_tx_timestamp sampled tx_timestamp s.stats);
          } in
          ok (r.0, some next)
    ]

-- A read of `bytes`: `pending_reqs -= reqs` changes nothing where the code skips it.
unfoldable pub on_throughput_readable :
    (Iovec → Outcome ByteReqPair) → Bool → AgentState → List ℕ → Outcome AgentState
on_throughput_readable consume should_measure s bytes = on_readable consume s.conn bytes >>= λ r.
    let read_res : ByteReqPair = r.0 in
    ok (record {
      conn = r.1;
      stats =
          if ltb 0 read_res.reqs
          then add_throughput_rx_sample should_measure read_res s.stats
          else s.stats;
    })

-- One read after the other.
pub read_all :
    (Iovec → Outcome ByteReqPair) → Bool → AgentState → List (List ℕ) → Outcome AgentState
unfolding on_throughput_readable
read_all consume should_measure s [] = ok s
read_all consume should_measure s (bytes ∷ chunks) =
    on_throughput_readable consume should_measure s bytes >>= λ s'.
    read_all consume should_measure s' chunks
