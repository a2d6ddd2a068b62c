-- ===== src/Tcp/Throughput/Bounds.antt =====
-- The bounds of a connection's buffer in the throughput agent (agents/tp_tcp.c:270-334).
use lancet_tool.Base.{ℕ, ◌+◌, ◌≤◌, List, Outcome, Bool, take, length, Option, some, none}
use lancet_tool.Base.Each.{Each, Each-ok, Each-bind, Each-after, Each-option}
use lancet_tool.AppProto.{ByteReqPair, Iovec, Request}
use lancet_tool.Timespec.{TimeSpec}
use lancet_tool.Tcp.{max_payload}
use lancet_tool.Tcp.Buffer.{IsValid}
use lancet_tool.Tcp.Bounds.{on_readable-IsValid}
use lancet_tool.Tcp.Send.{SendResult, total_len, write_loop}
use lancet_tool.Tcp.Throughput.{AgentState, on_throughput_send, on_throughput_readable}

abbrev pub ValidState : AgentState → Type 0
ValidState s = IsValid s.conn

abbrev pub ValidSent : List ℕ × Option AgentState → Type 0
ValidSent (b, none) = Unit {0}
ValidSent (b, some s) = IsValid s.conn

pub on_throughput_readable-IsValid :
    (consume : Iovec → Outcome ByteReqPair) (should_measure : Bool) (s : AgentState)
    (bytes : List ℕ)
    → IsValid s.conn
    → s.conn.buffer_idx + length bytes ≤ max_payload
    → Each ValidState (on_throughput_readable consume should_measure s bytes)
unfolding on_throughput_readable
on_throughput_readable-IsValid consume should_measure s bytes v fits =
    Each-bind (λ r. IsValid r.1) (on_readable-IsValid consume s.conn bytes v fits)
      (λ r v'. Each-ok ValidState _ v')

pub on_throughput_send-IsValid :
    (should_measure sampled : Bool) (tx : TimeSpec) (results : List SendResult) (req : Request)
    (s : AgentState)
    → IsValid s.conn
    → Each ValidSent (on_throughput_send should_measure sampled tx results req s)
unfolding on_throughput_send
on_throughput_send-IsValid should_measure sampled tx results req s v =
    let iovs = take req.iov_cnt req.iovs in
    Each-after (write_loop results (total_len iovs) iovs) (λ r.
      Each-option r.1 (Each-ok ValidSent (r.0, none) tt)
        (λ ret. Each-ok ValidSent _ (record { size = v.size; index = v.index })))
