-- ===== src/Udp.antt =====
-- agents/tp_udp.c: the sockets, and for one socket what the event loops do with a request that goes out
-- and with an event. What the kernel returns, the clock and the draw of the sample are arguments.
pub mod Exchange
pub mod Loops
pub mod Sockets
mod Tests
use lancet_tool.Base.{
  ℕ, ◌+◌, ◌-◌, ◌%◌, ◌^◌, ◌==◌, leb, if◌then◌else◌, List, [], ◌∷◌, ◌++◌, Bool, true, false, ◌&&◌,
  Option, some, none, get_elem?, set, take, drop, length, ℤ, pos, not, ◌-ℤ◌, Outcome, ok, fault,
  Fault, ◌>>=◌, ◌>>◌, check,
}
use lancet_tool.AppProto.{ByteReqPair, Iovec, Request, gather}
use lancet_tool.Timespec.{TimeSpec, timespec_diff, to_ns, is_zero}
use lancet_tool.Stats.{
  ThreadStats, add_latency_sample, add_throughput_rx_sample, add_throughput_tx_sample,
  add_tx_timestamp,
}
use lancet_tool.Timestamping.{ControlMessage, udp_extract_timestamps}
use lancet_tool.Tcp.Send.{SendResult, sent, would_block, failed, total_len, written, as_failed}

abbrev pub udp_max_payload : ℕ
udp_max_payload = 1500

-- `struct udp_socket`
pub record UdpSocket : Type 0 where
  pub taken : Bool
  pub tx_timestamp : TimeSpec
  pub rx_timestamp : TimeSpec
  pub buffer : List ℕ

-- `get_socket`: the index of the socket whose turn it is, which is now taken, or `none` for NULL; the
-- sockets; and the 32-bit counter.
pub get_socket :
    (per_thread_conn : ℕ) → List UdpSocket → ℕ → Outcome (Option ℕ × List UdpSocket × ℕ)
get_socket per_thread_conn sockets socket_idx =
    let next = (socket_idx + 1) % 2 ^ 32 in
    let idx = socket_idx % per_thread_conn in
    if per_thread_conn == 0 then fault Fault.div_by_zero else elim (get_elem? sockets idx) [
      | none ↦ fault Fault.out_of_bounds
      | some c ↦
          if c.taken
          then ok (none, sockets, next)
          else ok (some idx, set sockets idx (record c { taken = true }), next)
    ]

-- What `recv` returns.
pub data RecvResult : Type 0 where
  datagram : List ℕ → RecvResult
  no_datagram recv_failed : RecvResult

-- A socket, and the thread's statistics.
pub record UdpState : Type 0 where
  pub socket : UdpSocket
  pub stats : ThreadStats

-- A request that goes out: the bytes on the wire, and the state, or `none` when the agent ends. `before`
-- and `after` are what the loops do with the state before and after the call.
pub send_datagram :
    (before after : UdpState → UdpState)
    → Bool
    → SendResult
    → Request
    → UdpState
    → Outcome (List ℕ × Option UdpState)
unfolding written
send_datagram before after should_measure result req s =
    let iovs = take req.iov_cnt req.iovs in
    check (leb (total_len iovs) udp_max_payload)
    >> (written result (total_len iovs) >>= λ w. elim w [
      | none ↦ ok ([], none)
      | some ret ↦
          let t = before s in
          let send_res : ByteReqPair = record { bytes = ret; reqs = 1 } in
          ok (
            gather iovs,
            some (
                after
                  (record t { stats = add_throughput_tx_sample should_measure send_res t.stats })),
          )
    ])

-- The send of `throughput_udp_main`, at the time `tx_timestamp`.
pub on_throughput_udp_send :
    Bool → Bool → TimeSpec → SendResult → Request → UdpState → Outcome (List ℕ × Option UdpState)
unfolding send_datagram
on_throughput_udp_send should_measure sampled tx_timestamp result req s =
    send_datagram (λ t. record t { stats = add_tx_timestamp sampled tx_timestamp t.stats }) (λ t. t)
      should_measure result req s

-- The send of `symmetric_nic_udp_main`, and of `latency_udp_main`.
pub on_nic_udp_send : Bool → SendResult → Request → UdpState → Outcome (List ℕ × Option UdpState)
unfolding send_datagram
on_nic_udp_send should_measure result req s =
    send_datagram (λ t. t) (λ t. t) should_measure result req s

-- The send of `symmetric_udp_main`, at the time `now`.
pub on_symmetric_udp_send :
    Bool → Bool → TimeSpec → SendResult → Request → UdpState → Outcome (List ℕ × Option UdpState)
unfolding send_datagram
on_symmetric_udp_send should_measure sampled now result req s =
    send_datagram
      (λ t. let socket = t.socket in record t { socket = record socket { tx_timestamp = now } })
      (λ t. record t { stats = add_tx_timestamp sampled t.socket.tx_timestamp t.stats })
      should_measure result req s

-- `process_response` on what `recv` stored, and the assertion behind it.
pub process_datagram :
    (Iovec → Outcome ByteReqPair) → List ℕ → UdpSocket → Outcome (ByteReqPair × UdpSocket)
process_datagram consume bytes socket =
    let size = length bytes in
    let buffer = bytes ++ drop size socket.buffer in
    consume (record { iov_base = buffer; iov_len = size }) >>= λ read_res.
    check (read_res.bytes == size) >> ok (read_res, record socket { buffer = buffer })

-- After EWOULDBLOCK, the -1 of `recv` is the size of the response.
pub process_nothing : (Iovec → Outcome ByteReqPair) → UdpSocket → Outcome (ByteReqPair × UdpSocket)
process_nothing consume socket =
    let size = 2 ^ 64 - 1 in
    consume (record { iov_base = socket.buffer; iov_len = size }) >>= λ read_res.
    check (read_res.bytes == size) >> ok (read_res, socket)

-- The end of every read: the response is counted, and the socket is free again.
abbrev pub release : Bool → ByteReqPair → UdpState → UdpState
release should_measure read_res s =
    let socket = s.socket in
    record {
      socket = record socket { taken = false };
      stats = add_throughput_rx_sample should_measure read_res s.stats;
    }

-- A read, up to the counting: `none` when the agent ends.
pub receive :
    (Iovec → Outcome ByteReqPair)
    → RecvResult
    → UdpSocket
    → Outcome (Option (ByteReqPair × UdpSocket))
unfolding process_datagram process_nothing
receive consume recv_failed socket = ok none
receive consume no_datagram socket = process_nothing consume socket >>= λ r. ok (some r)
receive consume (datagram bytes) socket = process_datagram consume bytes socket >>= λ r. ok (some r)

-- The latency of a response, when both times of the socket are set.
pub sample_latency : Bool → ℕ → UdpState → Outcome UdpState
sample_latency should_measure period s =
    elim (timespec_diff (some s.socket.rx_timestamp) (some s.socket.tx_timestamp)) [
      | none ↦ ok s
      | some latency ↦
          add_latency_sample should_measure period (to_ns latency) (some s.socket.tx_timestamp)
            s.stats
          >>= λ stats. ok (record s { stats = stats })
    ]

-- A readable socket of `throughput_udp_main`.
pub on_throughput_udp_readable :
    (Iovec → Outcome ByteReqPair) → Bool → RecvResult → UdpState → Outcome (Option UdpState)
unfolding receive
on_throughput_udp_readable consume should_measure result s =
    receive consume result s.socket >>= λ r. elim r [
      | none ↦ ok none
      | some found ↦ ok (some (release should_measure found.0 (record s { socket = found.1 })))
    ]

-- A readable socket of `symmetric_udp_main`, at the time `now`.
pub on_symmetric_udp_readable :
    (Iovec → Outcome ByteReqPair)
    → Bool
    → ℕ
    → TimeSpec
    → RecvResult
    → UdpState
    → Outcome (Option UdpState)
unfolding receive sample_latency
on_symmetric_udp_readable consume should_measure period now result s =
    let socket = s.socket in
    receive consume result (record socket { rx_timestamp = now }) >>= λ r. elim r [
      | none ↦ ok none
      | some found ↦ sample_latency should_measure period (record s { socket = found.1 }) >>= λ t.
          ok (some (release should_measure found.0 t))
    ]

-- `udp_get_tx_timestamp` (agents/timestamping.c:201-221) on the next message of the error queue, `none`
-- where there is none: whether a time was found, and the time.
pub udp_get_tx_timestamp : Option (List ControlMessage) → TimeSpec → Outcome (Bool × TimeSpec)
udp_get_tx_timestamp none dest = ok (false, dest)
udp_get_tx_timestamp (some messages) dest = udp_extract_timestamps false dest messages

-- An error event of `symmetric_nic_udp_main`; `junk` is what `tx_timestamp` holds before.
pub on_nic_udp_error : Bool → TimeSpec → Option (List ControlMessage) → UdpState → Outcome UdpState
unfolding udp_get_tx_timestamp
on_nic_udp_error sampled junk message s = udp_get_tx_timestamp message junk >>= λ r.
    let socket = s.socket in
    if r.0 && socket.taken
    then ok (record {
      socket = record socket { tx_timestamp = r.1 };
      stats = add_tx_timestamp sampled r.1 s.stats;
    })
    else ok s

-- The transmit time that was late.
late_tx : Option (List ControlMessage) → UdpSocket → Outcome UdpSocket
unfolding udp_get_tx_timestamp
late_tx message socket =
    if is_zero socket.tx_timestamp.tv_sec
    then (udp_get_tx_timestamp message socket.tx_timestamp >>= λ r.
        ok (record socket { tx_timestamp = r.1 }))
    else ok socket

-- The end of the round: no time of this request is used again.
abbrev reset_times : UdpState → UdpState
reset_times s =
    let socket = s.socket in
    let tx = socket.tx_timestamp in
    let rx = socket.rx_timestamp in
    record s {
      socket = record socket {
        tx_timestamp = record tx { tv_sec = pos 0 };
        rx_timestamp = record rx { tv_sec = pos 0 };
      };
    }

-- The latency agent ends on every negative result.
abbrev as_recv_failed : RecvResult → RecvResult
as_recv_failed (datagram bytes) = datagram bytes
as_recv_failed r = recv_failed

-- A readable socket of `symmetric_nic_udp_main`: `rx` is the time of reception, and `message` the next
-- one of the error queue, which is read when no transmit time has come yet.
pub on_nic_udp_readable :
    (Iovec → Outcome ByteReqPair)
    → Bool
    → ℕ
    → TimeSpec
    → Option (List ControlMessage)
    → RecvResult
    → UdpState
    → Outcome (Option UdpState)
unfolding receive sample_latency late_tx
on_nic_udp_readable consume should_measure period rx message recv_failed s = ok none
on_nic_udp_readable consume should_measure period rx message result s =
    let socket = s.socket in
    check (not (is_zero rx.tv_sec))
    >> (receive consume result (record socket { rx_timestamp = rx }) >>= λ r. elim r [
      | none ↦ ok none
      | some found ↦ late_tx message found.1 >>= λ timed.
          sample_latency should_measure period (record s { socket = timed }) >>= λ t.
          ok (some (reset_times (release should_measure found.0 t)))
    ])

-- One round of `latency_udp_main` from its writev on, between the times `start` and `finish` in
-- nanoseconds: the socket blocks, and an error of either call ends the agent.
pub on_latency_udp_round :
    (Iovec → Outcome ByteReqPair)
    → Bool
    → ℕ
    → (start finish : ℤ) → SendResult
    → RecvResult
    → Request
    → UdpState
    → Outcome (List ℕ × Option UdpState)
unfolding on_nic_udp_send receive
on_latency_udp_round consume should_measure period start finish result answer req s =
    on_nic_udp_send should_measure (as_failed result) req s >>= λ out. elim out.1 [
      | none ↦ ok (out.0, none)
      | some t ↦ receive consume (as_recv_failed answer) t.socket >>= λ r. elim r [
        | none ↦ ok (out.0, none)
        | some found ↦
            let counted = release should_measure found.0 (record t { socket = found.1 }) in
            add_latency_sample should_measure period (finish -ℤ start) none counted.stats
            >>= λ stats. ok (out.0, some (record counted { stats = stats }))
      ]
    ]
