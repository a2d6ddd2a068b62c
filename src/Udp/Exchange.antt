-- ===== src/Udp/Exchange.antt =====
-- A request and its response over one UDP socket of `symmetric_udp_main` (agents/tp_udp.c:494-555).
use lancet_tool.Base.{
  ℕ, ◌≤◌, ◌≡◌, refl, ap, ◌∙◌, List, ◌++◌, Bool, true, false, Option, some, none, leb, le→leb,
  ==_refl, length, drop, take, ◌-ℤ◌, Outcome, ok, fault, ◌>>=◌,
}
use lancet_tool.AppProto.{ByteReqPair, Iovec, Request, payload}
use lancet_tool.Timespec.{TimeSpec, IsNormal, timespec_diff_lem, to_ns, is_zero}
use lancet_tool.Stats.{
  ThreadStats, add_latency_sample, add_throughput_rx_sample, add_throughput_tx_sample,
  add_tx_timestamp,
}
use lancet_tool.Tcp.Send.{sent, total_len, written}
use lancet_tool.Udp.{
  UdpState, UdpSocket, udp_max_payload, send_datagram, on_symmetric_udp_send,
  on_symmetric_udp_readable, process_datagram, receive, datagram, sample_latency, release,
}

-- A datagram that the parser takes as a whole.
receive_lem :
    (consume : Iovec → Outcome ByteReqPair) (reply : List ℕ) (reqs : ℕ) (socket : UdpSocket)
    → consume
        (record { iov_base = reply ++ drop (length reply) socket.buffer; iov_len = length reply })
      ≡ ok (record { bytes = length reply; reqs = reqs })
    → receive consume (datagram reply) socket
      ≡ ok (
          some (
            record { bytes = length reply; reqs = reqs },
            record socket { buffer = reply ++ drop (length reply) socket.buffer },
          ))
unfolding receive process_datagram
receive_lem consume reply reqs socket whole = rw (whole, ==_refl (length reply)) refl

bind_assoc {ℓ κ μ} :
    {A : Type ℓ} {B : Type κ} {C : Type μ} (o : Outcome A) (f : A → Outcome B) (g : B → Outcome C)
    → (o >>= f >>= g) ≡ (o >>= λ a. f a >>= g)
bind_assoc (ok a) f g = refl
bind_assoc (fault e) f g = refl

-- What is sampled from two times that are set.
sample_latency_lem :
    (should_measure : Bool) (period : ℕ) (s : UdpState)
    → IsNormal s.socket.rx_timestamp
    → IsNormal s.socket.tx_timestamp
    → is_zero s.socket.rx_timestamp.tv_sec ≡ false
    → is_zero s.socket.tx_timestamp.tv_sec ≡ false
    → sample_latency should_measure period s ≡ (
        add_latency_sample should_measure period
          (to_ns s.socket.rx_timestamp -ℤ to_ns s.socket.tx_timestamp)
          (some s.socket.tx_timestamp)
          s.stats
        >>= λ stats. ok (record s { stats = stats }))
unfolding sample_latency
sample_latency_lem should_measure period s nr nt zr zt =
    let (d, e, n, exact) =
      timespec_diff_lem s.socket.rx_timestamp s.socket.tx_timestamp nr nt zr zt in
    let tx : Option TimeSpec = some s.socket.tx_timestamp in
    let store : Outcome ThreadStats → Outcome UdpState =
      λ o. o >>= λ stats. ok (record s { stats = stats }) in
    ap
      (λ o. elim o [
        | none ↦ ok s
        | some latency ↦ store (add_latency_sample should_measure period (to_ns latency) tx s.stats)
      ])
      e
    ∙ ap (λ t. store (add_latency_sample should_measure period t tx s.stats)) exact

-- The read, for a socket whose transmit time is set.
read_lem :
    (consume : Iovec → Outcome ByteReqPair) (should_measure : Bool) (period : ℕ) (t1 : TimeSpec)
    (s : UdpState) (reply : List ℕ) (reqs : ℕ)
    → IsNormal t1
    → IsNormal s.socket.tx_timestamp
    → is_zero t1.tv_sec ≡ false
    → is_zero s.socket.tx_timestamp.tv_sec ≡ false
    → consume
        (record { iov_base = reply ++ drop (length reply) s.socket.buffer; iov_len = length reply })
      ≡ ok (record { bytes = length reply; reqs = reqs })
    → on_symmetric_udp_readable consume should_measure period t1 (datagram reply) s ≡ (
        add_latency_sample should_measure period
          (to_ns t1 -ℤ to_ns s.socket.tx_timestamp)
          (some s.socket.tx_timestamp)
          s.stats
        >>= λ stats. ok (
            some (record {
              socket = record {
                taken = false;
                tx_timestamp = s.socket.tx_timestamp;
                rx_timestamp = t1;
                buffer = reply ++ drop (length reply) s.socket.buffer;
              };
              stats =
                  add_throughput_rx_sample should_measure
                    (record { bytes = length reply; reqs = reqs })
                    stats;
            })))
unfolding on_symmetric_udp_readable
read_lem consume should_measure period t1 s reply reqs nr nt zr zt whole =
    let old = s.socket in
    let socket : UdpSocket = record old { rx_timestamp = t1 } in
    let read_res : ByteReqPair = record { bytes = length reply; reqs = reqs } in
    let filled : UdpState = record s {
      socket = record socket { buffer = reply ++ drop (length reply) old.buffer };
    } in
    let finish : UdpState → Outcome (Option UdpState) =
      λ t. ok (some (release should_measure read_res t)) in
    ap
      (λ o. o >>= λ r. elim r [
        | none ↦ ok none
        | some found ↦ sample_latency should_measure period (record s { socket = found.1 }) >>= λ t.
            ok (some (release should_measure found.0 t))
      ])
      (receive_lem consume reply reqs socket whole)
    ∙ ap (λ o. o >>= finish) (sample_latency_lem should_measure period filled nr nt zr zt)
    ∙ bind_assoc
        (add_latency_sample should_measure period (to_ns t1 -ℤ to_ns old.tx_timestamp)
          (some old.tx_timestamp) s.stats)
        (λ stats. ok (record filled { stats = stats })) finish

-- A request of at most `UDP_MAX_PAYLOAD` bytes that sendmsg takes at the time `t0`, and a datagram that
-- comes at the time `t1` and that the parser takes as a whole, both times proper and set: the payload
-- of the request is on the wire, the latency offered to the statistics is exactly the difference of the
-- two times in nanoseconds, with `t0` as the transmit time, the response is counted, and the socket is
-- free again.
pub symmetric_exchange_lem :
    (consume : Iovec → Outcome ByteReqPair) (should_measure sampled : Bool) (period : ℕ)
    (t0 t1 : TimeSpec) (req : Request) (s : UdpState) (reply : List ℕ) (reqs : ℕ)
    → IsNormal t0
    → IsNormal t1
    → is_zero t0.tv_sec ≡ false
    → is_zero t1.tv_sec ≡ false
    → total_len (take req.iov_cnt req.iovs) ≤ udp_max_payload
    → consume
        (record { iov_base = reply ++ drop (length reply) s.socket.buffer; iov_len = length reply })
      ≡ ok (record { bytes = length reply; reqs = reqs })
    → (s1 : UdpState) × (on_symmetric_udp_send should_measure sampled t0
          (sent (total_len (take req.iov_cnt req.iovs)))
          req
          s
        ≡ ok (payload req, some s1))
      × (on_symmetric_udp_readable consume should_measure period t1 (datagram reply) s1 ≡ (
          add_latency_sample should_measure period (to_ns t1 -ℤ to_ns t0) (some t0) s1.stats
          >>= λ stats. ok (
              some (record {
                socket = record {
                  taken = false;
                  tx_timestamp = t0;
                  rx_timestamp = t1;
                  buffer = reply ++ drop (length reply) s.socket.buffer;
                };
                stats =
                    add_throughput_rx_sample should_measure
                      (record { bytes = length reply; reqs = reqs })
                      stats;
              }))))
unfolding on_symmetric_udp_send send_datagram written
symmetric_exchange_lem consume should_measure sampled period t0 t1 req s reply reqs n0 n1 z0 z1 fits
      whole =
    let bytes = total_len (take req.iov_cnt req.iovs) in
    let small : leb bytes udp_max_payload ≡ true = le→leb bytes udp_max_payload fits in
    let socket = s.socket in
    let s1 : UdpState = record {
      socket = record socket { tx_timestamp = t0 };
      stats =
          add_tx_timestamp sampled t0
            (add_throughput_tx_sample should_measure (record { bytes = bytes; reqs = 1 }) s.stats);
    } in
    (
      s1,
      rw (small, ==_refl bytes) refl,
      read_lem consume should_measure period t1 s1 reply reqs n1 n0 z1 z0 whole,
    )
