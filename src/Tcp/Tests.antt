-- ===== src/Tcp/Tests.antt =====
-- Connections on concrete streams.
use lancet_tool.Tcp.Pick.{available, pick_until, pick_until_lem}
use lancet_tool.Base.{
  ap, ltb, fault, Fault, some, none, if◌then◌else◌, true, ℕ, ◌+◌, ◌≤◌, ◌<◌, ◌≡◌, refl, List, [],
  ◌∷◌, ◌++◌, ok, arith, length, drop, replicate, false, length-replicate, length-append,
}
use lancet_tool.AppProto.{
  Iovec, echo_consume_response, ByteReqPair, zero_pair, plus, synthetic_consume_response,
}
use lancet_tool.AppProto.Framing.{scan-none, decode, scan}
use lancet_tool.AppProto.Simple.{fixed_frame}
use lancet_tool.Tcp.{
  Connection, max_payload, handle_response, on_readable, read_chunks, sub_u16, received,
}
use lancet_tool.Tcp.Buffer.{IsValid, waiting, Handled, handle_response_lem, received_lem}
use lancet_tool.Tcp.Stream.{Fits, on_readable_lem, read_chunks_lem, read_chunks_full}
use lancet_tool.Tcp.Parsers.{echo-Parses, synthetic-Parses}

-- A fresh connection with three requests under way.
fresh : Connection
fresh = record {
  fd = 5;
  idx = 0;
  closed = false;
  pending_reqs = 3;
  buffer_idx = 0;
  buffer = replicate max_payload 0;
}

fresh-IsValid : IsValid fresh
unfolding fresh
fresh-IsValid = record { size = length-replicate {A = ℕ} max_payload 0; index = omega arith }

-- Two and a half responses of the synthetic protocol, cut within the first.
abbrev first : List ℕ
first = 1 ∷ 0 ∷ 0 ∷ []

abbrev second : List ℕ
second = 0 ∷ 0 ∷ 0 ∷ 0 ∷ 0 ∷ 2 ∷ 0 ∷ 0 ∷ 0 ∷ 0 ∷ 0 ∷ 0 ∷ 0 ∷ 3 ∷ 0 ∷ 0 ∷ 0 ∷ []

two_chunks_fit : Fits (fixed_frame 8) [] (first ∷ second ∷ [])
unfolding scan
two_chunks_fit = (omega arith, λ e. omega arith, (omega arith, λ e. omega arith, tt))

read_chunks_lem_example :
    (c : Connection) × (read_chunks synthetic_consume_response fresh zero_pair (first ∷ second ∷ [])
      ≡ ok (plus zero_pair (decode (fixed_frame 8) (first ++ (second ++ []))), c))
    × (waiting c
        ≡ drop (decode (fixed_frame 8) (first ++ (second ++ []))).bytes (first ++ (second ++ [])))
    × IsValid c
unfolding fresh scan
read_chunks_lem_example =
    read_chunks_lem synthetic_consume_response (fixed_frame 8) synthetic-Parses fresh zero_pair
      (first ∷ second ∷ []) fresh-IsValid refl two_chunks_fit

counted_of_chunks : decode (fixed_frame 8) (first ++ second) ≡ record { bytes = 16; reqs = 2 }
unfolding scan
counted_of_chunks = refl

-- A response that came, of which the second half of the last message is missing.
abbrev half : Connection
half = received fresh second

half_fits : fresh.buffer_idx + length second ≤ max_payload
unfolding fresh
half_fits = omega arith

half-IsValid : IsValid half
half-IsValid = (received_lem fresh second fresh-IsValid half_fits).0

half_waits : waiting half ≡ second
unfolding fresh
half_waits = (received_lem fresh second fresh-IsValid half_fits).1

half_not_full :
    (decode (fixed_frame 8) (waiting half)).bytes ≡ 0 → length (waiting half) < max_payload
half_not_full = rw half_waits (λ e. omega arith)

handle_response_lem_example :
    (r : ByteReqPair × Connection) × (handle_response synthetic_consume_response half ≡ ok r)
    × Handled (fixed_frame 8) half r
handle_response_lem_example =
    handle_response_lem synthetic_consume_response (fixed_frame 8) synthetic-Parses half
      half-IsValid half_not_full

on_readable_lem_example :
    let stream = waiting fresh ++ second in
    (c' : Connection) × (on_readable synthetic_consume_response fresh second
      ≡ ok (decode (fixed_frame 8) stream, c'))
    × (waiting c' ≡ drop (decode (fixed_frame 8) stream).bytes stream)
    × IsValid c'
    × (c'.pending_reqs ≡ sub_u16 fresh.pending_reqs (decode (fixed_frame 8) stream).reqs)
unfolding fresh scan
on_readable_lem_example =
    on_readable_lem synthetic_consume_response (fixed_frame 8) synthetic-Parses fresh second
      fresh-IsValid (omega arith) (λ e. omega arith)

-- Three connections, of which only the last is open with room for a request.
abbrev pool : List Connection
pool =
    record fresh { closed = true }
    ∷ record fresh { pending_reqs = 4 }
    ∷ record fresh { idx = 2 }
    ∷ []

pick_until_lem_example :
    (c : Connection) × (pick_until 3 4 pool 7 ≡ ok (some c)) × (available 4 c ≡ true)
unfolding fresh
pick_until_lem_example =
    pick_until_lem 4 7 2 pool (record fresh { idx = 2 }) refl (omega arith) refl (omega arith)

-- Echoed messages of 20000 bytes do not fit in the buffer.
abbrev long_message : Iovec
long_message = record { iov_base = []; iov_len = 20000 }

abbrev early_part : List ℕ
early_part = replicate 16000 7

abbrev late_part : List ℕ
late_part = replicate 384 8

abbrev first_part : List ℕ
first_part = early_part ++ (late_part ++ [])

first_part-length : length first_part ≡ max_payload
first_part-length = omega (
  arith,
  length-append early_part (late_part ++ []),
  length-append late_part [],
  length-replicate {A = ℕ} 16000 7,
  length-replicate {A = ℕ} 384 8,
)

none_whole : (decode (fixed_frame 20000) first_part).bytes ≡ 0
none_whole =
    ap (λ b. b.bytes)
      (scan-none (fixed_frame 20000) (length first_part) first_part
        (ap (λ n. if ltb n 20000 then none else some 20000) first_part-length))

read_chunks_full_example :
    read_chunks (echo_consume_response long_message) fresh zero_pair (early_part ∷ late_part ∷ [])
    ≡ fault Fault.assertion
unfolding fresh
read_chunks_full_example =
    read_chunks_full (echo_consume_response long_message) (fixed_frame 20000)
      (echo-Parses long_message (omega arith)) fresh zero_pair early_part (late_part ∷ [])
      fresh-IsValid first_part-length none_whole
