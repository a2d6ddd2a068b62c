-- ===== src/AppProto.antt =====
-- inc/lancet/app_proto.h and agents/app_proto.c: requests, responses and the protocols without a
-- parser of their own (echo, synthetic, stss).
pub mod Framing
pub mod Replies
pub mod Simple
pub mod Requests
pub mod Stss
mod Tests
use lancet_tool.Base.{
  ℕ, zero, suc, ◌+◌, ◌-◌, ◌*◌, ◌/◌, ◌%◌, ◌^◌, ◌<◌, ◌≡◌, List, [], ◌∷◌, ◌++◌, Outcome, ok, fault,
  Fault, take, drop, set, length, if◌then◌else◌, ◌==◌, Option, some, none, get_elem?, ltb, ◌>>=◌,
  Next, continue, stop, crash, run_loop, Bool, true,
}

-- `struct byte_req_pair`
pub record ByteReqPair : Type 0 where
  pub bytes : ℕ
  pub reqs : ℕ

abbrev pub zero_pair : ByteReqPair
zero_pair = record { bytes = 0; reqs = 0 }

-- The messages of two stretches of a stream together.
abbrev pub plus : ByteReqPair → ByteReqPair → ByteReqPair
plus a b = record { bytes = a.bytes + b.bytes; reqs = a.reqs + b.reqs }

abbrev pub one_message : ℕ → ByteReqPair
one_message n = record { bytes = n; reqs = 1 }

-- `struct iovec`: the memory from `iov_base` on, of which `iov_len` bytes are meant.
pub record Iovec : Type 0 where
  pub iov_base : List ℕ
  pub iov_len : ℕ

-- `struct request`. `meta` is the pointer as a number, 0 for NULL.
pub record Request : Type 0 where
  pub meta : ℕ
  pub iov_cnt : ℕ
  pub iovs : List Iovec

-- uint64_t and size_t arithmetic
abbrev pub add_u64 : ℕ → ℕ → ℕ
add_u64 a b = (a + b) % 2 ^ 64

abbrev pub mul_u64 : ℕ → ℕ → ℕ
mul_u64 a b = (a * b) % 2 ^ 64

abbrev pub sub_u64 : ℕ → ℕ → ℕ
sub_u64 a b = (a + 2 ^ 64 - b) % 2 ^ 64

-- `sizeof(long)`
abbrev pub sizeof_long : ℕ
sizeof_long = 8

-- `echo_consume_response`; `msg` is the iovec behind `proto->arg`.
pub echo_consume_response : Iovec → Iovec → Outcome ByteReqPair
echo_consume_response msg response =
    let reqs = response.iov_len / msg.iov_len in
    if msg.iov_len == 0
    then fault Fault.div_by_zero
    else ok (record { bytes = mul_u64 reqs msg.iov_len; reqs = reqs })

-- `echo_create_request`
pub echo_create_request : Iovec → Request → Request
echo_create_request fixed_req req = record req {
  iovs = set req.iovs 0 fixed_req;
  iov_cnt = 1;
  meta = 0;
}

-- `synthetic_consume_response`
pub synthetic_consume_response : Iovec → Outcome ByteReqPair
synthetic_consume_response response =
    let reqs = response.iov_len / sizeof_long in
    ok (record { bytes = mul_u64 reqs sizeof_long; reqs = reqs })

-- The bytes of a `long`, least significant first.
abbrev pub long_bytes : ℕ → ℕ → List ℕ
long_bytes zero v = []
long_bytes (suc n) v = (v % 256) ∷ long_bytes n (v / 256)

-- `synthetic_create_request`, for the `long` that `lround(generate(generator))` gives, as its
-- 64-bit pattern.
pub synthetic_create_request : ℕ → Request → Request
synthetic_create_request v req = record req {
  iovs = set req.iovs 0 (record { iov_base = long_bytes 8 v; iov_len = sizeof_long });
  iov_cnt = 1;
  meta = 0;
}

-- What `writev(fd, req->iovs, req->iov_cnt)` sends when it sends all.
abbrev pub gather : List Iovec → List ℕ
gather [] = []
gather (v ∷ vs) = take v.iov_len v.iov_base ++ gather vs

abbrev pub payload : Request → List ℕ
payload r = gather (take r.iov_cnt r.iovs)

-- A `long` at `i`, least significant byte first; `none` outside the memory.
pub read_le : ℕ → List ℕ → ℕ → Option ℕ
read_le zero mem i = some 0
read_le (suc n) mem i = elim (get_elem? mem i) [
  | none ↦ none
  | some b ↦ elim (read_le n mem (suc i)) [ none ↦ none | some v ↦ some (b + 256 * v) ]
]

-- The variables of the loop of `stss_consume_response`.
pub record StssVars : Type 0 where
  pub processed : ℕ
  pub res : ByteReqPair

-- One round of that loop. The order of unsigned longs is the order of their patterns.
stss_round : Iovec → StssVars → Next StssVars
stss_round response s = elim (read_le 8 response.iov_base s.processed) [
  | none ↦ crash Fault.out_of_bounds
  | some payload_size ↦
      let processed = s.processed + sizeof_long in
      let after = processed + payload_size in
      let counted : StssVars = record {
        processed = after;
        res = record {
          bytes = add_u64 s.res.bytes (sizeof_long + payload_size);
          reqs = add_u64 s.res.reqs 1;
        };
      } in
      if ltb payload_size (sub_u64 response.iov_len processed)
      then stop (record s { processed = processed })
      else if ltb sizeof_long (sub_u64 response.iov_len after)
      then stop counted
      else continue counted
]

-- `stss_consume_response`. `processed` is not initialised in the source: its first value is an
-- argument. An `int` that overflows is outside the model.
pub stss_consume_response : ℕ → ℕ → Iovec → Outcome ByteReqPair
unfolding stss_round
stss_consume_response fuel processed response =
    if ltb response.iov_len sizeof_long
    then fault Fault.assertion
    else (run_loop fuel (λ s. true) (stss_round response)
          (record { processed = processed; res = zero_pair })
        >>= λ s. ok s.res)
