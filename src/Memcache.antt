-- ===== src/Memcache.antt =====
-- agents/memcache.c and inc/lancet/memcache_bin.h: the parser of binary memcached responses (158-202).
pub mod Bin
pub mod Ascii
pub mod Requests
mod Tests
use lancet_tool.Base.{
  ℕ, zero, suc, ◌+◌, ◌-◌, ◌*◌, ◌≡◌, List, [], ◌∷◌, Outcome, ok, fault, Fault, Next, continue, stop,
  crash, run_loop, Bool, true, false, not, ◌==◌, ltb, if◌then◌else◌, Option, some, none, get_elem?,
  ◌>>=◌,
}
use lancet_tool.AppProto.{ByteReqPair, zero_pair, Iovec, add_u64}

-- `sizeof(struct bmc_header)`: magic 1, opcode 1, key_len 2, extra_len 1, data_type 1, vbucket 2,
-- body_len 4, opaque 4, version 8.
abbrev pub sizeof_header : ℕ
sizeof_header = 24

-- The offset of `body_len` in the header.
abbrev pub body_len_at : ℕ
body_len_at = 8

-- An unsigned number of `n` bytes in network order at `i`; `none` outside the memory.
pub read_be : ℕ → ℕ → List ℕ → ℕ → Option ℕ
read_be zero acc mem i = some acc
read_be (suc n) acc mem i = elim (get_elem? mem i) [
  | none ↦ none
  | some b ↦ read_be n (256 * acc + b) mem (suc i)
]

-- The states of `memcache_bin_consume_response`.
pub data State : Type 0 where
  wait_for_header wait_for_body finished : State

-- Its variables. `bytes_to_process` is never negative: what is taken off is at most what is there.
-- `body_len` is not initialised in the source, and is set before it is read.
pub record BinVars : Type 0 where
  pub state : State
  pub body_len : ℕ
  pub bytes_to_process : ℕ
  pub res : ByteReqPair

-- The cases of its `switch`.
bin_header : Iovec → BinVars → Next BinVars
bin_header resp s =
    if ltb s.bytes_to_process sizeof_header
    then stop s
    else elim (read_be 4 0 resp.iov_base (resp.iov_len - s.bytes_to_process + body_len_at)) [
      | none ↦ crash Fault.out_of_bounds
      | some len ↦ continue (record s { body_len = len; state = wait_for_body })
    ]

bin_body : BinVars → Next BinVars
bin_body s =
    if ltb s.bytes_to_process (s.body_len + sizeof_header)
    then stop s
    else continue (record s { state = finished })

bin_finished : BinVars → Next BinVars
bin_finished s = continue (record s {
  bytes_to_process = s.bytes_to_process - (s.body_len + sizeof_header);
  res = record {
    reqs = add_u64 s.res.reqs 1;
    bytes = add_u64 s.res.bytes (sizeof_header + s.body_len);
  };
  state = wait_for_header;
})

pub bin_round : Iovec → BinVars → Next BinVars
unfolding bin_header bin_body bin_finished
bin_round resp s = elim s.state [
  | wait_for_header ↦ bin_header resp s
  | wait_for_body ↦ bin_body s
  | finished ↦ bin_finished s
]

pub bin_loop : ℕ → Iovec → BinVars → Outcome BinVars
bin_loop fuel resp s = run_loop fuel (λ t. not (t.bytes_to_process == 0)) (bin_round resp) s

-- `memcache_bin_consume_response`. A message takes three rounds and at least 24 bytes.
pub memcache_bin_consume_response : Iovec → Outcome ByteReqPair
unfolding bin_loop
memcache_bin_consume_response resp =
    bin_loop (3 * resp.iov_len + 3) resp (record {
      state = wait_for_header;
      body_len = 0;
      bytes_to_process = resp.iov_len;
      res = zero_pair;
    })
    >>= λ s. ok s.res
