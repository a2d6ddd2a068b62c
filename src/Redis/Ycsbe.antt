-- ===== src/Redis/Ycsbe.antt =====
-- The YCSB-E requests of agents/redis.c (40-56, 262-353), in the build without R2P2.
use lancet_tool.Base.{
  ℕ, zero, suc, ◌+◌, ◌-◌, ◌*◌, ◌%◌, ◌==◌, List, [], ◌∷◌, ◌++◌, Bool, if◌then◌else◌, Outcome, ok,
  fault, Fault, length, set, replicate,
}
use lancet_tool.Base.Each.{HasNoNull, is_ok, is_assertion, is_div_by_zero, HasNoNull-if}
use lancet_tool.Libc.{decimal}
use lancet_tool.Libc.Strings.{codes, is_prefix}
use lancet_tool.AppProto.{Iovec, Request}
use lancet_tool.RandGen.{Floating}
use lancet_tool.KeyValue.{text_iov, put_iovs}

-- `YCSBE_KEY_COUNT` and the three sizes
abbrev ycsbe_key_count : ℕ
ycsbe_key_count = 1000000

abbrev ycsbe_max_scan_len : ℕ
ycsbe_max_scan_len = 10

abbrev ycsbe_field_count : ℕ
ycsbe_field_count = 10

abbrev ycsbe_field_size : ℕ
ycsbe_field_size = 100

-- The loop that fills `fixed_req_body`, with `left` fields to go.
abbrev fields : (left field_size : ℕ) → List ℕ
fields zero field_size = []
fields (suc left) field_size = replicate field_size b'x' ++ b' ' ∷ fields left field_size

module _ (F : Floating) where
  -- `struct ycsbe_info`
  pub record YcsbeInfo : Type 0 where
    pub scan_ratio : F.D
    pub insert_ratio : F.D
    pub key_count : ℕ
    pub scan_len : ℕ
    pub field_count : ℕ
    pub field_size : ℕ
    pub replicated : Bool
    pub fixed_req_body : List ℕ

  -- What the sources of randomness give to one request.
  pub record YcsbeDraws : Type 0 where
    pub key_rand : ℕ
    pub coin : F.D
    pub scan_rand : ℕ

  -- The part of `init_redis_ycsbe` that fills `struct ycsbe_info`.
  pub init_ycsbe_info : List ℕ → YcsbeInfo
  init_ycsbe_info proto =
      let body = fields ycsbe_field_count ycsbe_field_size in
      record {
        scan_ratio = F.atof (codes "0.95");
        insert_ratio = F.atof (codes "0.05");
        key_count = ycsbe_key_count;
        scan_len = ycsbe_max_scan_len;
        field_count = ycsbe_field_count;
        field_size = ycsbe_field_size;
        replicated = is_prefix (codes "redis-ycsber") proto;
        fixed_req_body = set body (length body - 1) b'\n';
      }

  -- The end of both branches.
  sent : YcsbeInfo → List Iovec → Request → Outcome Request
  sent info iovs req =
      if info.replicated
      then fault Fault.assertion
      else ok (record (put_iovs iovs req) { meta = 0 })

  -- `ycsbe_key`
  abbrev key_text : YcsbeInfo → YcsbeDraws → List ℕ
  key_text info draws = decimal (draws.key_rand % info.key_count) ++ b' ' ∷ []

  -- The iovecs of a scan and of an insert.
  abbrev scan_iovs : YcsbeInfo → YcsbeDraws → List Iovec
  scan_iovs info draws =
      text_iov (codes "ycsbe.scan ")
      ∷ text_iov (key_text info draws)
      ∷ text_iov (decimal (draws.scan_rand % info.scan_len + 1) ++ b'\n' ∷ [])
      ∷ []

  abbrev insert_iovs : YcsbeInfo → YcsbeDraws → List Iovec
  insert_iovs info draws =
      text_iov (codes "ycsbe.insert ")
      ∷ text_iov (key_text info draws)
      ∷ record {
        iov_base = info.fixed_req_body;
        iov_len = info.field_count * (info.field_size + 1);
      }
      ∷ []

  -- `redis_ycsbe_create_request`
  pub redis_ycsbe_create_request : YcsbeInfo → YcsbeDraws → Request → Outcome Request
  unfolding sent
  redis_ycsbe_create_request info draws req =
      if info.key_count == 0
      then fault Fault.div_by_zero
      else if F.le draws.coin info.scan_ratio
      then (if info.scan_len == 0
          then fault Fault.div_by_zero
          else sent info (scan_iovs info draws) req)
      else sent info (insert_iovs info draws) req

  sent-HasNoNull :
      (info : YcsbeInfo) (iovs : List Iovec) (req : Request) → HasNoNull (sent info iovs req)
  unfolding sent
  sent-HasNoNull info iovs req = HasNoNull-if info.replicated is_assertion (is_ok _)

  pub redis_ycsbe_create_request-HasNoNull :
      (info : YcsbeInfo) (draws : YcsbeDraws) (req : Request)
      → HasNoNull (redis_ycsbe_create_request info draws req)
  unfolding redis_ycsbe_create_request
  redis_ycsbe_create_request-HasNoNull info draws req =
      HasNoNull-if (info.key_count == 0) is_div_by_zero (
        HasNoNull-if (F.le draws.coin info.scan_ratio)
          (HasNoNull-if (info.scan_len == 0) is_div_by_zero
            (sent-HasNoNull info (scan_iovs info draws) req))
          (sent-HasNoNull info (insert_iovs info draws) req))
