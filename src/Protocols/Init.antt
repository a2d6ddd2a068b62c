-- ===== src/Protocols/Init.antt =====
-- The initialisation of the application protocols: agents/app_proto.c (69-93, 127-146, 223-291),
-- agents/redis.c (212-260, 317-365) and agents/memcache.c (261-320).
pub mod Safe
pub mod Usable
use lancet_tool.Base.{
  ℕ, List, [], ◌∷◌, Option, some, none, Bool, true, false, if◌then◌else◌, Outcome, ok, fault, Fault,
  ◌>>=◌, ◌>>◌, ℤ, pos, negsuc, eqb_ℤ, replicate, check,
}
use lancet_tool.Libc.{atoi}
use lancet_tool.Libc.Strings.{codes, is_prefix, next_token}
use lancet_tool.AppProto.{Iovec}
use lancet_tool.RandGen.{Floating, RandGen}
use lancet_tool.KeyValue.{KvInfo, init_kv, init_some, given}
use lancet_tool.Redis.Ycsbe.{init_ycsbe_info}
use lancet_tool.Protocols.{
  AppProtoType, CreateRequest, ConsumeResponse, StssData, Arg, ApplicationProtocol,
}

-- `strtok(NULL, "")`: all that is left.
abbrev rest_token : List ℕ → Option (List ℕ)
rest_token [] = none
rest_token (c ∷ s) = some (c ∷ s)

module _ (F : Floating) where
  -- The three fields of a protocol that are set together, and its argument.
  abbrev protocol :
      AppProtoType → Arg F → CreateRequest → Option ConsumeResponse → ApplicationProtocol F
  protocol type arg create consume = record {
    type = type;
    arg = some arg;
    create_request = some create;
    consume_response = consume;
  }

  -- `memset(base, '#', message_len)`; a negative length makes malloc fail.
  echo_message : ℤ → Outcome Iovec
  echo_message (negsuc n) = fault Fault.assertion
  echo_message (pos n) = ok (record { iov_base = replicate n b'#'; iov_len = n })

  -- `echo_init`
  pub echo_init : List ℕ → Outcome (ApplicationProtocol F)
  unfolding echo_message
  echo_init proto =
      let type = next_token b':' proto in
      let length = next_token b':' type.1 in
      given F length.0 >>= λ token. echo_message (atoi token) >>= λ arg. ok (
        protocol AppProtoType.proto_echo (Arg.message arg) CreateRequest.echo_create_request
          (some ConsumeResponse.echo_consume_response))

  -- `synthetic_init`
  pub synthetic_init : RandGen F → List ℕ → Outcome (ApplicationProtocol F)
  synthetic_init mem proto =
      let type = next_token b':' proto in
      init_some F mem (rest_token type.1) >>= λ gen. ok (
        protocol AppProtoType.proto_synthetic (Arg.generator gen)
          CreateRequest.synthetic_create_request (some ConsumeResponse.synthetic_consume_response))

  -- The first token of a stss selector: whether requests are replicated.
  is_replicated : List ℕ → Outcome Bool
  is_replicated token =
      if is_prefix (codes "stssr") token
      then ok true
      else if is_prefix (codes "stss") token
      then ok false
      else fault Fault.assertion

  -- `read_ratio`, which stays 0 when requests are not replicated.
  read_ratio_of : Bool → Option (List ℕ) → Outcome F.D
  read_ratio_of true token = given F token >>= λ t. ok (F.atof t)
  read_ratio_of false token = ok (F.of_u64 0)

  -- `stss_init`; `mem` is the memory of the generators, in the order in which they are made.
  pub stss_init : (ℕ → RandGen F) → List ℕ → Outcome (ApplicationProtocol F)
  unfolding is_replicated read_ratio_of
  stss_init mem proto =
      let type = next_token b'_' proto in
      let time = next_token b'_' type.1 in
      let req_size = next_token b'_' time.1 in
      let rep_size = next_token b'_' req_size.1 in
      let ratio = next_token b'_' rep_size.1 in
      given F type.0 >>= λ token. is_replicated token >>= λ replicated.
      init_some F (mem 0) time.0 >>= λ time_gen. init_some F (mem 1) req_size.0 >>= λ req_size_gen.
      init_some F (mem 2) rep_size.0 >>= λ rep_size_gen.
      read_ratio_of replicated ratio.0 >>= λ read_ratio. ok (
        protocol AppProtoType.proto_stss
          (Arg.stss (record {
            time_gen = time_gen;
            req_size_gen = req_size_gen;
            rep_size_gen = rep_size_gen;
            replicated = replicated;
            read_ratio = read_ratio;
          }))
          CreateRequest.stss_create_request (some ConsumeResponse.stss_consume_response))

  -- `init_redis_kv`
  pub init_redis_kv : (ℕ → RandGen F) → List ℕ → Outcome (ApplicationProtocol F)
  init_redis_kv mem proto = init_kv F (mem 0) (mem 1) (mem 2) proto >>= λ info. ok (
      protocol AppProtoType.proto_redis (Arg.kv info) CreateRequest.redis_kv_create_request
        (some ConsumeResponse.redis_kv_consume_response))

  -- `init_redis_ycsbe`
  unfoldable pub init_redis_ycsbe : List ℕ → ApplicationProtocol F
  init_redis_ycsbe proto =
      protocol AppProtoType.proto_redis_ycsbe (Arg.ycsbe (init_ycsbe_info F proto))
        CreateRequest.redis_ycsbe_create_request none

  -- `redis_init`
  pub redis_init : (ℕ → RandGen F) → List ℕ → Outcome (ApplicationProtocol F)
  unfolding init_redis_kv init_redis_ycsbe
  redis_init mem proto =
      check (is_prefix (codes "redis") proto)
      >> (if is_prefix (codes "redis-ycsbe") proto
          then ok (init_redis_ycsbe proto)
          else init_redis_kv mem proto)

  -- `memcache_init`, with what it returns. `app_proto` is the memory from malloc.
  pub memcache_init :
      (ℕ → RandGen F) → ApplicationProtocol F → List ℕ → Outcome (ApplicationProtocol F × ℤ)
  memcache_init mem app_proto proto =
      check (is_prefix (codes "memcache-") proto)
      >> (init_kv F (mem 0) (mem 1) (mem 2) proto >>= λ info.
          if is_prefix (codes "memcache-bin") proto
          then ok (
            protocol AppProtoType.proto_memcached_bin (Arg.kv info)
                CreateRequest.memcache_bin_create_request
                (some ConsumeResponse.memcache_bin_consume_response),
            pos 0,
          )
          else if is_prefix (codes "memcache-ascii") proto
          then ok (
            protocol AppProtoType.proto_memcached_ascii (Arg.kv info)
                CreateRequest.memcache_ascii_create_request
                (some ConsumeResponse.memcache_ascii_consume_response),
            pos 0,
          )
          else ok (record app_proto { arg = some (Arg.kv info) }, negsuc 0))

  -- A protocol, where `init_app_proto` does not return NULL.
  abbrev pub MadeProtocol : Type 0
  MadeProtocol = Outcome (Option (ApplicationProtocol F))

  made : Outcome (ApplicationProtocol F) → MadeProtocol
  made o = o >>= λ p. ok (some p)

  -- `init_app_proto`. `http_proto_init` gives the protocol where it returns 0.
  unfoldable pub init_app_proto :
      (http_proto_init : List ℕ → Option (ApplicationProtocol F))
      → (ℕ → RandGen F)
      → ApplicationProtocol F
      → List ℕ
      → MadeProtocol
  unfolding made echo_init synthetic_init redis_init memcache_init stss_init
  init_app_proto http_proto_init mem app_proto proto =
      if is_prefix (codes "echo") proto
      then made (echo_init proto)
      else if is_prefix (codes "synthetic") proto
      then made (synthetic_init (mem 0) proto)
      else if is_prefix (codes "redis") proto
      then made (redis_init mem proto)
      else if is_prefix (codes "memcache") proto
      then (memcache_init mem app_proto proto >>= λ r. ok (some r.0))
      else if is_prefix (codes "http") proto
      then ok (http_proto_init proto)
      else if is_prefix (codes "stss") proto
      then made (stss_init mem proto)
      else ok none
