-- ===== src/Protocols.antt =====
-- `struct application_protocol` (inc/lancet/app_proto.h:49-80) and its initialisation: the functions
-- `*_init` of agents/app_proto.c, agents/redis.c and agents/memcache.c.
pub mod Init
pub mod Dispatch
mod Tests
use lancet_tool.Base.{ℕ, List, Option, Bool, ℤ}
use lancet_tool.AppProto.{Iovec}
use lancet_tool.RandGen.{Floating, RandGen}
use lancet_tool.KeyValue.{KvInfo}
use lancet_tool.Redis.Ycsbe.{YcsbeInfo}

-- `enum app_proto_type`
pub data AppProtoType : Type 0 where
  proto_echo proto_synthetic proto_redis proto_redis_ycsbe : AppProtoType
  proto_memcached_bin proto_memcached_ascii proto_http proto_stss : AppProtoType

-- The functions that `create_request` and `consume_response` are set to.
pub data CreateRequest : Type 0 where
  echo_create_request synthetic_create_request stss_create_request : CreateRequest
  redis_kv_create_request redis_ycsbe_create_request : CreateRequest
  memcache_bin_create_request memcache_ascii_create_request http_create_request : CreateRequest

pub data ConsumeResponse : Type 0 where
  echo_consume_response synthetic_consume_response stss_consume_response : ConsumeResponse
  redis_kv_consume_response memcache_bin_consume_response : ConsumeResponse
  memcache_ascii_consume_response http_consume_response : ConsumeResponse

module _ (F : Floating) where
  -- `struct stss_data`
  pub record StssData : Type 0 where
    pub time_gen : RandGen F
    pub req_size_gen : RandGen F
    pub rep_size_gen : RandGen F
    pub replicated : Bool
    pub read_ratio : F.D

  -- What `arg` points to.
  pub data Arg : Type 0 where
    message : Iovec → Arg
    generator : RandGen F → Arg
    stss : StssData → Arg
    kv : KvInfo F → Arg
    ycsbe : YcsbeInfo F → Arg

  -- `struct application_protocol`; `none` is NULL.
  pub record ApplicationProtocol : Type 0 where
    pub type : AppProtoType
    pub arg : Option Arg
    pub create_request : Option CreateRequest
    pub consume_response : Option ConsumeResponse
