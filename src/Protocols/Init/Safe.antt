-- ===== src/Protocols/Init/Safe.antt =====
-- The functions and the argument of a protocol fit together (agents/app_proto.c:261-291).
use lancet_tool.Base.{
  ℕ, ◌≡◌, List, Option, some, none, Bool, true, not, ◌&&◌, ◌||◌, arith, Outcome, check,
}
use lancet_tool.Base.Each.{Each, Each-after, Each-ok, Each-bind, Each-if}
use lancet_tool.Libc.{atoi}
use lancet_tool.Libc.Strings.{codes, is_prefix, next_token}
use lancet_tool.RandGen.{Floating, RandGen}
use lancet_tool.RandGen.Init.Drawing.{IsDrawable}
use lancet_tool.KeyValue.{KvInfo, given}
use lancet_tool.KeyValue.Drawable.{IsDrawableKv, init_some-IsDrawable, init_kv-IsDrawableKv}
use lancet_tool.Protocols.{
  AppProtoType, CreateRequest, ConsumeResponse, StssData, Arg, ApplicationProtocol,
}
use lancet_tool.Protocols.Init.{
  echo_message, echo_init, synthetic_init, is_replicated, read_ratio_of, stss_init, init_redis_kv,
  init_redis_ycsbe, redis_init, memcache_init, made, init_app_proto, rest_token, protocol,
}

module _ (F : Floating) where
  -- The protocols as their `*_init` functions set them, with generators that can be drawn from.
  pub data IsFitting : ApplicationProtocol F → Type 0 where
    fits_echo :
        (arg : _)
        → IsFitting (
            protocol F AppProtoType.proto_echo
              (Arg.message arg)
              CreateRequest.echo_create_request
              (some ConsumeResponse.echo_consume_response))
    fits_synthetic :
        (gen : RandGen F)
        → IsDrawable F gen
        → IsFitting (
            protocol F AppProtoType.proto_synthetic
              (Arg.generator gen)
              CreateRequest.synthetic_create_request
              (some ConsumeResponse.synthetic_consume_response))
    fits_stss :
        (info : StssData F)
        → IsDrawable F info.time_gen
        → IsDrawable F info.req_size_gen
        → IsDrawable F info.rep_size_gen
        → IsFitting (
            protocol F AppProtoType.proto_stss
              (Arg.stss info)
              CreateRequest.stss_create_request
              (some ConsumeResponse.stss_consume_response))
    fits_redis :
        (info : KvInfo F)
        → IsDrawableKv F info
        → IsFitting (
            protocol F AppProtoType.proto_redis
              (Arg.kv info)
              CreateRequest.redis_kv_create_request
              (some ConsumeResponse.redis_kv_consume_response))
    fits_memcache_bin :
        (info : KvInfo F)
        → IsDrawableKv F info
        → IsFitting (
            protocol F AppProtoType.proto_memcached_bin
              (Arg.kv info)
              CreateRequest.memcache_bin_create_request
              (some ConsumeResponse.memcache_bin_consume_response))
    fits_memcache_ascii :
        (info : KvInfo F)
        → IsDrawableKv F info
        → IsFitting (
            protocol F AppProtoType.proto_memcached_ascii
              (Arg.kv info)
              CreateRequest.memcache_ascii_create_request
              (some ConsumeResponse.memcache_ascii_consume_response))
    fits_ycsbe : (proto : List ℕ) → IsFitting (init_redis_ycsbe F proto)

  echo_init-IsFitting : (proto : List ℕ) → Each IsFitting (echo_init F proto)
  unfolding echo_init
  echo_init-IsFitting proto =
      let length = next_token b':' (next_token b':' proto).1 in
      Each-after (given F length.0) (λ token.
        Each-after (echo_message F (atoi token)) (λ arg. Each-ok IsFitting _ (fits_echo arg)))

  synthetic_init-IsFitting :
      (mem : RandGen F) (proto : List ℕ) → Each IsFitting (synthetic_init F mem proto)
  unfolding synthetic_init
  synthetic_init-IsFitting mem proto =
      Each-bind (IsDrawable F) (init_some-IsDrawable F mem (rest_token (next_token b':' proto).1))
        (λ gen h. Each-ok IsFitting _ (fits_synthetic gen h))

  stss_init-IsFitting :
      (mem : ℕ → RandGen F) (proto : List ℕ) → Each IsFitting (stss_init F mem proto)
  unfolding stss_init
  stss_init-IsFitting mem proto =
      let type = next_token b'_' proto in
      let time = next_token b'_' type.1 in
      let req_size = next_token b'_' time.1 in
      let rep_size = next_token b'_' req_size.1 in
      let ratio = next_token b'_' rep_size.1 in
      Each-after (given F type.0) (λ token. Each-after (is_replicated F token) (λ replicated.
        Each-bind (IsDrawable F) (init_some-IsDrawable F (mem 0) time.0) (λ g0 h0.
          Each-bind (IsDrawable F) (init_some-IsDrawable F (mem 1) req_size.0) (λ g1 h1.
            Each-bind (IsDrawable F) (init_some-IsDrawable F (mem 2) rep_size.0) (λ g2 h2.
              Each-after (read_ratio_of F replicated ratio.0)
                (λ read_ratio. Each-ok IsFitting _ (fits_stss _ h0 h1 h2)))))))

  redis_init-IsFitting :
      (mem : ℕ → RandGen F) (proto : List ℕ) → Each IsFitting (redis_init F mem proto)
  unfolding redis_init init_redis_kv
  redis_init-IsFitting mem proto = Each-after (check (is_prefix (codes "redis") proto)) (λ u.
      Each-if (is_prefix (codes "redis-ycsbe") proto)
        (λ e. Each-ok IsFitting (init_redis_ycsbe F proto) (fits_ycsbe proto))
        (λ e.
          Each-bind (IsDrawableKv F) (init_kv-IsDrawableKv F (mem 0) (mem 1) (mem 2) proto)
            (λ info h. Each-ok IsFitting _ (fits_redis info h))))

  memcache_init-IsFitting :
      (mem : ℕ → RandGen F) (app_proto : ApplicationProtocol F) (proto : List ℕ)
      → (is_prefix (codes "memcache-bin") proto || is_prefix (codes "memcache-ascii") proto) ≡ true
      → Each (λ r. IsFitting r.0) (memcache_init F mem app_proto proto)
  unfolding memcache_init
  memcache_init-IsFitting mem app_proto proto known =
      Each-after (check (is_prefix (codes "memcache-") proto)) (λ u.
        Each-bind (IsDrawableKv F) (init_kv-IsDrawableKv F (mem 0) (mem 1) (mem 2) proto) (λ info h.
          Each-if (is_prefix (codes "memcache-bin") proto)
            (λ bin. Each-ok (λ r. IsFitting r.0) _ (fits_memcache_bin info h))
            (λ other.
              Each-if (is_prefix (codes "memcache-ascii") proto)
                (λ ascii. Each-ok (λ r. IsFitting r.0) _ (fits_memcache_ascii info h))
                (λ neither. absurd (ground (arith, known, other, neither))))))

  -- A protocol that comes out fits.
  abbrev pub FitsIfMade : Option (ApplicationProtocol F) → Type 0
  FitsIfMade none = Unit {0}
  FitsIfMade (some p) = IsFitting p

  made-FitsIfMade :
      (o : Outcome (ApplicationProtocol F)) → Each IsFitting o → Each FitsIfMade (made F o)
  unfolding made
  made-FitsIfMade o h = Each-bind IsFitting h (λ p f. Each-ok FitsIfMade (some p) f)

  -- Not the HTTP protocol, and if memcached, then one of its two encodings.
  abbrev pub is_covered : List ℕ → Bool
  is_covered proto =
      not (is_prefix (codes "http") proto)
      && (not (is_prefix (codes "memcache") proto)
          || (is_prefix (codes "memcache-bin") proto || is_prefix (codes "memcache-ascii") proto))

  pub init_app_proto-FitsIfMade :
      (http_init : List ℕ → Option (ApplicationProtocol F)) (mem : ℕ → RandGen F)
      (app_proto : ApplicationProtocol F) (proto : List ℕ)
      → is_covered proto ≡ true
      → Each FitsIfMade (init_app_proto F http_init mem app_proto proto)
  unfolding init_app_proto
  init_app_proto-FitsIfMade http_init mem app_proto proto known =
      Each-if (is_prefix (codes "echo") proto)
        (λ e. made-FitsIfMade (echo_init F proto) (echo_init-IsFitting proto))
        (λ e.
          Each-if (is_prefix (codes "synthetic") proto)
            (λ e.
              made-FitsIfMade (synthetic_init F (mem 0) proto)
                (synthetic_init-IsFitting (mem 0) proto))
            (λ e.
              Each-if (is_prefix (codes "redis") proto)
                (λ e. made-FitsIfMade (redis_init F mem proto) (redis_init-IsFitting mem proto))
                (λ e.
                  Each-if (is_prefix (codes "memcache") proto)
                    (λ m.
                      Each-bind (λ r. IsFitting r.0)
                        (memcache_init-IsFitting mem app_proto proto (ground (arith, known, m)))
                        (λ r f. Each-ok FitsIfMade (some r.0) f))
                    (λ e.
                      Each-if (is_prefix (codes "http") proto)
                        (λ h. absurd (ground (arith, known, h)))
                        (λ e.
                          Each-if (is_prefix (codes "stss") proto)
                            (λ e.
                              made-FitsIfMade (stss_init F mem proto)
                                (stss_init-IsFitting mem proto))
                            (λ e. Each-ok FitsIfMade none tt))))))
