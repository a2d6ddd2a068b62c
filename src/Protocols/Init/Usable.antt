-- ===== src/Protocols/Init/Usable.antt =====
-- A request of every protocol that `init_app_proto` makes can be created.
use lancet_tool.Base.{ℕ, ◌≡◌, List, Option, some, true, Outcome, ok}
use lancet_tool.Base.Each.{HasNoNull, is_ok, HasNoNull-bind}
use lancet_tool.AppProto.{Request}
use lancet_tool.RandGen.{Floating, RandGen}
use lancet_tool.Redis.Requests.{redis_kv_create_request-HasNoNull}
use lancet_tool.Redis.Ycsbe.{redis_ycsbe_create_request-HasNoNull, init_ycsbe_info}
use lancet_tool.Memcache.Requests.{
  memcache_bin_create_request-HasNoNull, memcache_ascii_create_request-HasNoNull,
}
use lancet_tool.Protocols.{ApplicationProtocol}
use lancet_tool.Protocols.Dispatch.{
  RequestDraws, create_request, draw_synthetic-HasNoNull, stss_create_request-HasNoNull,
}
use lancet_tool.Protocols.Init.{init_app_proto, init_redis_ycsbe}
use lancet_tool.Protocols.Init.Safe.{
  IsFitting, fits_echo, fits_synthetic, fits_stss, fits_redis, fits_ycsbe, fits_memcache_bin,
  fits_memcache_ascii, is_covered, init_app_proto-FitsIfMade,
}

module _ (F : Floating) where
  fitting-HasNoNull :
      (http : Request → Outcome Request) (p : ApplicationProtocol F) (draws : RequestDraws F)
      (prev_rr : ℕ) (req : Request)
      → IsFitting F p
      → HasNoNull (create_request F http p draws prev_rr req)
  unfolding create_request init_redis_ycsbe
  fitting-HasNoNull http p draws prev_rr req (fits_echo arg) = is_ok _
  fitting-HasNoNull http p draws prev_rr req (fits_synthetic gen h) =
      draw_synthetic-HasNoNull F gen draws.first prev_rr req h
  fitting-HasNoNull http p draws prev_rr req (fits_stss info h0 h1 h2) =
      stss_create_request-HasNoNull F info draws.first draws.second draws.third prev_rr req h0 h1 h2
  fitting-HasNoNull http p draws prev_rr req (fits_redis info h) =
      redis_kv_create_request-HasNoNull F info draws.for_kv prev_rr req h
  fitting-HasNoNull http p draws prev_rr req (fits_memcache_bin info h) =
      memcache_bin_create_request-HasNoNull F info draws.for_kv prev_rr req h
  fitting-HasNoNull http p draws prev_rr req (fits_memcache_ascii info h) =
      memcache_ascii_create_request-HasNoNull F info draws.for_kv prev_rr req h
  fitting-HasNoNull http p draws prev_rr req (fits_ycsbe proto) =
      HasNoNull-bind
        (redis_ycsbe_create_request-HasNoNull F (init_ycsbe_info F proto) draws.for_ycsbe req)
        (λ r. is_ok _)

  -- For a selector that does not name HTTP, and that if it names memcached names one of its two
  -- encodings: when `init_app_proto` returns a protocol, a call of `create_request` on it reads or calls
  -- no null pointer and finds the argument of its own protocol, whatever the memory from malloc held
  -- and whatever is drawn.
  pub create_request-HasNoNull :
      (http_init : List ℕ → Option (ApplicationProtocol F)) (http : Request → Outcome Request)
      (mem : ℕ → RandGen F) (app_proto : ApplicationProtocol F) (proto : List ℕ)
      (p : ApplicationProtocol F) (draws : RequestDraws F) (prev_rr : ℕ) (req : Request)
      → is_covered F proto ≡ true
      → init_app_proto F http_init mem app_proto proto ≡ ok (some p)
      → HasNoNull (create_request F http p draws prev_rr req)
  create_request-HasNoNull http_init http mem app_proto proto p draws prev_rr req known e =
      fitting-HasNoNull http p draws prev_rr req
        ((init_app_proto-FitsIfMade F http_init mem app_proto proto known).each (some p) e)
