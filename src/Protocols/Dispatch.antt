-- ===== src/Protocols/Dispatch.antt =====
-- `create_request` and `consume_response` (inc/lancet/app_proto.h:70-80), and the requests that draw
-- from generators (agents/app_proto.c:98-114, 151-194), in the build without R2P2.
use lancet_tool.Base.{
  ℕ, ◌*◌, List, [], ◌∷◌, ◌++◌, Option, some, none, if◌then◌else◌, Outcome, ok, fault, Fault, ◌>>=◌,
}
use lancet_tool.Base.Each.{HasNoNull, is_ok, is_assertion, HasNoNull-bind, HasNoNull-if}
use lancet_tool.RandGen.Init.Drawing.{IsDrawable}
use lancet_tool.KeyValue.Drawable.{generate_draw-HasNoNull}
use lancet_tool.AppProto.{
  ByteReqPair, Iovec, Request, long_bytes, sizeof_long, echo_create_request,
  synthetic_create_request, echo_consume_response, synthetic_consume_response,
  stss_consume_response,
}
use lancet_tool.RandGen.{Floating, RandGen, Draws, generate_draw}
use lancet_tool.KeyValue.{KvDraws, as_size, put_iovs, random_char}
use lancet_tool.Redis.{redis_kv_consume_response}
use lancet_tool.Redis.Requests.{redis_kv_create_request}
use lancet_tool.Redis.Ycsbe.{YcsbeDraws, redis_ycsbe_create_request}
use lancet_tool.Memcache.{memcache_bin_consume_response}
use lancet_tool.Memcache.Ascii.{memcache_ascii_consume_response}
use lancet_tool.Memcache.Requests.{memcache_ascii_create_request, memcache_bin_create_request}
use lancet_tool.Protocols.{CreateRequest, ConsumeResponse, StssData, Arg, ApplicationProtocol}

module _ (F : Floating) where
  -- What the sources of randomness give to one request, whatever its protocol.
  pub record RequestDraws : Type 0 where
    pub first : Draws F
    pub second : Draws F
    pub third : Draws F
    pub for_kv : KvDraws F
    pub for_ycsbe : YcsbeDraws F

  -- `synthetic_create_request`
  pub draw_synthetic : RandGen F → Draws F → ℕ → Request → Outcome (Request × ℕ)
  draw_synthetic gen draws prev_rr req = generate_draw F draws prev_rr gen >>= λ d.
      ok (synthetic_create_request (as_size (F.lround d.0)) req, d.1)

  -- The two iovecs of a stss request, from the service time and the two sizes as `long`s.
  abbrev stss_iovs : (time req_size rep_size : ℕ) → List Iovec
  stss_iovs time req_size rep_size =
      record {
        iov_base = long_bytes 8 time ++ (long_bytes 8 req_size ++ long_bytes 8 rep_size);
        iov_len = 3 * sizeof_long;
      }
      ∷ record { iov_base = random_char; iov_len = req_size }
      ∷ []

  -- `stss_create_request`
  pub stss_create_request : StssData F → (d0 d1 d2 : Draws F) → ℕ → Request → Outcome (Request × ℕ)
  stss_create_request info d0 d1 d2 prev_rr req =
      generate_draw F d0 prev_rr info.time_gen >>= λ time.
      generate_draw F d1 time.1 info.req_size_gen >>= λ req_size.
      generate_draw F d2 req_size.1 info.rep_size_gen >>= λ rep_size.
      let iovs =
        stss_iovs (as_size (F.lround time.0)) (as_size (F.lround req_size.0))
          (as_size (F.lround rep_size.0)) in
      if info.replicated
      then fault Fault.assertion
      else ok (record (put_iovs iovs req) { meta = 0 }, rep_size.1)

  -- A call of the function that `create_request` points to. A function that finds the argument of
  -- another protocol reads through memory that is not its own. `http` stands for the function of the
  -- HTTP protocol.
  pub call_create_request :
      (http : Request → Outcome Request)
      → CreateRequest
      → Option (Arg F)
      → RequestDraws
      → ℕ
      → Request
      → Outcome (Request × ℕ)
  unfolding draw_synthetic stss_create_request
  call_create_request http CreateRequest.echo_create_request (some (Arg.message msg)) draws prev_rr
        req =
      ok (echo_create_request msg req, prev_rr)
  call_create_request http CreateRequest.synthetic_create_request (some (Arg.generator gen)) draws
        prev_rr req =
      draw_synthetic gen draws.first prev_rr req
  call_create_request http CreateRequest.stss_create_request (some (Arg.stss info)) draws prev_rr
        req =
      stss_create_request info draws.first draws.second draws.third prev_rr req
  call_create_request http CreateRequest.redis_kv_create_request (some (Arg.kv info)) draws prev_rr
        req =
      redis_kv_create_request F info draws.for_kv prev_rr req
  call_create_request http CreateRequest.redis_ycsbe_create_request (some (Arg.ycsbe info)) draws
        prev_rr req =
      redis_ycsbe_create_request F info draws.for_ycsbe req >>= λ r. ok (r, prev_rr)
  call_create_request http CreateRequest.memcache_bin_create_request (some (Arg.kv info)) draws
        prev_rr req =
      memcache_bin_create_request F info draws.for_kv prev_rr req
  call_create_request http CreateRequest.memcache_ascii_create_request (some (Arg.kv info)) draws
        prev_rr req =
      memcache_ascii_create_request F info draws.for_kv prev_rr req
  call_create_request http CreateRequest.http_create_request arg draws prev_rr req =
      http req >>= λ r. ok (r, prev_rr)
  call_create_request http f arg draws prev_rr req = fault Fault.null_pointer

  -- `create_request`
  unfoldable pub create_request :
      (http : Request → Outcome Request)
      → ApplicationProtocol F
      → RequestDraws
      → ℕ
      → Request
      → Outcome (Request × ℕ)
  unfolding call_create_request
  create_request http proto draws prev_rr req = elim proto.create_request [
    | none ↦ fault Fault.null_pointer
    | some f ↦ call_create_request http f proto.arg draws prev_rr req
  ]

  -- A call of the function that `consume_response` points to. `fuel` is for the two loops that need
  -- not end, and `processed` is what the uninitialised variable of the stss parser holds.
  pub call_consume_response :
      (http : Iovec → Outcome ByteReqPair)
      → (fuel processed : ℕ) → ConsumeResponse
      → Option (Arg F)
      → Iovec
      → Outcome ByteReqPair
  call_consume_response http fuel processed ConsumeResponse.echo_consume_response
        (some (Arg.message msg)) response =
      echo_consume_response msg response
  call_consume_response http fuel processed ConsumeResponse.synthetic_consume_response arg
        response =
      synthetic_consume_response response
  call_consume_response http fuel processed ConsumeResponse.stss_consume_response arg response =
      stss_consume_response fuel processed response
  call_consume_response http fuel processed ConsumeResponse.redis_kv_consume_response arg response =
      redis_kv_consume_response fuel response
  call_consume_response http fuel processed ConsumeResponse.memcache_bin_consume_response arg
        response =
      memcache_bin_consume_response response
  call_consume_response http fuel processed ConsumeResponse.memcache_ascii_consume_response arg
        response =
      memcache_ascii_consume_response response
  call_consume_response http fuel processed ConsumeResponse.http_consume_response arg response =
      http response
  call_consume_response http fuel processed f arg response = fault Fault.null_pointer

  -- `consume_response`
  unfoldable pub consume_response :
      (http : Iovec → Outcome ByteReqPair)
      → (fuel processed : ℕ) → ApplicationProtocol F
      → Iovec
      → Outcome ByteReqPair
  unfolding call_consume_response
  consume_response http fuel processed proto response = elim proto.consume_response [
    | none ↦ fault Fault.null_pointer
    | some f ↦ call_consume_response http fuel processed f proto.arg response
  ]

  pub draw_synthetic-HasNoNull :
      (gen : RandGen F) (draws : Draws F) (prev_rr : ℕ) (req : Request)
      → IsDrawable F gen
      → HasNoNull (draw_synthetic gen draws prev_rr req)
  unfolding draw_synthetic
  draw_synthetic-HasNoNull gen draws prev_rr req h =
      HasNoNull-bind (generate_draw-HasNoNull F draws prev_rr gen h) (λ d. is_ok _)

  pub stss_create_request-HasNoNull :
      (info : StssData F) (d0 d1 d2 : Draws F) (prev_rr : ℕ) (req : Request)
      → IsDrawable F info.time_gen
      → IsDrawable F info.req_size_gen
      → IsDrawable F info.rep_size_gen
      → HasNoNull (stss_create_request info d0 d1 d2 prev_rr req)
  unfolding stss_create_request
  stss_create_request-HasNoNull info d0 d1 d2 prev_rr req h0 h1 h2 =
      HasNoNull-bind (generate_draw-HasNoNull F d0 prev_rr info.time_gen h0) (λ time.
        HasNoNull-bind (generate_draw-HasNoNull F d1 time.1 info.req_size_gen h1) (λ req_size.
          HasNoNull-bind (generate_draw-HasNoNull F d2 req_size.1 info.rep_size_gen h2)
            (λ rep_size. HasNoNull-if info.replicated is_assertion (is_ok _))))
