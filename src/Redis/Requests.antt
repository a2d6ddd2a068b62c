-- ===== src/Redis/Requests.antt =====
-- The requests of agents/redis.c: SET and GET (149-210), and YCSB-E (262-315). The build is the one
-- without R2P2, which leaves `meta` as it is, and stops at a replicated YCSB-E request.
use lancet_tool.Base.{
  ℕ, ◌≡◌, refl, ◌∙◌, ◌≤◌, List, [], ◌∷◌, ◌++◌, Option, some, none, Outcome, ok, ◌>>=◌, ℤ, pos,
  length, take, replicate, append_assoc, length-replicate, length-take, arith,
}
use lancet_tool.Base.Each.{HasNoNull, is_ok, HasNoNull-bind}
use lancet_tool.KeyValue.Drawable.{IsDrawableKv, draw_kv-HasNoNull}
use lancet_tool.Libc.{decimal}
use lancet_tool.Libc.Strings.{codes}
use lancet_tool.AppProto.{Iovec, Request, payload}
use lancet_tool.RandGen.{Floating}
use lancet_tool.KeyValue.{
  KvInfo, KvDraws, draw_kv, text_iov, as_size, signed_decimal, put_iovs, random_char,
  take-random_char, text_bytes, payload-put_iovs, max_val_size,
}
use lancet_tool.Redis.Replies.{encode, bulk}

abbrev set_prem : List ℕ
set_prem = codes "*3\r\n$3\r\nSET\r\n$"

abbrev get_prem : List ℕ
get_prem = codes "*2\r\n$3\r\nGET\r\n$"

abbrev ln : List ℕ
ln = codes "\r\n"

abbrev dollar : List ℕ
dollar = codes "$"

-- `iovs[1]` to `iovs[4]`: the key, behind its length.
abbrev key_iovs : Iovec → List Iovec
key_iovs key = text_iov (decimal key.iov_len) ∷ text_iov ln ∷ key ∷ text_iov ln ∷ []

-- `iovs[5]` to `iovs[9]`: the value, behind its length.
abbrev val_iovs : ℤ → List Iovec
val_iovs val_len =
    text_iov dollar
    ∷ text_iov (signed_decimal val_len)
    ∷ text_iov ln
    ∷ record { iov_base = random_char; iov_len = as_size val_len }
    ∷ text_iov ln
    ∷ []

-- What `redis_kv_create_request` fills in once the key and the value are drawn.
pub redis_kv_request : Iovec → Option ℤ → Request → Request
redis_kv_request key none req = put_iovs (text_iov get_prem ∷ key_iovs key) req
redis_kv_request key (some val_len) req =
    put_iovs (text_iov set_prem ∷ (key_iovs key ++ val_iovs val_len)) req

-- `redis_kv_create_request`
pub redis_kv_create_request :
    (F : Floating) → KvInfo F → KvDraws F → ℕ → Request → Outcome (Request × ℕ)
unfolding redis_kv_request
redis_kv_create_request F info draws prev_rr req = draw_kv F info draws prev_rr >>= λ drawn.
    ok (redis_kv_request drawn.0.key drawn.0.val_len req, drawn.1)

pub redis_kv_create_request-HasNoNull :
    (F : Floating) (info : KvInfo F) (draws : KvDraws F) (prev_rr : ℕ) (req : Request)
    → IsDrawableKv F info
    → HasNoNull (redis_kv_create_request F info draws prev_rr req)
unfolding redis_kv_create_request
redis_kv_create_request-HasNoNull F info draws prev_rr req h =
    HasNoNull-bind (draw_kv-HasNoNull F info draws prev_rr h) (λ drawn. is_ok _)

-- The length of a command, printed.
decimal_three : decimal 3 ≡ b'3' ∷ []
unfolding decimal
decimal_three = refl

-- For a key whose bytes are all in memory, a GET request is the array of the two bulk strings, as the
-- Redis protocol writes it, and a SET request with a value of at most `MAX_VAL_SIZE` bytes the array
-- of three.
pub redis_kv_request_lem :
    (key : Iovec) (n : ℕ) (req : Request)
    → key.iov_len ≤ length key.iov_base
    → n ≤ max_val_size
    → let k = take key.iov_len key.iov_base in
      (payload (redis_kv_request key none req)
        ≡ codes "*2\r\n" ++ encode (bulk (codes "GET")) ++ encode (bulk k))
      × (payload (redis_kv_request key (some (pos n)) req)
          ≡ codes "*3\r\n"
            ++ encode (bulk (codes "SET"))
            ++ encode (bulk k)
            ++ encode (bulk (replicate n b'x')))
unfolding redis_kv_request
redis_kv_request_lem key n req inside small =
    let k = take key.iov_len key.iov_base in
    let m : length k ≡ key.iov_len = omega (arith, length-take key.iov_len key.iov_base) in
    let vals : take n random_char ≡ replicate n b'x' = take-random_char n small in
    (
      payload-put_iovs (text_iov get_prem ∷ key_iovs key) req
          ∙ rw (decimal_three, m, text_bytes (decimal key.iov_len)) (simp (append_assoc)),
      payload-put_iovs (text_iov set_prem ∷ (key_iovs key ++ val_iovs (pos n))) req
          ∙ rw
              (
                decimal_three,
                m,
                length-replicate {A = ℕ} n b'x',
                vals,
                text_bytes (decimal key.iov_len),
                text_bytes (decimal n),
              )
              (simp append_assoc),
    )
