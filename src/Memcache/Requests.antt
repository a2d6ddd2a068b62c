-- ===== src/Memcache/Requests.antt =====
-- The requests of agents/memcache.c (38-44, 109-156 and 204-259). `meta` is left as it is.
use lancet_tool.Base.{
  ℕ, ◌+◌, ◌/◌, ◌%◌, ◌^◌, ◌≤◌, ◌<◌, ◌≡◌, refl, ap, ◌∙◌, List, [], ◌∷◌, ◌++◌, Option, some, none,
  false, Outcome, ok, ◌>>=◌, ℤ, pos, length, take, length-take, length-append, length-replicate,
  replicate, ltb, drop, arith, append-nil,
}
use lancet_tool.Base.Each.{HasNoNull, is_ok, HasNoNull-bind}
use lancet_tool.KeyValue.Drawable.{IsDrawableKv, draw_kv-HasNoNull}
use lancet_tool.Libc.Strings.{codes}
use lancet_tool.AppProto.{Iovec, Request, gather, payload}
use lancet_tool.RandGen.{Floating}
use lancet_tool.KeyValue.{
  KvInfo, KvDraws, draw_kv, text_iov, as_size, signed_decimal, put_iovs, random_char, max_val_size,
  take-random_char, payload-put_iovs,
}
use lancet_tool.Memcache.{sizeof_header, read_be}
use lancet_tool.Memcache.Bin.{frame}

-- `get_cmd`, `set_cmd`, `set_zeros` and `rn`
abbrev rn : List ℕ
rn = codes "\r\n"

-- What `memcache_ascii_create_request` fills in once the key and the value are drawn.
pub memcache_ascii_request : Iovec → Option ℤ → Request → Request
memcache_ascii_request key none req =
    put_iovs (text_iov (codes "get ") ∷ key ∷ text_iov rn ∷ []) req
memcache_ascii_request key (some val_len) req =
    put_iovs
      (text_iov (codes "set ")
        ∷ key
        ∷ text_iov (codes " 0 0 ")
        ∷ text_iov (signed_decimal val_len)
        ∷ text_iov rn
        ∷ record { iov_base = random_char; iov_len = as_size val_len }
        ∷ text_iov rn
        ∷ [])
      req

-- `memcache_ascii_create_request`
pub memcache_ascii_create_request :
    (F : Floating) → KvInfo F → KvDraws F → ℕ → Request → Outcome (Request × ℕ)
unfolding memcache_ascii_request
memcache_ascii_create_request F info draws prev_rr req = draw_kv F info draws prev_rr >>= λ drawn.
    ok (memcache_ascii_request drawn.0.key drawn.0.val_len req, drawn.1)

-- `struct bmc_header`, with the fields in the order of the host.
pub record BmcHeader : Type 0 where
  pub magic : ℕ
  pub opcode : ℕ
  pub key_len : ℕ
  pub extra_len : ℕ
  pub data_type : ℕ
  pub vbucket : ℕ
  pub body_len : ℕ
  pub opaque : ℕ
  pub version : ℕ

-- `CMD_GETK` and `CMD_SET`
abbrev pub cmd_getk : ℕ
cmd_getk = 0x0c

abbrev pub cmd_set : ℕ
cmd_set = 0x01

-- The two and the four bytes of a number in network order: `htons` and `htonl`.
abbrev be_16 : ℕ → List ℕ
be_16 n = (n / 2 ^ 8 % 256) ∷ (n % 256) ∷ []

abbrev be_32 : ℕ → List ℕ
be_32 n = (n / 2 ^ 24 % 256) ∷ (n / 2 ^ 16 % 256) ∷ (n / 2 ^ 8 % 256) ∷ (n % 256) ∷ []

-- The header in memory. `opaque` and `version` stay 0, in either order.
pub header_bytes : BmcHeader → List ℕ
header_bytes h =
    h.magic
    ∷ h.opcode
    ∷ (be_16 h.key_len
        ++ h.extra_len
          ∷ h.data_type
          ∷ (be_16 h.vbucket ++ be_32 h.body_len ++ be_32 h.opaque ++ be_32 0 ++ be_32 h.version))

-- The header after `bzero`, with the fields that both kinds of request set.
abbrev request_header : ℕ → BmcHeader
request_header key_len = record {
  magic = 0x80;
  opcode = 0;
  key_len = key_len % 2 ^ 16;
  extra_len = 0;
  data_type = 0;
  vbucket = 0;
  body_len = 0;
  opaque = 0;
  version = 0;
}

-- `&header` and `&extras`
header_iov : BmcHeader → Iovec
unfolding header_bytes
header_iov h = record { iov_base = header_bytes h; iov_len = sizeof_header }

abbrev extras_iov : Iovec
extras_iov = record { iov_base = replicate 8 0; iov_len = 8 }

-- What `memcache_bin_create_request` fills in once the key and the value are drawn.
pub memcache_bin_request : Iovec → Option ℤ → Request → Request
unfolding header_iov
memcache_bin_request key none req =
    let header = record (request_header key.iov_len) {
      opcode = cmd_getk;
      extra_len = 0x00;
      body_len = key.iov_len % 2 ^ 32;
    } in
    put_iovs (header_iov header ∷ key ∷ []) req
memcache_bin_request key (some val_len) req =
    let header = record (request_header key.iov_len) {
      opcode = cmd_set;
      extra_len = 0x08;
      body_len = (key.iov_len + as_size val_len + 0x08) % 2 ^ 32;
    } in
    put_iovs
      (header_iov header
        ∷ extras_iov
        ∷ key
        ∷ record { iov_base = random_char; iov_len = as_size val_len }
        ∷ [])
      req

-- `memcache_bin_create_request`
pub memcache_bin_create_request :
    (F : Floating) → KvInfo F → KvDraws F → ℕ → Request → Outcome (Request × ℕ)
unfolding memcache_bin_request
memcache_bin_create_request F info draws prev_rr req = draw_kv F info draws prev_rr >>= λ drawn.
    ok (memcache_bin_request drawn.0.key drawn.0.val_len req, drawn.1)

pub memcache_bin_create_request-HasNoNull :
    (F : Floating) (info : KvInfo F) (draws : KvDraws F) (prev_rr : ℕ) (req : Request)
    → IsDrawableKv F info
    → HasNoNull (memcache_bin_create_request F info draws prev_rr req)
unfolding memcache_bin_create_request
memcache_bin_create_request-HasNoNull F info draws prev_rr req h =
    HasNoNull-bind (draw_kv-HasNoNull F info draws prev_rr h) (λ drawn. is_ok _)

pub memcache_ascii_create_request-HasNoNull :
    (F : Floating) (info : KvInfo F) (draws : KvDraws F) (prev_rr : ℕ) (req : Request)
    → IsDrawableKv F info
    → HasNoNull (memcache_ascii_create_request F info draws prev_rr req)
unfolding memcache_ascii_create_request
memcache_ascii_create_request-HasNoNull F info draws prev_rr req h =
    HasNoNull-bind (draw_kv-HasNoNull F info draws prev_rr h) (λ drawn. is_ok _)

-- The length of the body is read back from the header.
body_len_lem :
    (h : BmcHeader) (body : List ℕ)
    → h.body_len < 2 ^ 32
    → read_be 4 0 (header_bytes h ++ body) 8 ≡ some h.body_len
unfolding header_bytes read_be
body_len_lem h body small = ap some (omega arith)

-- A header with its body is one message.
frame-header :
    (h : BmcHeader) (body : List ℕ)
    → h.body_len ≡ length body
    → h.body_len < 2 ^ 32
    → frame (header_bytes h ++ body) ≡ some (length (header_bytes h ++ body))
unfolding frame header_bytes
frame-header h body e small =
    let n : length (header_bytes h ++ body) ≡ 24 + length body =
      omega (arith, length-append (header_bytes h) body) in
    let long : ltb (length (header_bytes h ++ body)) 24 ≡ false = ground arith in
    let whole : ltb (length (header_bytes h ++ body)) (h.body_len + 24) ≡ false = ground arith in
    rw (long, body_len_lem h body small) (rw whole (ap some (omega arith)))

gather-header :
    (h : BmcHeader) (rest : List Iovec)
    → gather (header_iov h ∷ rest) ≡ header_bytes h ++ gather rest
unfolding header_iov header_bytes
gather-header h rest = refl

-- What is so sent is one message, with the body behind the header.
message_lem :
    (h : BmcHeader) (p body : List ℕ)
    → p ≡ header_bytes h ++ body
    → h.body_len ≡ length body
    → h.body_len < 2 ^ 32
    → (frame p ≡ some (length p)) × (drop 24 p ≡ body)
unfolding header_bytes
message_lem h p body e n small = rw e (frame-header h body n small, refl)

-- For a key whose bytes are all in memory and lengths that fit 32 bits, what
-- `memcache_bin_create_request` sends is one whole message of the binary protocol, as the parser of
-- this file frames it. Behind the header of 24 bytes stand, for a get, the key, and for a set of at
-- most `MAX_VAL_SIZE` bytes, 8 bytes of extras, the key and the value.
pub memcache_bin_request_lem :
    (key : Iovec) (n : ℕ) (req : Request)
    → key.iov_len ≤ length key.iov_base
    → n ≤ max_val_size
    → key.iov_len + n + 8 < 2 ^ 32
    → let k = take key.iov_len key.iov_base in
      let get = payload (memcache_bin_request key none req) in
      let set = payload (memcache_bin_request key (some (pos n)) req) in
      (frame get ≡ some (length get))
      × (drop 24 get ≡ k)
      × (frame set ≡ some (length set))
      × (drop 24 set ≡ replicate 8 0 ++ k ++ replicate n b'x')
unfolding memcache_bin_request
memcache_bin_request_lem key n req inside small fits =
    let k = take key.iov_len key.iov_base in
    let m : length k ≡ key.iov_len = omega (arith, length-take key.iov_len key.iov_base) in
    let get_header : BmcHeader = record (request_header key.iov_len) {
      opcode = cmd_getk;
      extra_len = 0x00;
      body_len = key.iov_len % 2 ^ 32;
    } in
    let set_header : BmcHeader = record (request_header key.iov_len) {
      opcode = cmd_set;
      extra_len = 0x08;
      body_len = (key.iov_len + n + 0x08) % 2 ^ 32;
    } in
    let value : Iovec = record { iov_base = random_char; iov_len = n } in
    let set_body = replicate 8 0 ++ k ++ replicate n b'x' in
    let size : length set_body ≡ 8 + (key.iov_len + n) =
      omega (arith, length-append k (replicate n b'x'), length-replicate {A = ℕ} n b'x', m) in
    let (get_frame, get_rest) =
      message_lem get_header (payload (memcache_bin_request key none req)) k
        (payload-put_iovs (header_iov get_header ∷ key ∷ []) req
          ∙ gather-header get_header (key ∷ [])
          ∙ ap (λ t. header_bytes get_header ++ t) (append-nil k))
        (omega (arith, m)) (omega arith) in
    let (set_frame, set_rest) =
      message_lem set_header (payload (memcache_bin_request key (some (pos n)) req)) set_body
        (payload-put_iovs (header_iov set_header ∷ extras_iov ∷ key ∷ value ∷ []) req
          ∙ gather-header set_header (extras_iov ∷ key ∷ value ∷ [])
          ∙ ap (λ t. header_bytes set_header ++ replicate 8 0 ++ k ++ t)
              (append-nil (take n random_char) ∙ take-random_char n small))
        (omega (arith, size)) (omega arith) in
    (get_frame, get_rest, set_frame, set_rest)
