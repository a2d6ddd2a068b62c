-- ===== src/KeyValue.antt =====
-- The key-value protocols: what agents/redis.c and agents/memcache.c share. Both keep a
-- `struct kv_info` (inc/lancet/app_proto.h), parse it from the same fields, and draw the key, the kind
-- and the size of a request in the same order.
pub mod Drawable
pub mod Selection
mod Tests
use lancet_tool.Base.{
  ℕ, zero, suc, ◌+◌, ◌-◌, ◌*◌, ◌^◌, ◌%◌, List, [], ◌∷◌, ◌++◌, Option, some, none, Bool,
  if◌then◌else◌, Outcome, ok, fault, Fault, ◌>>=◌, ℤ, pos, negsuc, leb_ℤ, leb, length, drop,
  replicate, get_elem?, take, take-length_append, ◌≤◌, ◌≡◌, refl, ap, arith,
}
use lancet_tool.Libc.{atoi, decimal}
use lancet_tool.Libc.Strings.{next_token}
use lancet_tool.AppProto.{Iovec, Request, gather, payload}
use lancet_tool.RandGen.{Floating, RandGen, Draws, generate_draw}
use lancet_tool.RandGen.Init.{init_rand}
use lancet_tool.KeyGen.Init.{KeyGenerator, init_key_gen}

abbrev pub max_val_size : ℕ
max_val_size = 2 * 1024 * 1024

-- `random_char`, as `init_app_proto` fills it.
pub random_char : List ℕ
random_char = replicate max_val_size b'x'

take-replicate : (n m : ℕ) (x : ℕ) → n ≤ m → take n (replicate m x) ≡ replicate n x
take-replicate zero m x h = refl
take-replicate (suc n) zero x h = absurd (omega arith)
take-replicate (suc n) (suc m) x h = ap (◌∷◌ x) (take-replicate n m x (omega arith))

pub take-random_char : (n : ℕ) → n ≤ max_val_size → take n random_char ≡ replicate n b'x'
unfolding random_char
take-random_char n h = take-replicate n max_val_size b'x' h

-- The bytes of a C string, its NUL included, of which a request sends the text.
abbrev pub text_iov : List ℕ → Iovec
text_iov s = record { iov_base = s ++ 0 ∷ []; iov_len = length s }

-- A `long` as a `size_t`, and as `%ld` prints it.
abbrev pub as_size : ℤ → ℕ
as_size (pos n) = n
as_size (negsuc n) = 2 ^ 64 - suc n

abbrev pub signed_decimal : ℤ → List ℕ
signed_decimal (pos n) = decimal n
signed_decimal (negsuc n) = b'-' ∷ decimal (suc n)

-- The iovecs from the first on, as a request sets them, and their count. The others keep what they
-- hold.
abbrev pub put_iovs : List Iovec → Request → Request
put_iovs new req = record req { iovs = new ++ drop (length new) req.iovs; iov_cnt = length new }

-- A string goes out without its NUL.
pub text_bytes : (s : List ℕ) → take (length s) (s ++ 0 ∷ []) ≡ s
text_bytes s = take-length_append s (0 ∷ [])

-- The bytes of a request are those of the iovecs that it sets.
pub payload-put_iovs : (new : List Iovec) (req : Request) → payload (put_iovs new req) ≡ gather new
payload-put_iovs new req = ap gather (take-length_append new (drop (length new) req.iovs))

module _ (F : Floating) where
  -- `struct kv_info`
  pub record KvInfo : Type 0 where
    pub key : KeyGenerator F
    pub val_len : RandGen F
    pub key_sel : RandGen F
    pub get_ratio : F.D

  -- What the sources of randomness give to one request: the draw of the key, the number of drand48
  -- that decides between get and set, and the draw of the size.
  pub record KvDraws : Type 0 where
    pub key_draw : Draws F
    pub coin : F.D
    pub val_draw : Draws F

  -- The key of a request, and for a set the size of its value.
  pub record KvChoice : Type 0 where
    pub key : Iovec
    pub val_len : Option ℤ

  -- `&info->key->keys[key_idx]`, read when the request is filled in.
  pub key_at : List Iovec → ℤ → Outcome Iovec
  key_at keys (negsuc n) = fault Fault.out_of_bounds
  key_at keys (pos i) = elim (get_elem? keys i) [
    | none ↦ fault Fault.out_of_bounds
    | some key ↦ ok key
  ]

  -- The draws of the `create_request` functions of redis and memcached, and their assertion.
  pub draw_kv : KvInfo → KvDraws → ℕ → Outcome (KvChoice × ℕ)
  unfolding key_at
  draw_kv info draws prev_rr = generate_draw F draws.key_draw prev_rr info.key_sel >>= λ key_idx.
      key_at info.key.keys (F.to_int key_idx.0) >>= λ key.
      if F.lt info.get_ratio draws.coin
      then (generate_draw F draws.val_draw key_idx.1 info.val_len >>= λ size.
          if leb_ℤ (F.lround size.0) (pos max_val_size)
          then ok (record { key = key; val_len = some (F.lround size.0) }, size.1)
          else fault Fault.assertion)
      else ok (record { key = key; val_len = none }, key_idx.1)

  -- `init_rand` of a token, and the assertion on its result.
  unfoldable pub init_some : RandGen F → Option (List ℕ) → Outcome (RandGen F)
  init_some mem none = fault Fault.null_pointer
  init_some mem (some t) =
      init_rand F mem t >>= λ gen. elim gen [ none ↦ fault Fault.assertion | some g ↦ ok g ]

  -- A token that is read through.
  unfoldable pub given : Option (List ℕ) → Outcome (List ℕ)
  given none = fault Fault.null_pointer
  given (some t) = ok t

  -- `sprintf(key_sel, "%s:%d\n", token, key_count)` into 64 bytes.
  unfoldable pub key_selector : List ℕ → ℤ → Outcome (List ℕ)
  key_selector token key_count =
      let text = token ++ b':' ∷ (signed_decimal key_count ++ b'\n' ∷ []) in
      if leb (length text + 1) 64 then ok text else fault Fault.out_of_bounds

  -- The initialisation from the tokens of the fields, of which a missing one is read through. The three
  -- generators are made in memory from malloc.
  pub kv_of :
      (val_mem key_mem sel_mem : RandGen F)
      → (key_dist val_dist count ratio selector : Option (List ℕ)) → Outcome KvInfo
  unfolding init_some given key_selector
  kv_of val_mem key_mem sel_mem key_dist val_dist count ratio selector =
      init_some val_mem val_dist >>= λ val_len. given count >>= λ count_text.
      given key_dist >>= λ key_text. init_key_gen F key_mem key_text (atoi count_text) >>= λ key.
      given ratio >>= λ ratio_text. given selector >>= λ token.
      key_selector token (atoi count_text) >>= λ key_sel_text.
      init_some sel_mem (some key_sel_text) >>= λ key_sel.
      ok (record { key = key; val_len = val_len; key_sel = key_sel; get_ratio = F.atof ratio_text })

  -- The fields of `<type>_<key size>_<value size>_<key count>_<get ratio>_<key selector>`, as
  -- `init_redis_kv` and `memcache_init` read them.
  unfoldable pub init_kv : (val_mem key_mem sel_mem : RandGen F) → List ℕ → Outcome KvInfo
  unfolding kv_of
  init_kv val_mem key_mem sel_mem proto =
      let type = next_token b'_' proto in
      let key_dist = next_token b'_' type.1 in
      let val_dist = next_token b'_' key_dist.1 in
      let count = next_token b'_' val_dist.1 in
      let ratio = next_token b'_' count.1 in
      let selector = next_token b'_' ratio.1 in
      kv_of val_mem key_mem sel_mem key_dist.0 val_dist.0 count.0 ratio.0 selector.0
