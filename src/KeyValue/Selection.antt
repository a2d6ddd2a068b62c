-- ===== src/KeyValue/Selection.antt =====
-- The key of a request is one of the keys (agents/redis.c:157-159, 212-252, agents/memcache.c:117-119,
-- 261-303), for the two selectors that draw below the number of keys.
use lancet_tool.Base.{
  ℕ, ◌<◌, ◌≡◌, refl, sym, ap, ◌∙◌, List, [], ◌∷◌, ◌++◌, some, ok, Fault, ◌>>=◌, ℤ, pos, length,
  get_elem?-eq-get_or, get_or, arith,
}
use lancet_tool.Base.Each.{Each, Each-after, Each-ok, Each-fault, Each-bind, Each-if}
use lancet_tool.Libc.{atoi, decimal}
use lancet_tool.Libc.Decimal.{
  AllNe, AllNe-append, decimal-cons, decimal-AllNe_above, atoi-decimal_alone,
}
use lancet_tool.Libc.Strings.{codes, next_token, next_token-found, next_token-last}
use lancet_tool.AppProto.{Iovec}
use lancet_tool.RandGen.{Floating, RandGen, Draws, Drawn, generate_draw}
use lancet_tool.RandGen.Init.{init_rand, rr_init, uni_init}
use lancet_tool.RandGen.Init.RoundRobin.{init_rand-rr, init_rand-uni, rr_below, uni_below}
use lancet_tool.KeyGen.Init.{init_key_gen, init_key_gen-length}
use lancet_tool.KeyValue.{KvInfo, key_at, init_some, given, key_selector, kv_of, init_kv}

-- A field of a selector: a text that is not empty.
pub record Word : Type 0 where
  pub first : ℕ
  pub rest : List ℕ

abbrev pub text : Word → List ℕ
text w = w.first ∷ w.rest

-- The fields of `<type>_<key size>_<value size>_<key count>_<get ratio>_<key selector>`.
pub record KvFields : Type 0 where
  pub type : Word
  pub key_dist : Word
  pub val_dist : Word
  pub ratio : Word

-- The selectors of the keys.
pub data Selector : Type 0 where
  rr uni : Selector

abbrev pub selector_word : Selector → Word
selector_word rr = record { first = b'r'; rest = codes "r" }
selector_word uni = record { first = b'u'; rest = codes "ni" }

abbrev pub kv_text : KvFields → ℕ → Selector → List ℕ
kv_text f n s =
    text f.type
    ++ b'_'
      ∷ (text f.key_dist
          ++ b'_'
            ∷ (text f.val_dist
                ++ b'_' ∷ (decimal n ++ b'_' ∷ (text f.ratio ++ b'_' ∷ text (selector_word s)))))

-- No field has the separator inside.
pub record IsKvFields (f : KvFields) : Type 0 where
  pub type : AllNe b'_' (text f.type)
  pub key_dist : AllNe b'_' (text f.key_dist)
  pub val_dist : AllNe b'_' (text f.val_dist)
  pub ratio : AllNe b'_' (text f.ratio)

selector-AllNe : (s : Selector) → AllNe b'_' (text (selector_word s))
selector-AllNe rr = omega arith
selector-AllNe uni = omega arith

module _ (F : Floating) where
  -- What the code relies on of doubles at the numbers below `n`: a count printed in a line is read back,
  -- and small numbers are exact.
  pub record IsExact (n : ℕ) : Type 0 where
    pub reads : F.to_u64 (F.atof (decimal n ++ b'\n' ∷ [])) ≡ n
    pub exact : (k : ℕ) → k < n → F.to_int (F.of_u64 k) ≡ pos k

  -- Every draw of a key is one of the keys.
  abbrev pub DrawsInside : KvInfo F → Type 0
  DrawsInside info =
      (draws : Draws F) (prev_rr : ℕ)
      → (d : Drawn F) × (key : Iovec) × (generate_draw F draws prev_rr info.key_sel ≡ ok d)
        × (key_at F info.key.keys (F.to_int d.0) ≡ ok key)

  -- A generator below `n`.
  abbrev DrawsBelow : ℕ → RandGen F → Type 0
  DrawsBelow n g =
      (draws : Draws F) (prev_rr : ℕ)
      → (k : ℕ) × (next : ℕ) × (k < n) × (generate_draw F draws prev_rr g ≡ ok (F.of_u64 k, next))

  inside_lem :
      (n : ℕ) (info : KvInfo F)
      → IsExact n
      → length info.key.keys ≡ n
      → DrawsBelow n info.key_sel
      → DrawsInside info
  unfolding key_at
  inside_lem n info exact size below draws prev_rr =
      let (k, next, lt, e) = below draws prev_rr in
      let blank : Iovec = record { iov_base = []; iov_len = 0 } in
      let keys = info.key.keys in
      (
        (F.of_u64 k, next),
        get_or keys k blank,
        e,
        rw (exact.exact k lt, get_elem?-eq-get_or keys k blank (omega (arith, size)), key_at) refl,
      )

  some_lem :
      (mem : RandGen F) (n : ℕ) (t : List ℕ) (g : RandGen F)
      → init_rand F mem t ≡ ok (some g)
      → DrawsBelow n g
      → Each (DrawsBelow n) (init_some F mem (some t))
  unfolding init_some
  some_lem mem n t g e h = rw (e, init_some) (Each-ok (DrawsBelow n) g h)

  rr_init-DrawsBelow :
      (mem : RandGen F) (n : ℕ) (a : F.D) → F.to_u64 a ≡ n → 0 < n → DrawsBelow n (rr_init F mem a)
  rr_init-DrawsBelow mem n a e h draws prev =
      let (k, next, lt, d) = rr_below F mem a draws prev (omega (arith, e)) in
      (k, next, omega (arith, e, lt), d)

  uni_init-DrawsBelow :
      (mem : RandGen F) (n : ℕ) (a : F.D) → F.to_u64 a ≡ n → 0 < n → DrawsBelow n (uni_init F mem a)
  uni_init-DrawsBelow mem n a e h draws prev =
      let (k, next, lt, d) = uni_below F mem a draws prev (omega (arith, e)) in
      (k, next, omega (arith, e, lt), d)

  -- The text of the selector is a generator below the count.
  selector-DrawsBelow :
      (mem : RandGen F) (n : ℕ) (s : Selector)
      → 0 < n
      → IsExact n
      → Each
          (DrawsBelow n)
          (init_some F mem (some (text (selector_word s) ++ b':' ∷ (decimal n ++ b'\n' ∷ []))))
  selector-DrawsBelow mem n s h exact =
      let (d, ds, e) = decimal-cons n in
      let t = d ∷ (ds ++ b'\n' ∷ []) in
      let same : decimal n ++ b'\n' ∷ [] ≡ t = ap (λ w. w ++ b'\n' ∷ []) e in
      let whole : AllNe b':' t =
        AllNe-append b':' (d ∷ ds) (b'\n' ∷ []) (rw e at (decimal-AllNe_above b':' n (omega arith)))
          (omega arith) in
      let value : F.to_u64 (F.atof t) ≡ n =
        ap (λ w. F.to_u64 (F.atof w)) (sym same) ∙ exact.reads in
      rw same (made s t d (ds ++ b'\n' ∷ []) refl whole value)
    where
      made :
          (s' : Selector) (t : List ℕ) (c : ℕ) (w : List ℕ)
          → t ≡ c ∷ w
          → AllNe b':' t
          → F.to_u64 (F.atof t) ≡ n
          → Each (DrawsBelow n) (init_some F mem (some (text (selector_word s') ++ b':' ∷ t)))
      made rr t c w e whole value =
          some_lem mem n (codes "rr" ++ b':' ∷ t) (rr_init F mem (F.atof t))
            (rw e (init_rand-rr F mem c w (rw e at whole)))
            (rr_init-DrawsBelow mem n (F.atof t) value h)
      made uni t c w e whole value =
          some_lem mem n (codes "uni" ++ b':' ∷ t) (uni_init F mem (F.atof t))
            (rw e (init_rand-uni F mem c w (rw e at whole)))
            (uni_init-DrawsBelow mem n (F.atof t) value h)

  key_selector-Each :
      (token : List ℕ) (n : ℕ)
      → Each (λ t. t ≡ token ++ b':' ∷ (decimal n ++ b'\n' ∷ [])) (key_selector F token (pos n))
  unfolding key_selector
  key_selector-Each token n =
      Each-if _ (λ e. Each-ok (λ t. t ≡ token ++ b':' ∷ (decimal n ++ b'\n' ∷ [])) _ refl)
        (λ e. Each-fault (λ t. t ≡ token ++ b':' ∷ (decimal n ++ b'\n' ∷ [])) Fault.out_of_bounds)

  -- From the count and the selector on.
  rest_lem :
      (val_len : RandGen F) (key_mem sel_mem : RandGen F) (n : ℕ) (s : Selector)
      (key_text ratio_text : List ℕ) (count : ℤ)
      → count ≡ pos n
      → 0 < n
      → IsExact n
      → Each DrawsInside (
          init_key_gen F key_mem key_text count >>= λ key.
          key_selector F (text (selector_word s)) count >>= λ key_sel_text.
          init_some F sel_mem (some key_sel_text) >>= λ key_sel. ok (record {
            key = key;
            val_len = val_len;
            key_sel = key_sel;
            get_ratio = F.atof ratio_text;
          }))
  rest_lem val_len key_mem sel_mem n s key_text ratio_text count c h exact =
      let IsText : List ℕ → Type 0 =
        λ t. t ≡ text (selector_word s) ++ b':' ∷ (decimal n ++ b'\n' ∷ []) in
      let keys : Each (λ kg. length kg.keys ≡ n) (init_key_gen F key_mem key_text count) =
        rw c (init_key_gen-length F key_mem key_text (pos n)) in
      let sel_text : Each IsText (key_selector F (text (selector_word s)) count) =
        rw c (key_selector-Each (text (selector_word s)) n) in
      Each-bind (λ kg. length kg.keys ≡ n) keys
        (λ key size. Each-bind IsText sel_text (λ t e.
          let gen : Each (DrawsBelow n) (init_some F sel_mem (some t)) =
            rw e (selector-DrawsBelow sel_mem n s h exact) in
          Each-bind (DrawsBelow n) gen (λ key_sel below.
            let info : KvInfo F = record {
              key = key;
              val_len = val_len;
              key_sel = key_sel;
              get_ratio = F.atof ratio_text;
            } in
            Each-ok DrawsInside info (inside_lem n info exact size below))))

  -- The fields as tokens.
  kv_text_lem :
      (val_mem key_mem sel_mem : RandGen F) (f : KvFields) (n : ℕ) (s : Selector)
      → IsKvFields f
      → init_kv F val_mem key_mem sel_mem (kv_text f n s)
        ≡ kv_of F val_mem key_mem sel_mem
            (some (text f.key_dist))
            (some (text f.val_dist))
            (some (decimal n))
            (some (text f.ratio))
            (some (text (selector_word s)))
  unfolding init_kv
  kv_text_lem val_mem key_mem sel_mem f n s h =
      let (d, ds, e) = decimal-cons n in
      let sel = text (selector_word s) in
      let r4 = text f.ratio ++ b'_' ∷ sel in
      let counted : next_token b'_' (decimal n ++ b'_' ∷ r4) ≡ (some (decimal n), r4) =
        ap (λ w. next_token b'_' (w ++ b'_' ∷ r4)) e
        ∙ next_token-found b'_' d ds r4 (rw e at (decimal-AllNe_above b'_' n (omega arith)))
        ∙ ap (λ w. (some w, r4)) (sym e) in
      rw
        (
          next_token-found b'_' f.type.first f.type.rest _ h.type,
          next_token-found b'_' f.key_dist.first f.key_dist.rest _ h.key_dist,
          next_token-found b'_' f.val_dist.first f.val_dist.rest _ h.val_dist,
          counted,
          next_token-found b'_' f.ratio.first f.ratio.rest _ h.ratio,
          next_token-last b'_' (selector_word s).first (selector_word s).rest (selector-AllNe s),
        )
        refl

  kv_of-DrawsInside :
      (val_mem key_mem sel_mem : RandGen F) (f : KvFields) (n : ℕ) (s : Selector)
      → 0 < n
      → IsExact n
      → Each DrawsInside (
          kv_of F val_mem key_mem sel_mem
            (some (text f.key_dist))
            (some (text f.val_dist))
            (some (decimal n))
            (some (text f.ratio))
            (some (text (selector_word s))))
  unfolding kv_of given
  kv_of-DrawsInside val_mem key_mem sel_mem f n s h exact =
      Each-after (init_some F val_mem (some (text f.val_dist))) (λ val_len.
        rest_lem val_len key_mem sel_mem n s (text f.key_dist) (text f.ratio) (atoi (decimal n))
          (atoi-decimal_alone n) h exact)

  -- For a selector of a key-value protocol with `n` keys, `n` not 0, whose key selector is `rr` or
  -- `uni`, and doubles that are exact at the numbers up to `n`: when `init_kv` returns, every draw of
  -- a key gives one of the keys, and no request reads outside the array of the keys.
  pub init_kv-key_at :
      (val_mem key_mem sel_mem : RandGen F) (f : KvFields) (n : ℕ) (s : Selector) (info : KvInfo F)
      (draws : Draws F) (prev_rr : ℕ)
      → IsKvFields f
      → 0 < n
      → IsExact n
      → init_kv F val_mem key_mem sel_mem (kv_text f n s) ≡ ok info
      → (d : Drawn F) × (key : Iovec) × (generate_draw F draws prev_rr info.key_sel ≡ ok d)
        × (key_at F info.key.keys (F.to_int d.0) ≡ ok key)
  init_kv-key_at val_mem key_mem sel_mem f n s info draws prev_rr h some_key exact e =
      (kv_of-DrawsInside val_mem key_mem sel_mem f n s some_key exact).each info
        (sym (kv_text_lem val_mem key_mem sel_mem f n s h) ∙ e) draws prev_rr
