-- ===== src/KeyValue/Drawable.antt =====
-- What `init_kv` parses can be drawn from (agents/redis.c:157-176, 212-252, agents/memcache.c).
use lancet_tool.Base.{
  ℕ, ◌≡◌, sym, subst, List, Option, some, none, ok, fault, Fault, inl, inr, ℤ, pos, negsuc,
  get_elem?, leb_ℤ, Option-cases,
}
use lancet_tool.Base.Each.{
  Each, Each-after, Each-ok, Each-fault, Each-bind, HasNoNull, is_ok, is_assertion,
  is_out_of_bounds, is_div_by_zero, HasNoNull-bind, HasNoNull-if,
}
use lancet_tool.Libc.{atoi}
use lancet_tool.Libc.Strings.{next_token}
use lancet_tool.AppProto.{Iovec}
use lancet_tool.RandGen.{Floating, RandGen, Draws, generate_draw}
use lancet_tool.RandGen.Init.{init_rand}
use lancet_tool.RandGen.Init.Drawing.{IsDrawable, init_rand-generate_draw}
use lancet_tool.KeyGen.Init.{init_key_gen}
use lancet_tool.KeyValue.{
  KvInfo, KvDraws, key_at, draw_kv, init_some, given, key_selector, kv_of, init_kv, max_val_size,
}

module _ (F : Floating) where
  pub generate_draw-HasNoNull :
      (draws : Draws F) (prev_rr : ℕ) (g : RandGen F)
      → IsDrawable F g
      → HasNoNull (generate_draw F draws prev_rr g)
  generate_draw-HasNoNull draws prev_rr g h = elim (h draws prev_rr) [
    | inl (d, e) ↦ subst HasNoNull (sym e) (is_ok d)
    | inr (e, z) ↦ subst HasNoNull (sym e) is_div_by_zero
  ]

  -- A generator behind an assertion can be drawn from.
  found :
      (mem : RandGen F) (t : List ℕ) (o : Option (RandGen F))
      → init_rand F mem t ≡ ok o
      → Each (IsDrawable F) (elim o [ none ↦ fault Fault.assertion | some g ↦ ok g ])
  found mem t none e = Each-fault (IsDrawable F) Fault.assertion
  found mem t (some g) e =
      Each-ok (IsDrawable F) g (λ draws prev. init_rand-generate_draw F mem t g draws prev e)

  pub init_some-IsDrawable :
      (mem : RandGen F) (t : Option (List ℕ)) → Each (IsDrawable F) (init_some F mem t)
  unfolding init_some
  init_some-IsDrawable mem none = Each-fault (IsDrawable F) Fault.null_pointer
  init_some-IsDrawable mem (some t) =
      Each-bind (λ o. init_rand F mem t ≡ ok o) (record { each = λ o e. e }) (found mem t)

  -- Both generators that a request draws from.
  pub record IsDrawableKv (info : KvInfo F) : Type 0 where
    pub key_sel : IsDrawable F info.key_sel
    pub val_len : IsDrawable F info.val_len

  kv_of-IsDrawableKv :
      (val_mem key_mem sel_mem : RandGen F)
      (key_dist val_dist count ratio selector : Option (List ℕ))
      → Each IsDrawableKv (kv_of F val_mem key_mem sel_mem key_dist val_dist count ratio selector)
  unfolding kv_of
  kv_of-IsDrawableKv val_mem key_mem sel_mem key_dist val_dist count ratio selector =
      Each-bind (IsDrawable F) (init_some-IsDrawable val_mem val_dist) (λ val_len v.
        Each-after (given F count) (λ count_text. Each-after (given F key_dist) (λ key_text.
          Each-after (init_key_gen F key_mem key_text (atoi count_text)) (λ key.
            Each-after (given F ratio) (λ ratio_text. Each-after (given F selector) (λ token.
              Each-after (key_selector F token (atoi count_text)) (λ key_sel_text.
                Each-bind (IsDrawable F) (init_some-IsDrawable sel_mem (some key_sel_text))
                  (λ key_sel s. Each-ok IsDrawableKv _ (record { key_sel = s; val_len = v })))))))))

  pub init_kv-IsDrawableKv :
      (val_mem key_mem sel_mem : RandGen F) (proto : List ℕ)
      → Each IsDrawableKv (init_kv F val_mem key_mem sel_mem proto)
  unfolding init_kv
  init_kv-IsDrawableKv val_mem key_mem sel_mem proto =
      let key_dist = next_token b'_' (next_token b'_' proto).1 in
      let val_dist = next_token b'_' key_dist.1 in
      let count = next_token b'_' val_dist.1 in
      let ratio = next_token b'_' count.1 in
      let selector = next_token b'_' ratio.1 in
      kv_of-IsDrawableKv val_mem key_mem sel_mem key_dist.0 val_dist.0 count.0 ratio.0 selector.0

  key_at-HasNoNull : (keys : List Iovec) (i : ℤ) → HasNoNull (key_at F keys i)
  unfolding key_at
  key_at-HasNoNull keys (negsuc n) = is_out_of_bounds
  key_at-HasNoNull keys (pos i) = elim (Option-cases (get_elem? keys i)) [
    | inl e ↦ rw (e, key_at) is_out_of_bounds
    | inr (key, e) ↦ rw (e, key_at) (is_ok key)
  ]

  pub draw_kv-HasNoNull :
      (info : KvInfo F) (draws : KvDraws F) (prev_rr : ℕ)
      → IsDrawableKv info
      → HasNoNull (draw_kv F info draws prev_rr)
  unfolding draw_kv
  draw_kv-HasNoNull info draws prev_rr h =
      HasNoNull-bind (generate_draw-HasNoNull draws.key_draw prev_rr info.key_sel h.key_sel)
        (λ key_idx. HasNoNull-bind (key_at-HasNoNull info.key.keys (F.to_int key_idx.0)) (λ key.
          HasNoNull-if (F.lt info.get_ratio draws.coin)
            (HasNoNull-bind
              (generate_draw-HasNoNull draws.val_draw key_idx.1 info.val_len h.val_len)
              (λ size.
                HasNoNull-if (leb_ℤ (F.lround size.0) (pos max_val_size)) (is_ok _) is_assertion))
            (is_ok _)))
