-- ===== src/KeyGen/Init.antt =====
-- `init_key_gen` (agents/key_gen.c:56-70): the keys, of the sizes that a generator gives.
use lancet_tool.Base.{
  ℕ, zero, suc, ◌/◌, ◌≡◌, refl, ap, List, [], ◌∷◌, Option, some, none, Outcome, ok, fault, Fault,
  ◌>>=◌, ℤ, pos, negsuc, pos_part, length,
}
use lancet_tool.Base.Each.{Each, Each-after, Each-ok, Each-fault, Each-bind}
use lancet_tool.AppProto.{Iovec}
use lancet_tool.RandGen.{Floating, RandGen, inv_cdf_of}
use lancet_tool.RandGen.Init.{init_rand}
use lancet_tool.KeyGen.{generate_key, keys_from}

-- The loop of `generate_keys` from `i` on, where a call of the inverse distribution function may
-- fail. A negative size is a failing calloc and a write through its NULL.
make_keys : (size_of : ℕ → Outcome ℤ) → (key_count left i : ℕ) → Outcome (List Iovec)
make_keys size_of key_count zero i = ok []
make_keys size_of key_count (suc left) i = size_of (i / key_count) >>= λ size. elim size [
  | negsuc n ↦ fault Fault.null_pointer
  | pos key_size ↦ make_keys size_of key_count left (suc i) >>= λ keys.
      ok (generate_key (λ q. key_size) key_count i ∷ keys)
]

module _ (F : Floating) where
  -- `struct key_gen`. `get_key` is always `uniform_get_key`.
  pub record KeyGenerator : Type 0 where
    pub key_size_gen : Option (RandGen F)
    pub key_count : ℤ
    pub keys : List Iovec

  -- `lround(gen->inv_cdf(gen, q))`
  size_at : Option (RandGen F) → ℕ → Outcome ℤ
  size_at none q = fault Fault.null_pointer
  size_at (some gen) q = inv_cdf_of F gen (F.of_int (pos q)) >>= λ x. ok (F.lround x)

  -- `init_key_gen`. The loop runs no round for a negative count.
  unfoldable pub init_key_gen : RandGen F → List ℕ → ℤ → Outcome (KeyGenerator)
  unfolding make_keys size_at init_rand inv_cdf_of generate_key
  init_key_gen mem type key_count = init_rand F mem type >>= λ size_gen.
      make_keys (size_at size_gen) (pos_part key_count) (pos_part key_count) 0 >>= λ keys.
      ok (record { key_size_gen = size_gen; key_count = key_count; keys = keys })

-- As many keys as are asked for.
make_keys-length :
    (size_of : ℕ → Outcome ℤ) (key_count left i : ℕ)
    → Each (λ keys. length keys ≡ left) (make_keys size_of key_count left i)
unfolding make_keys
make_keys-length size_of key_count zero i = Each-ok (λ keys. length keys ≡ 0) [] refl
make_keys-length size_of key_count (suc left) i =
    let next = make_keys-length size_of key_count left (suc i) in
    Each-after (size_of (i / key_count)) (λ size. sized size next)
  where
    sized :
        (size : ℤ)
        → Each (λ keys. length keys ≡ left) (make_keys size_of key_count left (suc i))
        → Each
            (λ keys. length keys ≡ suc left)
            (elim size [
              | negsuc n ↦ fault Fault.null_pointer
              | pos key_size ↦ make_keys size_of key_count left (suc i) >>= λ keys.
                  ok (generate_key (λ q. key_size) key_count i ∷ keys)
            ])
    sized (negsuc n) h = Each-fault (λ keys. length keys ≡ suc left) Fault.null_pointer
    sized (pos key_size) h =
        Each-bind (λ keys. length keys ≡ left) h
          (λ keys e. Each-ok (λ ks. length ks ≡ suc left) _ (ap suc e))

pub init_key_gen-length :
    (F : Floating) (mem : RandGen F) (type : List ℕ) (key_count : ℤ)
    → Each (λ kg. length kg.keys ≡ pos_part key_count) (init_key_gen F mem type key_count)
unfolding init_key_gen
init_key_gen-length F mem type key_count = Each-after (init_rand F mem type) (λ size_gen.
    Each-bind (λ keys. length keys ≡ pos_part key_count)
      (make_keys-length (size_at F size_gen) (pos_part key_count) (pos_part key_count) 0)
      (λ keys e. Each-ok (λ kg. length kg.keys ≡ pos_part key_count) _ e))

-- With sizes that can be had, these are the keys of the loop without failures.
make_keys_lem :
    (size_of : ℕ → Outcome ℤ) (inv_cdf : ℕ → ℕ) (key_count left i : ℕ)
    → ((q : ℕ) → size_of q ≡ ok (pos (inv_cdf q)))
    → make_keys size_of key_count left i ≡ ok (keys_from inv_cdf key_count left i)
unfolding make_keys keys_from generate_key
make_keys_lem size_of inv_cdf key_count zero i h = refl
make_keys_lem size_of inv_cdf key_count (suc left) i h =
    rw (h (i / key_count), make_keys_lem size_of inv_cdf key_count left (suc i) h) refl
