-- ===== src/KeyGen/Tests.antt =====
-- A hundred keys of three digits (agents/key_gen.c).
use lancet_tool.Base.{ℕ, ◌≡◌, ◌≢◌, ◌%◌, refl, [], ◌∷◌, ok, some, arith, get_elem?, take}
use lancet_tool.AppProto.{Iovec}
use lancet_tool.Libc.{decimal}
use lancet_tool.KeyGen.{generate_keys, uniform_get_key}
use lancet_tool.KeyGen.Keys.{IsKey, uniform_get_key_lem, generate_keys_distinct}

abbrev three : ℕ → ℕ
three n = 3

uniform_get_key_lem_example :
    (key : Iovec) × (uniform_get_key (generate_keys three 100) 100 742 ≡ ok key)
    × IsKey 3 (742 % 100) key
uniform_get_key_lem_example =
    uniform_get_key_lem three 100 742 (omega arith) (omega arith) (omega arith)

abbrev key : ℕ → Iovec
key digit = record { iov_base = b'0' ∷ b'0' ∷ digit ∷ 0 ∷ []; iov_len = 3 }

middle_key : get_elem? (generate_keys three 5) 2 ≡ some (key b'2')
unfolding generate_keys decimal
middle_key = refl

last_key : get_elem? (generate_keys three 5) 3 ≡ some (key b'3')
unfolding generate_keys decimal
last_key = refl

generate_keys_distinct_example : take 3 (key b'2').iov_base ≢ take 3 (key b'3').iov_base
generate_keys_distinct_example =
    generate_keys_distinct three 5 2 3 (key b'2') (key b'3') (omega arith) (omega arith)
      (omega arith) (omega arith) middle_key last_key (omega arith)
