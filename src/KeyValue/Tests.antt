-- ===== src/KeyValue/Tests.antt =====
-- The initialisation of the key-value protocols on a concrete selector.
use lancet_tool.Base.{ℕ, ◌≡◌, refl, [], ◌∷◌, ◌++◌, some, none, ok, pos, arith}
use lancet_tool.Libc.{decimal, atoi}
use lancet_tool.Libc.Strings.{codes, is_prefix, next_token}
use lancet_tool.AppProto.{Iovec}
use lancet_tool.RandGen.{
  RandGen, GenType, Drawn, generate_draw, inv_cdf_of, SetAvg, Generate, InvCdf,
}
use lancet_tool.RandGen.Init.{init_rand}
use lancet_tool.RandGen.Sample.{whole_numbers, memory, three_draws, read_number}
use lancet_tool.KeyGen.{padded}
use lancet_tool.KeyGen.Init.{init_key_gen}
use lancet_tool.KeyValue.{KvInfo, init_kv, key_at}
use lancet_tool.KeyValue.Selection.{KvFields, kv_text, uni, init_kv-key_at}

-- redis_fixed:3_fixed:9_2_5_uni
abbrev two_keys : KvFields
two_keys = record {
  type = record { first = b'r'; rest = codes "edis" };
  key_dist = record { first = b'f'; rest = codes "ixed:3" };
  val_dist = record { first = b'f'; rest = codes "ixed:9" };
  ratio = record { first = b'5'; rest = [] };
}

abbrev fixed_gen : ℕ → RandGen whole_numbers
fixed_gen n = record {
  gen_type = GenType.gen_fixed;
  set_avg = some SetAvg.fixed_set_avg;
  inv_cdf = some InvCdf.fixed_inv_cdf;
  generate = none;
  params = record { a = n; b = 0; c = 0 };
}

abbrev two_keys_info : KvInfo whole_numbers
two_keys_info = record {
  key = record {
    key_size_gen = some (fixed_gen 3);
    key_count = pos 2;
    keys =
        record { iov_base = codes "000" ++ 0 ∷ []; iov_len = 3 }
        ∷ record { iov_base = codes "001" ++ 0 ∷ []; iov_len = 3 }
        ∷ [];
  };
  val_len = fixed_gen 9;
  key_sel = record {
    gen_type = GenType.gen_other;
    set_avg = none;
    inv_cdf = none;
    generate = some Generate.uni_generate;
    params = record { a = 2; b = 0; c = 0 };
  };
  get_ratio = 5;
}

two_keys_test :
    init_kv whole_numbers memory memory memory (kv_text two_keys 2 uni) ≡ ok two_keys_info
unfolding init_kv next_token init_rand is_prefix read_number init_key_gen padded decimal atoi
    inv_cdf_of
two_keys_test = refl

init_kv-key_at_example :
    (d : Drawn whole_numbers) × (key : Iovec) × (generate_draw whole_numbers three_draws 0
        two_keys_info.key_sel
      ≡ ok d)
    × (key_at whole_numbers two_keys_info.key.keys (whole_numbers.to_int d.0) ≡ ok key)
unfolding read_number decimal
init_kv-key_at_example =
    init_kv-key_at whole_numbers memory memory memory two_keys 2 uni two_keys_info three_draws 0
      (record {
        type = omega arith;
        key_dist = omega arith;
        val_dist = omega arith;
        ratio = omega arith;
      })
      (omega arith) (record { reads = refl; exact = λ k h. refl }) two_keys_test
