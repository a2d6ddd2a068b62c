-- ===== src/Protocols/Tests.antt =====
-- The application protocols on concrete selectors.
use lancet_tool.Base.{◌≡◌, refl, [], ◌∷◌, some, none, ok, fault, Fault}
use lancet_tool.Base.Each.{HasNoNull}
use lancet_tool.Libc.Strings.{codes, is_prefix}
use lancet_tool.AppProto.{Request}
use lancet_tool.RandGen.{RandGen, GenType, SetAvg, InvCdf}
use lancet_tool.RandGen.Init.{init_rand}
use lancet_tool.RandGen.Sample.{whole_numbers, memory, three_draws, read_number}
use lancet_tool.KeyValue.{init_some}
use lancet_tool.Protocols.{ApplicationProtocol, AppProtoType, Arg, CreateRequest, ConsumeResponse}
use lancet_tool.Protocols.Dispatch.{RequestDraws, create_request, consume_response}
use lancet_tool.Protocols.Init.{init_app_proto, init_redis_ycsbe}
use lancet_tool.Protocols.Init.Usable.{create_request-HasNoNull}

abbrev blank : ApplicationProtocol whole_numbers
blank = record {
  type = AppProtoType.proto_echo;
  arg = none;
  create_request = none;
  consume_response = none;
}

abbrev fixed_gen : RandGen whole_numbers
fixed_gen = record {
  gen_type = GenType.gen_fixed;
  set_avg = some SetAvg.fixed_set_avg;
  inv_cdf = some InvCdf.fixed_inv_cdf;
  generate = none;
  params = record { a = 10; b = 0; c = 0 };
}

abbrev synthetic : ApplicationProtocol whole_numbers
synthetic = record {
  type = AppProtoType.proto_synthetic;
  arg = some (Arg.generator fixed_gen);
  create_request = some CreateRequest.synthetic_create_request;
  consume_response = some ConsumeResponse.synthetic_consume_response;
}

abbrev draws : RequestDraws whole_numbers
draws = record {
  first = three_draws;
  second = three_draws;
  third = three_draws;
  for_kv = record { key_draw = three_draws; coin = 1; val_draw = three_draws };
  for_ycsbe = record { key_rand = 5; coin = 1; scan_rand = 3 };
}

abbrev unused : Request
unused = record { meta = 0; iov_cnt = 0; iovs = [] }

synthetic_test :
    init_app_proto whole_numbers (λ s. none) (λ n. memory) blank (codes "synthetic:fixed:10")
    ≡ ok (some synthetic)
unfolding init_app_proto init_some init_rand is_prefix read_number
synthetic_test = refl

create_request-HasNoNull_example :
    HasNoNull (create_request whole_numbers (λ r. ok r) synthetic draws 0 unused)
unfolding is_prefix
create_request-HasNoNull_example =
    create_request-HasNoNull whole_numbers (λ s. none) (λ r. ok r) (λ n. memory) blank
      (codes "synthetic:fixed:10") synthetic draws 0 unused refl synthetic_test

-- A YCSB-E protocol has no parser.
ycsbe_test :
    consume_response whole_numbers
      (λ v. fault Fault.assertion)
      5
      0
      (init_redis_ycsbe whole_numbers (codes "redis-ycsbe"))
      (record { iov_base = b'1' ∷ []; iov_len = 1 })
    ≡ fault Fault.null_pointer
unfolding consume_response init_redis_ycsbe
ycsbe_test = refl
