-- ===== src/Agent/Tests.antt =====
-- The start of the agent (agents/agent.c) on a concrete command line.
use lancet_tool.Base.{
  ℕ, ◌≡◌, refl, List, [], ◌∷◌, Option, some, none, if◌then◌else◌, ltb, ok, true, pos,
}
use lancet_tool.Base.Each.{All}
use lancet_tool.Libc.{atoi}
use lancet_tool.Libc.Strings.{codes, same_text, is_prefix, next_token}
use lancet_tool.RandGen.{RandGen, GenType, SetAvg, InvCdf}
use lancet_tool.RandGen.Init.{init_rand}
use lancet_tool.RandGen.Sample.{whole_numbers, memory, read_number}
use lancet_tool.Protocols.{ApplicationProtocol, AppProtoType}
use lancet_tool.Args.{
  AgentConfig, Environment, fresh_config, parse_arguments, parse_options, init_transport_protocol,
  symmetric_agent, udp, init_udp, TransportProtocol,
}
use lancet_tool.Agent.{TpMain, tp_main, MainCalls, main}
use lancet_tool.Agent.Start.{times_started, main_lem}

abbrev no_host : List ℕ → Option ℕ
no_host s = none

abbrev blank : ApplicationProtocol whole_numbers
blank = record {
  type = AppProtoType.proto_echo;
  arg = none;
  create_request = none;
  consume_response = none;
}

abbrev env : Environment whole_numbers no_host
env = record {
  idist_mem = memory;
  mem = λ n. memory;
  proto_mem = blank;
  http_proto_init = λ s. none;
}

abbrev options : List (ℕ × List ℕ)
options =
    (b't', codes "3") ∷ (b'a', codes "3") ∷ (b'p', codes "UDP") ∷ (b'i', codes "fixed:10") ∷ []

abbrev gen : RandGen whole_numbers
gen = record memory {
  gen_type = GenType.gen_fixed;
  set_avg = some SetAvg.fixed_set_avg;
  inv_cdf = some InvCdf.fixed_inv_cdf;
  params = record { a = 10; b = 0; c = 0 };
}

abbrev cfg : AgentConfig whole_numbers no_host
cfg = record (fresh_config whole_numbers no_host 0) {
  thread_count = pos 3;
  atype = symmetric_agent;
  tp_type = udp;
  tp = some init_udp;
  idist = some gen;
}

abbrev calls : MainCalls whole_numbers no_host
calls = record {
  shm = record { opened = true; truncated = pos 0; mapped = true };
  allocated = true;
  barrier = pos 0;
  create = λ i. pos 0;
  affinity = λ i. pos 0;
}

parsed : parse_arguments whole_numbers no_host env 0 options ≡ ok (some cfg)
unfolding parse_arguments parse_options init_rand is_prefix read_number same_text atoi next_token
    init_transport_protocol
parsed = refl

main_lem_example :
    (tp : TransportProtocol) × (threads : List (ℕ × Option TpMain)) × (init_transport_protocol udp
      ≡ some tp)
    × (main whole_numbers no_host calls (some cfg) ≡ ok (some threads))
    × ((i : ℕ) → times_started i threads ≡ (if ltb i 3 then 1 else 0))
    × All (λ t. t.1 ≡ some (tp_main tp symmetric_agent)) threads
main_lem_example =
    main_lem whole_numbers no_host env 0 options cfg calls gen 2 parsed refl refl (record {
      opened = refl;
      truncated = refl;
      mapped = refl;
      allocated = refl;
      barrier = refl;
      create = λ i. refl;
      affinity = λ i. refl;
    })
