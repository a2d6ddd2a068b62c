-- ===== src/Args/Tests.antt =====
-- The command line of the agent (agents/args.c) on concrete options.
use lancet_tool.Base.{ℕ, ◌≡◌, refl, List, [], ◌∷◌, Option, some, none, if◌then◌else◌, ok, arith}
use lancet_tool.Libc.Strings.{codes, same_text}
use lancet_tool.RandGen.Sample.{whole_numbers, memory}
use lancet_tool.Protocols.{ApplicationProtocol, AppProtoType}
use lancet_tool.Args.{Environment, fresh_config, parse_option, parse_arguments, parse_options}
use lancet_tool.Args.Targets.{Target, targets_text, parse_option-targets}

-- Two hosts that stand for an address.
abbrev known_hosts : List ℕ → Option ℕ
unfolding same_text
known_hosts s =
    if same_text s (codes "10.0.0.1")
    then some 1
    else if same_text s (codes "10.0.0.2")
    then some 2
    else none

abbrev blank : ApplicationProtocol whole_numbers
blank = record {
  type = AppProtoType.proto_echo;
  arg = none;
  create_request = none;
  consume_response = none;
}

abbrev env : Environment whole_numbers known_hosts
env = record {
  idist_mem = memory;
  mem = λ n. memory;
  proto_mem = blank;
  http_proto_init = λ s. none;
}

abbrev two_targets : List Target
two_targets =
    record { first = b'1'; host = codes "0.0.0.1"; addr = 1; port = 80 }
    ∷ record { first = b'1'; host = codes "0.0.0.2"; addr = 2; port = 81 }
    ∷ []

parse_option-targets_example :
    parse_option whole_numbers known_hosts env b's'
      (targets_text two_targets)
      (fresh_config whole_numbers known_hosts 7)
    ≡ ok (
        some (record (fresh_config whole_numbers known_hosts 7) {
          target = record {
            sin_addr = 2;
            targets = record { ip = 1; port = 80 } ∷ record { ip = 2; port = 81 } ∷ [];
          };
        }))
unfolding known_hosts
parse_option-targets_example =
    parse_option-targets known_hosts whole_numbers env two_targets
      (fresh_config whole_numbers known_hosts 7)
      (
        record {
          no_colon = omega arith;
          no_comma = omega arith;
          known = refl;
          small = omega arith;
        },
        (
          record {
            no_colon = omega arith;
            no_comma = omega arith;
            known = refl;
            small = omega arith;
          },
          tt,
        ),
      )
      (omega arith)

-- R2P2 is no transport of this build.
unknown_transport_test :
    parse_arguments whole_numbers known_hosts env 0 ((b'p', codes "R2P2") ∷ []) ≡ ok none
unfolding parse_arguments parse_options same_text
unknown_transport_test = refl
