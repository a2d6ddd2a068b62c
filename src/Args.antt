-- ===== src/Args.antt =====
-- agents/args.c and inc/lancet/agent.h: the command line of the agent, in the build without R2P2. The
-- options that getopt returns, each with its argument, and inet_pton are parameters.
pub mod Targets
pub mod Transport
mod Tests
use lancet_tool.Base.{
  ℕ, zero, suc, ◌+◌, ◌-◌, ◌%◌, ◌^◌, ◌==◌, ltb, List, [], ◌∷◌, ◌++◌, Option, some, none, Bool,
  if◌then◌else◌, Outcome, ok, fault, Fault, ◌>>=◌, ◌>>◌, check, ℤ, pos, negsuc, eqb_ℤ, length, take,
  replicate,
}
use lancet_tool.Libc.{atoi}
use lancet_tool.Libc.Strings.{codes, same_text, next_token}
use lancet_tool.RandGen.{Floating, RandGen}
use lancet_tool.RandGen.Init.{init_rand}
use lancet_tool.KeyValue.{given}
use lancet_tool.Protocols.{ApplicationProtocol}
use lancet_tool.Protocols.Init.{init_app_proto}

-- `struct host_tuple`
pub record HostTuple : Type 0 where
  pub ip : ℕ
  pub port : ℕ

-- `enum agent_type`
pub data AgentType : Type 0 where
  throughput_agent latency_agent symmetric_nic_timestamp_agent symmetric_agent : AgentType

-- `enum transport_protocol_type`
pub data TransportProtocolType : Type 0 where
  tcp r2p2 udp tls : TransportProtocolType

-- The transports that `init_transport_protocol` can return.
pub data TransportProtocol : Type 0 where
  init_tcp init_udp init_tls : TransportProtocol

-- `init_transport_protocol`
unfoldable pub init_transport_protocol : TransportProtocolType → Option TransportProtocol
init_transport_protocol tcp = some init_tcp
init_transport_protocol udp = some init_udp
init_transport_protocol tls = some init_tls
init_transport_protocol r2p2 = none

-- An `int` in a `uint16_t`.
abbrev pub as_u16 : ℤ → ℕ
as_u16 (pos n) = n % 2 ^ 16
as_u16 (negsuc n) = (2 ^ 16 - suc n % 2 ^ 16) % 2 ^ 16

-- What the loop over the targets keeps: `sa.sin_addr`, which a text that is no address leaves as it
-- was, and the targets up to `target_count`.
pub record TargetVars : Type 0 where
  pub sin_addr : ℕ
  pub targets : List HostTuple

-- `inet_pton(AF_INET, text, &sin_addr)`
abbrev store_addr : Option ℕ → ℕ → ℕ
store_addr none old = old
store_addr (some addr) old = addr

module _ (F : Floating) (inet_pton : List ℕ → Option ℕ) where
  -- The body of that loop.
  pub add_target : List ℕ → TargetVars → Outcome TargetVars
  add_target token1 s =
      let host = next_token b':' token1 in
      let port = next_token b':' host.1 in
      given F host.0 >>= λ host_text. given F port.0 >>= λ port_text.
      let sin_addr = store_addr (inet_pton host_text) s.sin_addr in
      let targets = s.targets ++ record { ip = sin_addr; port = as_u16 (atoi port_text) } ∷ [] in
      check (ltb (length targets) 64) >> ok (record { sin_addr = sin_addr; targets = targets })

  -- The loop from a call of strtok_r on `optarg` on.
  pub parse_targets : ℕ → List ℕ → TargetVars → Outcome TargetVars
  unfolding add_target
  parse_targets zero optarg s = fault Fault.out_of_fuel
  parse_targets (suc fuel) optarg s =
      let next = next_token b',' optarg in
      elim next.0 [
        | none ↦ ok s
        | some token1 ↦ add_target token1 s >>= λ s'. parse_targets fuel next.1 s'
      ]

  -- `struct agent_config`. The targets are those up to `target_count`.
  pub record AgentConfig : Type 0 where
    pub thread_count : ℤ
    pub conn_count : ℤ
    pub target : TargetVars
    pub atype : AgentType
    pub tp_type : TransportProtocolType
    pub tp : Option TransportProtocol
    pub idist : Option (RandGen F)
    pub app_proto : Option (ApplicationProtocol F)
    pub if_name : List ℕ
    pub per_conn_reqs : ℤ

  -- From calloc; `sa` is not initialised.
  abbrev pub fresh_config : ℕ → AgentConfig
  fresh_config sin_addr = record {
    thread_count = pos 0;
    conn_count = pos 0;
    target = record { sin_addr = sin_addr; targets = [] };
    atype = throughput_agent;
    tp_type = tcp;
    tp = none;
    idist = none;
    app_proto = none;
    if_name = replicate 64 0;
    per_conn_reqs = pos 0;
  }

  -- `-a`; `none` is an unknown type.
  agent_type_of : ℤ → Option AgentType
  agent_type_of n =
      if eqb_ℤ n (pos 0)
      then some throughput_agent
      else if eqb_ℤ n (pos 1)
      then some latency_agent
      else if eqb_ℤ n (pos 2)
      then some symmetric_nic_timestamp_agent
      else if eqb_ℤ n (pos 3)
      then some symmetric_agent
      else none

  -- `-p`; `none` is an unknown transport.
  tp_type_of : List ℕ → Option TransportProtocolType
  tp_type_of optarg =
      if same_text optarg (codes "TCP")
      then some tcp
      else if same_text optarg (codes "UDP")
      then some udp
      else if same_text optarg (codes "TLS")
      then some tls
      else none

  -- What `init_rand` and `init_app_proto` are called with: the fresh memory, and the HTTP protocol.
  pub record Environment : Type 0 where
    pub idist_mem : RandGen F
    pub mem : ℕ → RandGen F
    pub proto_mem : ApplicationProtocol F
    pub http_proto_init : List ℕ → Option (ApplicationProtocol F)

  -- A return of NULL, where a value is missing.
  or_null : {A : Type 0} → Option A → (A → AgentConfig) → Outcome (Option AgentConfig)
  or_null none store = ok none
  or_null (some a) store = ok (some (store a))

  -- The cases of the `switch` on one option.
  pub parse_option : Environment → ℕ → List ℕ → AgentConfig → Outcome (Option AgentConfig)
  unfolding or_null agent_type_of tp_type_of
  parse_option env c optarg cfg =
      if c == b't'
      then ok (some (record cfg { thread_count = atoi optarg }))
      else if c == b's'
      then (parse_targets (length optarg + 1) optarg cfg.target >>= λ t.
          ok (some (record cfg { target = t })))
      else if c == b'c'
      then ok (some (record cfg { conn_count = atoi optarg }))
      else if c == b'a'
      then or_null (agent_type_of (atoi optarg)) (λ t. record cfg { atype = t })
      else if c == b'p'
      then or_null (tp_type_of optarg) (λ t. record cfg { tp_type = t })
      else if c == b'i'
      then (init_rand F env.idist_mem optarg >>= λ g.
          or_null g (λ gen. record cfg { idist = some gen }))
      else if c == b'r'
      then (init_app_proto F env.http_proto_init env.mem env.proto_mem optarg >>= λ p.
          or_null p (λ proto. record cfg { app_proto = some proto }))
      else if c == b'n'
      then ok (some (record cfg { if_name = take 64 (optarg ++ replicate 64 0) }))
      else if c == b'o'
      then ok (some (record cfg { per_conn_reqs = atoi optarg }))
      else fault Fault.assertion

  -- The loop over the options.
  unfoldable pub parse_options :
      Environment → List (ℕ × List ℕ) → AgentConfig → Outcome (Option AgentConfig)
  unfolding parse_option
  parse_options env [] cfg = ok (some cfg)
  parse_options env (option ∷ options) cfg = parse_option env option.0 option.1 cfg >>= λ o.
      elim o [ none ↦ ok none | some cfg' ↦ parse_options env options cfg' ]

  -- `parse_arguments`
  unfoldable pub parse_arguments :
      Environment → ℕ → List (ℕ × List ℕ) → Outcome (Option AgentConfig)
  unfolding parse_options or_null
  parse_arguments env sin_addr options = parse_options env options (fresh_config sin_addr) >>= λ o.
      elim o [
        | none ↦ ok none
        | some cfg ↦ or_null (init_transport_protocol cfg.tp_type) (λ t. record cfg { tp = some t })
      ]
