-- ===== src/Agent.antt =====
-- agents/agent.c: what the transports read of the configuration, the control block that is shared with the
-- agent manager, and the start of the threads. What the calls of the system return is an argument.
pub mod Start
mod Tests
use lancet_tool.Base.{
  ℕ, zero, suc, ◌+◌, ◌-◌, if◌then◌else◌, List, [], ◌∷◌, ◌++◌, Bool, true, false, not, Option, some,
  none, ℤ, pos, eqb_ℤ, pos_part, Outcome, ok, fault, Fault, ◌>>=◌, ◌>>◌, check,
}
use lancet_tool.AppProto.{ByteReqPair, Iovec, Request}
use lancet_tool.RandGen.{Floating, RandGen, Draws, generate_draw}
use lancet_tool.Protocols.Dispatch.{RequestDraws, create_request, consume_response}
use lancet_tool.Args.{
  AgentType, throughput_agent, latency_agent, symmetric_nic_timestamp_agent, symmetric_agent,
  TransportProtocol, init_tcp, init_udp, init_tls, AgentConfig,
}

-- The functions that `tp_main` holds (`init_tcp`, `init_udp`, `init_tls`).
pub data TpMain : Type 0 where
  throughput_tcp_main latency_tcp_main symmetric_nic_tcp_main symmetric_tcp_main : TpMain
  throughput_udp_main latency_udp_main symmetric_nic_udp_main symmetric_udp_main : TpMain
  throughput_ssl_main latency_ssl_main symmetric_nic_ssl_main symmetric_ssl_main : TpMain

-- `tp->tp_main[atype]`
pub tp_main : TransportProtocol → AgentType → TpMain
tp_main init_tcp throughput_agent = throughput_tcp_main
tp_main init_tcp latency_agent = latency_tcp_main
tp_main init_tcp symmetric_nic_timestamp_agent = symmetric_nic_tcp_main
tp_main init_tcp symmetric_agent = symmetric_tcp_main
tp_main init_udp throughput_agent = throughput_udp_main
tp_main init_udp latency_agent = latency_udp_main
tp_main init_udp symmetric_nic_timestamp_agent = symmetric_nic_udp_main
tp_main init_udp symmetric_agent = symmetric_udp_main
tp_main init_tls throughput_agent = throughput_ssl_main
tp_main init_tls latency_agent = latency_ssl_main
tp_main init_tls symmetric_nic_timestamp_agent = symmetric_nic_ssl_main
tp_main init_tls symmetric_agent = symmetric_ssl_main

-- What `shm_open`, `ftruncate` and `mmap` of the control block return.
pub record ShmCalls : Type 0 where
  pub opened : Bool
  pub truncated : ℤ
  pub mapped : Bool

module _ (F : Floating) (inet_pton : List ℕ → Option ℕ) where
  abbrev Config : Type 0
  Config = AgentConfig F inet_pton

  -- `struct agent_control_block`
  pub record ControlBlock : Type 0 where
    pub idist : RandGen F
    pub should_load : Bool
    pub should_measure : Bool
    pub thread_count : ℤ
    pub agent_type : AgentType
    pub per_thread_samples : ℕ
    pub sampling : F.D
    pub conn_open : Bool

  -- `configure_control_block`: its result, and the block with the configuration, whose `idist` is from
  -- then on the one in the block.
  pub configure_control_block : ShmCalls → Config → Outcome (ℤ × Option (ControlBlock × Config))
  configure_control_block shm cfg =
      if not shm.opened
      then ok (pos 1, none)
      else if not (eqb_ℤ shm.truncated (pos 0))
      then ok (shm.truncated, none)
      else if not shm.mapped
      then ok (pos 1, none)
      else elim cfg.idist [
        | none ↦ fault Fault.null_pointer
        | some gen ↦
            let acb : ControlBlock = record {
              idist = gen;
              should_load = false;
              should_measure = false;
              thread_count = cfg.thread_count;
              agent_type = cfg.atype;
              per_thread_samples = 0;
              sampling = F.of_int (pos 0);
              conn_open = false;
            } in
            ok (pos 0, some (acb, cfg))
      ]

  -- `get_ia`: the interarrival time in nanoseconds, of a distribution in microseconds.
  pub get_ia : Draws F → ℕ → ControlBlock → Outcome (ℤ × ℕ)
  get_ia draws prev_rr acb = generate_draw F draws prev_rr acb.idist >>= λ d.
      ok (F.lround (F.mul d.0 (F.of_int (pos 1000))), d.1)

  -- `set_conn_open`
  pub set_conn_open : Bool → ControlBlock → ControlBlock
  set_conn_open val acb = record acb { conn_open = val }

  -- `prepare_request`, on the thread's request.
  pub prepare_request :
      (http : Request → Outcome Request)
      → RequestDraws F
      → ℕ
      → Config
      → Request
      → Outcome (Request × ℕ)
  prepare_request http draws prev_rr cfg to_send = elim cfg.app_proto [
    | none ↦ fault Fault.null_pointer
    | some proto ↦ create_request F http proto draws prev_rr to_send
  ]

  -- `process_response`, with the protocol of the configuration.
  pub process_with_protocol :
      (http : Iovec → Outcome ByteReqPair)
      → (fuel processed : ℕ) → Config
      → List ℕ
      → ℕ
      → Outcome ByteReqPair
  process_with_protocol http fuel processed cfg buf size = elim cfg.app_proto [
    | none ↦ fault Fault.null_pointer
    | some proto ↦
        consume_response F http fuel processed proto (record { iov_base = buf; iov_len = size })
  ]

  -- `agent_main(arg)` of the thread with this index: the function that it calls. `affinity` is what
  -- `pthread_setaffinity_np` returns.
  pub agent_main : (affinity : ℕ → ℤ) → Config → ℕ → Outcome (Option TpMain)
  unfolding tp_main
  agent_main affinity cfg tid =
      if not (eqb_ℤ (affinity tid) (pos 0)) then ok none else elim cfg.tp [
        | none ↦ fault Fault.null_pointer
        | some tp ↦ ok (some (tp_main tp cfg.atype))
      ]

  -- What the calls of `main` return: `malloc` of the thread ids, `pthread_barrier_init` and, for each
  -- index, `pthread_create` and `pthread_setaffinity_np`.
  pub record MainCalls : Type 0 where
    pub shm : ShmCalls
    pub allocated : Bool
    pub barrier : ℤ
    pub create : ℕ → ℤ
    pub affinity : ℕ → ℤ

  -- The loop over `i`, with so many threads to go: the indices that were started, or `none` for
  -- `exit(-1)`.
  spawn : (create : ℕ → ℤ) → (left i : ℕ) → Option (List ℕ)
  spawn create zero i = some []
  spawn create (suc left) i =
      let later = spawn create left (i + 1) in
      if eqb_ℤ (create i) (pos 0)
      then elim later [ none ↦ none | some started ↦ some (i ∷ started) ]
      else none

  -- The functions that these threads call.
  run_threads : (affinity : ℕ → ℤ) → Config → List ℕ → Outcome (List (ℕ × Option TpMain))
  unfolding agent_main
  run_threads affinity cfg [] = ok []
  run_threads affinity cfg (tid ∷ tids) = agent_main affinity cfg tid >>= λ f.
      run_threads affinity cfg tids >>= λ rest. ok ((tid, f) ∷ rest)

  -- `main`, behind `parse_arguments` and `enable_nic_timestamping`, whose result it does not look at: the threads with the functions that they call, the first thread's
  -- last, or `none` for `exit(-1)`.
  pub main : MainCalls → Option Config → Outcome (Option (List (ℕ × Option TpMain)))
  unfolding configure_control_block spawn run_threads
  main calls none = ok none
  main calls (some cfg) = configure_control_block calls.shm cfg >>= λ r. elim r.1 [
    | none ↦ ok none
    | some block ↦
        if not calls.allocated
        then ok none
        else (check (eqb_ℤ calls.barrier (pos 0))
            >> elim (spawn calls.create (pos_part cfg.thread_count - 1) 1) [
              | none ↦ ok none
              | some started ↦ run_threads calls.affinity block.1 started >>= λ others.
                  agent_main calls.affinity block.1 0 >>= λ f. ok (some (others ++ (0, f) ∷ []))
            ])
  ]
