-- ===== src/Agent/Start.antt =====
-- The threads that `main` starts (agents/agent.c:194-230).
use lancet_tool.Base.{
  ℕ, zero, suc, ◌+◌, ◌-◌, ◌≡◌, refl, List, [], ◌∷◌, ◌++◌, true, Option, some, ℤ, pos, pos_part, ok,
  ltb, ◌==◌, if◌then◌else◌, arith,
}
use lancet_tool.Base.Each.{All}
use lancet_tool.RandGen.{Floating, RandGen}
use lancet_tool.Args.{
  TransportProtocol, init_transport_protocol, AgentConfig, Environment, parse_arguments,
}
use lancet_tool.Args.Transport.{parse_arguments-tp}
use lancet_tool.Agent.{
  TpMain, tp_main, configure_control_block, agent_main, MainCalls, spawn, run_threads, main,
}

-- How often the index is among these threads.
abbrev pub times_started : ℕ → List (ℕ × Option TpMain) → ℕ
times_started i [] = 0
times_started i (t ∷ ts) = (if t.0 == i then 1 else 0) + times_started i ts

-- The indices from `i` on.
abbrev from : (left i : ℕ) → List ℕ
from zero i = []
from (suc left) i = i ∷ from left (i + 1)

abbrev each_calls : TpMain → List ℕ → List (ℕ × Option TpMain)
each_calls f [] = []
each_calls f (i ∷ is) = (i, some f) ∷ each_calls f is

times_started-from :
    (f : TpMain) (left first i : ℕ) (rest : List (ℕ × Option TpMain))
    → times_started i (each_calls f (from left first) ++ rest)
      ≡ (if ltb i first then 0 else if ltb i (first + left) then 1 else 0) + times_started i rest
times_started-from f zero first i rest = ground arith
times_started-from f (suc left) first i rest =
    ground (arith, times_started-from f left (first + 1) i rest)

each_calls-All :
    (f : TpMain) (is : List ℕ) (rest : List (ℕ × Option TpMain))
    → All (λ t. t.1 ≡ some f) rest
    → All (λ t. t.1 ≡ some f) (each_calls f is ++ rest)
each_calls-All f [] rest h = h
each_calls-All f (i ∷ is) rest h = (refl, each_calls-All f is rest h)

module _ (F : Floating) (inet_pton : List ℕ → Option ℕ) where
  -- Every call of the system succeeds.
  pub record Succeeds (calls : MainCalls F inet_pton) : Type 0 where
    pub opened : calls.shm.opened ≡ true
    pub truncated : calls.shm.truncated ≡ pos 0
    pub mapped : calls.shm.mapped ≡ true
    pub allocated : calls.allocated ≡ true
    pub barrier : calls.barrier ≡ pos 0
    pub create : (i : ℕ) → calls.create i ≡ pos 0
    pub affinity : (i : ℕ) → calls.affinity i ≡ pos 0

  spawn-from :
      (create : ℕ → ℤ) (left i : ℕ)
      → ((j : ℕ) → create j ≡ pos 0)
      → spawn F inet_pton create left i ≡ some (from left i)
  unfolding spawn
  spawn-from create zero i h = refl
  spawn-from create (suc left) i h = rw (h i, spawn-from create left (i + 1) h) refl

  agent_main_lem :
      (affinity : ℕ → ℤ) (cfg : AgentConfig F inet_pton) (tp : TransportProtocol) (i : ℕ)
      → affinity i ≡ pos 0
      → cfg.tp ≡ some tp
      → agent_main F inet_pton affinity cfg i ≡ ok (some (tp_main tp cfg.atype))
  unfolding agent_main
  agent_main_lem affinity cfg tp i h e = rw (h, e) refl

  run_threads-each :
      (affinity : ℕ → ℤ) (cfg : AgentConfig F inet_pton) (tp : TransportProtocol) (is : List ℕ)
      → ((j : ℕ) → affinity j ≡ pos 0)
      → cfg.tp ≡ some tp
      → run_threads F inet_pton affinity cfg is ≡ ok (each_calls (tp_main tp cfg.atype) is)
  unfolding run_threads
  run_threads-each affinity cfg tp [] h e = refl
  run_threads-each affinity cfg tp (i ∷ is) h e =
      rw (agent_main_lem affinity cfg tp i (h i) e, run_threads-each affinity cfg tp is h e) refl

  -- When the command line is accepted and names an interarrival distribution and `n + 1` threads, and
  -- the calls of the system succeed: `main` starts one thread for every index below `n + 1`, each once,
  -- and no other, and every thread calls the function of the transport and the agent type that the
  -- command line names.
  pub main_lem :
      (env : Environment F inet_pton) (sin_addr : ℕ) (options : List (ℕ × List ℕ))
      (cfg : AgentConfig F inet_pton) (calls : MainCalls F inet_pton) (gen : RandGen F) (n : ℕ)
      → parse_arguments F inet_pton env sin_addr options ≡ ok (some cfg)
      → cfg.idist ≡ some gen
      → cfg.thread_count ≡ pos (suc n)
      → Succeeds calls
      → (tp : TransportProtocol) × (threads : List (ℕ × Option TpMain)) × (init_transport_protocol
            cfg.tp_type
          ≡ some tp)
        × (main F inet_pton calls (some cfg) ≡ ok (some threads))
        × ((i : ℕ) → times_started i threads ≡ (if ltb i (suc n) then 1 else 0))
        × All (λ t. t.1 ≡ some (tp_main tp cfg.atype)) threads
  unfolding main configure_control_block
  main_lem env sin_addr options cfg calls gen n parsed dist count s =
      let (tp, known, set) = parse_arguments-tp F inet_pton env sin_addr options cfg parsed in
      let f = tp_main tp cfg.atype in
      let others = each_calls f (from n 1) in
      let left : pos_part cfg.thread_count - 1 ≡ n = rw count (omega arith) in
      let started : spawn F inet_pton calls.create (pos_part cfg.thread_count - 1) 1
          ≡ some (from n 1) =
        rw left (spawn-from calls.create n 1 s.create) in
      (
        tp,
        others ++ (0, some f) ∷ [],
        known,
        rw
            (
              s.opened,
              s.truncated,
              s.mapped,
              dist,
              s.allocated,
              s.barrier,
              started,
              run_threads-each calls.affinity cfg tp (from n 1) s.affinity set,
              agent_main_lem calls.affinity cfg tp 0 (s.affinity 0) set,
            )
            refl,
        λ i. ground (arith, times_started-from f n 1 i ((0, some f) ∷ [])),
        each_calls-All f (from n 1) ((0, some f) ∷ []) (refl, tt),
      )
