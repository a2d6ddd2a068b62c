-- ===== src/Args/Targets.antt =====
-- The targets of the command line (agents/args.c:84-98) are read as they are written.
use lancet_tool.Base.{
  ℕ, zero, suc, ◌+◌, ◌%◌, ◌^◌, ◌≤◌, ◌<◌, ◌≡◌, refl, sym, ap, ◌∙◌, List, [], ◌∷◌, ◌++◌, Option, some,
  none, true, Outcome, ok, ◌>>=◌, length, length-append, append_assoc, append-nil, ltb, arith,
}
use lancet_tool.Libc.{decimal}
use lancet_tool.Libc.Decimal.{
  AllNe, AllNe-append, AllDigits-AllNe, decimal-AllDigits, decimal-cons, decimal-AllNe_above,
  atoi-decimal_alone,
}
use lancet_tool.Libc.Strings.{next_token, next_token-found, next_token-last, next_token-nil}
use lancet_tool.RandGen.{Floating}
use lancet_tool.KeyValue.{given}
use lancet_tool.Args.{
  HostTuple, TargetVars, add_target, parse_targets, AgentConfig, Environment, parse_option,
}

-- A target as the user writes it, and the address that its host stands for. A host is not empty.
pub record Target : Type 0 where
  pub first : ℕ
  pub host : List ℕ
  pub addr : ℕ
  pub port : ℕ

abbrev pub host_text : Target → List ℕ
host_text t = t.first ∷ t.host

abbrev pub target_text : Target → List ℕ
target_text t = t.first ∷ t.host ++ b':' ∷ decimal t.port

-- `ip:port,ip:port`
abbrev pub targets_text : List Target → List ℕ
targets_text [] = []
targets_text (t ∷ []) = target_text t
targets_text (t ∷ u ∷ ts) = target_text t ++ b',' ∷ targets_text (u ∷ ts)

abbrev pub as_tuple : Target → HostTuple
as_tuple t = record { ip = t.addr; port = t.port }

abbrev pub as_tuples : List Target → List HostTuple
as_tuples [] = []
as_tuples (t ∷ ts) = as_tuple t ∷ as_tuples ts

-- The address of the last target, which `sa` keeps.
abbrev pub last_addr : ℕ → List Target → ℕ
last_addr old [] = old
last_addr old (t ∷ ts) = last_addr t.addr ts

module _ (inet_pton : List ℕ → Option ℕ) where
  -- The host has no separator inside and is an address, and the port fits its 16 bits.
  pub record IsTarget (t : Target) : Type 0 where
    pub no_colon : AllNe b':' (host_text t)
    pub no_comma : AllNe b',' (host_text t)
    pub known : inet_pton (host_text t) ≡ some t.addr
    pub small : t.port < 2 ^ 16

  abbrev pub AllTargets : List Target → Type 0
  AllTargets [] = Unit {0}
  AllTargets (t ∷ ts) = IsTarget t × AllTargets ts

  module _ (F : Floating) where
    add_target_lem :
        (t : Target) (s : TargetVars)
        → IsTarget t
        → length s.targets + 1 < 64
        → add_target F inet_pton (target_text t) s
          ≡ ok (record { sin_addr = t.addr; targets = s.targets ++ as_tuple t ∷ [] })
    unfolding add_target given
    add_target_lem t s h room =
        let (d, ds, e) = decimal-cons t.port in
        let port : next_token b':' (decimal t.port) ≡ (some (decimal t.port), []) =
          ap (next_token b':') e
          ∙ next_token-last b':' d ds (rw e at (decimal-AllNe_above b':' t.port (omega arith)))
          ∙ ap (λ w. (some w, [])) (sym e) in
        let fits : ltb (length (s.targets ++ as_tuple t ∷ [])) 64 ≡ true =
          ground (arith, length-append s.targets (as_tuple t ∷ [])) in
        let kept : t.port % 2 ^ 16 ≡ t.port = omega (arith, h.small) in
        rw
          (
            next_token-found b':' t.first t.host (decimal t.port) h.no_colon,
            port,
            h.known,
            atoi-decimal_alone t.port,
            kept,
            fits,
            add_target,
          )
          refl

    target_text-AllNe : (t : Target) → IsTarget t → AllNe b',' (target_text t)
    target_text-AllNe t h = AllNe-append b',' (host_text t) (b':' ∷ decimal t.port) h.no_comma (
      omega arith,
      AllDigits-AllNe b',' (decimal t.port) (omega arith) (decimal-AllDigits t.port),
    )

    snoc_assoc :
        (ts : List HostTuple) (t : Target) (us : List Target)
        → (ts ++ as_tuple t ∷ []) ++ as_tuples us ≡ ts ++ as_tuples (t ∷ us)
    snoc_assoc ts t us = append_assoc ts (as_tuple t ∷ []) (as_tuples us)

    -- One round of the loop.
    parse_step :
        (fuel : ℕ) (text : List ℕ) {rest token1 : List ℕ} (s : TargetVars) {s' : TargetVars}
        → next_token b',' text ≡ (some token1, rest)
        → add_target F inet_pton token1 s ≡ ok s'
        → parse_targets F inet_pton (suc fuel) text s ≡ parse_targets F inet_pton fuel rest s'
    unfolding parse_targets
    parse_step fuel text {rest = rest} s e k =
        let round : Option (List ℕ) × List ℕ → Outcome TargetVars = λ next. elim next.0 [
          | none ↦ ok s
          | some t ↦ add_target F inet_pton t s >>= λ u. parse_targets F inet_pton fuel next.1 u
        ] in
        ap round e ∙ ap (λ o. o >>= λ u. parse_targets F inet_pton fuel rest u) k

    -- The loop from any target on.
    targets_lem :
        (fuel : ℕ) (ts : List Target) (s : TargetVars)
        → AllTargets ts
        → length s.targets + length ts < 64
        → length ts < fuel
        → parse_targets F inet_pton fuel (targets_text ts) s
          ≡ ok (record { sin_addr = last_addr s.sin_addr ts; targets = s.targets ++ as_tuples ts })
    unfolding parse_targets
    targets_lem zero ts s h room f = absurd (omega arith)
    targets_lem (suc fuel) [] s h room f =
        rw (next_token-nil b',', parse_targets)
          (ap (λ w. ok (record { sin_addr = s.sin_addr; targets = w }))
            (sym (append-nil s.targets)))
    targets_lem (suc fuel) (t ∷ []) s (h, hs) room f =
        let after : TargetVars = record {
          sin_addr = t.addr;
          targets = s.targets ++ as_tuple t ∷ [];
        } in
        parse_step fuel (targets_text (t ∷ [])) s
          (next_token-last b',' t.first (t.host ++ b':' ∷ decimal t.port) (target_text-AllNe t h))
          (add_target_lem t s h (omega arith))
        ∙ (targets_lem fuel [] after tt (omega (arith, length-append s.targets (as_tuple t ∷ [])))
              (omega arith)
            ∙ ap (λ w. ok (record { sin_addr = t.addr; targets = w })) (snoc_assoc s.targets t []))
    targets_lem (suc fuel) (t ∷ u ∷ ts) s (h, hs) room f =
        let after : TargetVars = record {
          sin_addr = t.addr;
          targets = s.targets ++ as_tuple t ∷ [];
        } in
        parse_step fuel (targets_text (t ∷ u ∷ ts)) s
          (next_token-found b',' t.first (t.host ++ b':' ∷ decimal t.port) (targets_text (u ∷ ts))
            (target_text-AllNe t h))
          (add_target_lem t s h (omega arith))
        ∙ (targets_lem fuel (u ∷ ts) after hs
              (omega (arith, length-append s.targets (as_tuple t ∷ []))) (omega arith)
            ∙ ap (λ w. ok (record { sin_addr = last_addr t.addr (u ∷ ts); targets = w }))
                (snoc_assoc s.targets t (u ∷ ts)))

    length-targets_text : (ts : List Target) → length ts ≤ length (targets_text ts)
    length-targets_text [] = omega arith
    length-targets_text (t ∷ []) = omega arith
    length-targets_text (t ∷ u ∷ ts) = omega (
      arith,
      length-targets_text (u ∷ ts),
      length-append (target_text t) (b',' ∷ targets_text (u ∷ ts)),
    )

    -- The option `-s` with fewer than 64 targets in all, each written as a host, a colon and a port
    -- below 2^16, with commas between them: when inet_pton reads every host, the case of the `switch`
    -- returns, and appends exactly these targets in their order, with the addresses that inet_pton
    -- gives.
    pub parse_option-targets :
        (env : Environment F inet_pton) (ts : List Target) (cfg : AgentConfig F inet_pton)
        → AllTargets ts
        → length cfg.target.targets + length ts < 64
        → parse_option F inet_pton env b's' (targets_text ts) cfg
          ≡ ok (
              some (record cfg {
                target = record {
                  sin_addr = last_addr cfg.target.sin_addr ts;
                  targets = cfg.target.targets ++ as_tuples ts;
                };
              }))
    unfolding parse_option
    parse_option-targets env ts cfg h room =
        rw
          (
            targets_lem (length (targets_text ts) + 1) ts cfg.target h room
                (omega (arith, length-targets_text ts)),
            parse_option,
          )
          refl
