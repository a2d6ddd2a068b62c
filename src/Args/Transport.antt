-- ===== src/Args/Transport.antt =====
-- The transport that the command line names (agents/args.c:46-62, 168-176).
use lancet_tool.Base.{ℕ, ◌≡◌, refl, sym, ap, ◌∙◌, List, Option, some, none, Outcome, ok, >>=-Came}
use lancet_tool.RandGen.{Floating}
use lancet_tool.Args.{
  TransportProtocol, init_transport_protocol, AgentConfig, Environment, or_null, fresh_config,
  parse_options, parse_arguments,
}

module _ (F : Floating) (inet_pton : List ℕ → Option ℕ) where
  -- A configuration that is returned has the functions of its transport.
  pub parse_arguments-tp :
      (env : Environment F inet_pton) (sin_addr : ℕ) (options : List (ℕ × List ℕ))
      (cfg : AgentConfig F inet_pton)
      → parse_arguments F inet_pton env sin_addr options ≡ ok (some cfg)
      → (t : TransportProtocol) × (init_transport_protocol cfg.tp_type ≡ some t) × (cfg.tp ≡ some t)
  unfolding parse_arguments or_null
  parse_arguments-tp env sin_addr options cfg e =
      let parsed =
        >>=-Came (parse_options F inet_pton env options (fresh_config F inet_pton sin_addr)) _ e in
      from parsed.value parsed.rest
    where
      finish : Option (AgentConfig F inet_pton) → Outcome (Option (AgentConfig F inet_pton))
      finish none = ok none
      finish (some c) =
          or_null F inet_pton (init_transport_protocol c.tp_type) (λ t. record c { tp = some t })

      known :
          (c : AgentConfig F inet_pton) (o : Option TransportProtocol)
          → init_transport_protocol c.tp_type ≡ o
          → or_null F inet_pton o (λ t. record c { tp = some t }) ≡ ok (some cfg)
          → (t : TransportProtocol) × (init_transport_protocol cfg.tp_type ≡ some t)
            × (cfg.tp ≡ some t)
      known c none at h = cc
      known c (some t) at h =
          let same : record c { tp = some t } ≡ cfg = cc in
          (
            t,
            ap (λ k. init_transport_protocol k.tp_type) (sym same) ∙ at,
            ap (λ k. k.tp) (sym same),
          )

      from :
          (o : Option (AgentConfig F inet_pton))
          → finish o ≡ ok (some cfg)
          → (t : TransportProtocol) × (init_transport_protocol cfg.tp_type ≡ some t)
            × (cfg.tp ≡ some t)
      from none h = cc
      from (some c) h = known c (init_transport_protocol c.tp_type) refl h
