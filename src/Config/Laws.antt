-- ===== src/Config/Laws.antt =====
-- What `Configure` accepts, and where the client factory connects.
use pulumi_eos.Base.{
  true, false, not, ◌&&◌, List, [], ◌∷◌, Option, some, ◌≡◌, ◌≢◌, ◌↔◌, ◌⊎◌, inl, inr, refl, arith, ℤ,
  Bool-cases,
}
use pulumi_eos.Text.{Str, codes, str_eq, contains}
use pulumi_eos.Text.Laws.{str_eq_iff}
use pulumi_eos.Errors.{Operand, Result, ok, err, wrap_err, ◌>>=◌}
use pulumi_eos.Errors.Laws.{Passes, both_iff, refuse_iff}
use pulumi_eos.Std.{Std}
use pulumi_eos.Eapi
use pulumi_eos.Config.{
  Config, valid_url, configure, transport, request_timeout, retry_base, retry_max, transport_eapi,
  transport_gnmi,
}
use pulumi_eos.Config.Endpoint.{Endpoint, split_eos_url, read_override, https}
use pulumi_eos.Config.Clients.{overridden, or_empty}

-- A result that is no error.
abbrev pub Succeeds {ℓ} : {A : Type ℓ} → Result A → Type ℓ
Succeeds {A = A} r = (v : A) × (r ≡ ok v)

wrapped_iff :
    {A : Type 0} {P : Type 0} (f : Str) (args : List Operand) (r : Result A) (k : Result (Unit {0}))
    → Passes k ↔ P
    → Passes (wrap_err f args r >>= λ _. k) ↔ (Succeeds r × P)
wrapped_iff f args (ok v) k h = (λ x. ((v, refl), h.0 x), λ x. h.1 x.1)
wrapped_iff f args (err e) k h = (λ x. cc, λ x. cc (x.0.1))

unit_iff : Passes (ok tt) ↔ Unit {0}
unit_iff = (λ _. tt, λ _. refl)

module _ (std : Std) where
  open std use {parse_url}

  abbrev pub IsUrl : Str → Type 0
  IsUrl u = (u ≡ []) ⊎ Succeeds (parse_url u)

  valid_url_iff : (u f : Str) → Passes (valid_url std u f) ↔ IsUrl u
  valid_url_iff u f = elim (Bool-cases (str_eq u [])) [
    | inl e ↦ rw e (λ _. inl ((str_eq_iff u []).0 e), λ _. refl)
    | inr e ↦
        let w = wrapped_iff f [] (parse_url u) (ok tt) unit_iff in
        rw e (
          λ h. inr (w.0 h).0,
          λ x. elim x [ inl p ↦ cc (e, (str_eq_iff u []).1 p) | inr s ↦ w.1 (s, tt) ],
        )
  ]

  endpoint_iff : (a b : Str) → ((str_eq a [] && str_eq b []) ≡ false) ↔ ((a ≢ []) ⊎ (b ≢ []))
  endpoint_iff a b = ground (arith, str_eq_iff a [], str_eq_iff b [])

  transport_iff :
      (t : Str)
      → ((not (str_eq t transport_eapi) && not (str_eq t transport_gnmi)) ≡ false)
        ↔ ((t ≡ transport_eapi) ⊎ (t ≡ transport_gnmi))
  transport_iff t = ground (arith, str_eq_iff t transport_eapi, str_eq_iff t transport_gnmi)

  -- The provider's configuration is accepted exactly when both URLs are empty or parse, one of them is
  -- set, the transport is eAPI or gNMI, and the three durations parse.
  pub configure_iff :
      (c : Config)
      → Passes (configure std c) ↔ (
          IsUrl c.eos_url
          × IsUrl c.cvp_url
          × ((c.eos_url ≢ []) ⊎ (c.cvp_url ≢ []))
          × ((transport std c ≡ transport_eapi) ⊎ (transport std c ≡ transport_gnmi))
          × Succeeds (request_timeout std c)
          × Succeeds (retry_base std c)
          × Succeeds (retry_max std c))
  unfolding configure
  configure_iff c =
      let n = both_iff _ _ (valid_url_iff c.eos_url (codes "eosUrl is not a valid URL: %w")) (
        both_iff _ _ (valid_url_iff c.cvp_url (codes "cvpUrl is not a valid URL: %w")) (
          both_iff _ _ (refuse_iff _ _ (endpoint_iff c.eos_url c.cvp_url)) (
            both_iff _ _ (refuse_iff _ _ (transport_iff (transport std c))) (
              wrapped_iff (codes "eosRequestTimeout: %w") [] (request_timeout std c) _ (
                wrapped_iff (codes "retryBaseDelay: %w") [] (retry_base std c) _ (
                  wrapped_iff (codes "retryMaxDelay: %w") [] (retry_max std c) (ok tt)
                    unit_iff)))))) in
      (
        λ h. let (a, (b, (c, (d, (e, (f, (g, _))))))) = n.0 h in (a, b, c, d, e, f, g),
        λ (a, b, c, d, e, f, g). n.1 (a, (b, (c, (d, (e, (f, (g, tt))))))),
      )

  -- What a connection takes from the endpoint, the configuration and the resource.
  abbrev pub IsConnection :
      Config → Option Str → Option Str → Endpoint → Eapi.Config → Result ℤ → Type 0
  IsConnection c user pass ep cfg t =
      (cfg.host ≡ ep.host)
      × (cfg.port ≡ ep.port)
      × (cfg.use_https ≡ str_eq ep.scheme https)
      × (t ≡ ok cfg.timeout)
      × (cfg.username ≡ overridden c.eos_username user)
      × (cfg.password ≡ overridden (or_empty c.eos_password) pass)

  abbrev pub Connects : Config → Option Str → Option Str → Result Endpoint → Eapi.Config → Type 0
  Connects c user pass r cfg =
      (cfg.host ≢ [])
      × ((ep : Endpoint) × ((r ≡ ok ep) × IsConnection c user pass ep cfg (request_timeout std c)))

  -- An override that is a full URL decides alone: the provider's URL does not matter.
  pub full_override :
      (p q ov : Str)
      → ov ≢ []
      → contains ov (codes "://") ≡ true
      → split_eos_url std p (some ov) ≡ split_eos_url std q (some ov)
  unfolding split_eos_url read_override str_eq
  full_override p q [] ne h = absurd (ne refl)
  full_override p q (c ∷ ov) ne h = ground arith
