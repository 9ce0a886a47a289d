-- ===== src/Controller/Network/Provider.antt =====
-- What the status of a network says about its provider.
use l2s_m.Base.{
  ℕ, ◌≡◌, refl, inl, inr, ◌⊎◌, Bool-cases, Bool, true, false, [], ◌++◌, Option, none, some, Text,
  codes, ◌==◌, arith,
}
use l2s_m.Base.Effects.{returned}
use l2s_m.Api.Provider.{ProviderSpec}
use l2s_m.Api.L2Network.{L2Network, online}
use l2s_m.Cluster.{ControllerError}
use l2s_m.Sdn.Session.{
  SessionClient, new_session_client, session_get, session_post, ok_status, no_content,
}
use l2s_m.Sdn.Create.{new_client, started}
use l2s_m.Sdn.Internal
use l2s_m.Monitoring.{payload}
use l2s_m.Controller.Network.{NetworkDeps, inter_domain_reconcile, provider_config}

-- The session that is opened with the provider.
abbrev pub session_of : {W : Type 0} → NetworkDeps W → ProviderSpec → SessionClient
session_of d provider =
    let config = provider_config provider in
    new_session_client d.http config.base_url config.username config.password

abbrev is_answer : ℕ → Option ℕ → Bool
is_answer code none = false
is_answer code (some c) = c == code

-- An answer is the code that is asked about, or not.
pub answer_cases :
    {W : Type 0} (code : ℕ) (x : Option ℕ × W)
    → ((a : Option ℕ) × (w : W) × (x ≡ (a, w)) × (is_answer code a ≡ false))
      ⊎ ((w : W) × (x ≡ (some code, w)))
answer_cases code (none, w) = inl (none, w, refl, refl)
answer_cases code (some c, w) = elim (Bool-cases (c == code)) [
  | inl e ↦ inr (w, ground arith)
  | inr e ↦ inl (some c, w, refl, e)
]

-- `known` says which networks the SDN controller of the provider has. The two hypotheses are what its
-- answers mean: 200 to a question for a network, and 204 to its creation.
module _ {W : Type 0} (d : NetworkDeps W) (network : L2Network) (provider : ProviderSpec)
    (known : Text → W → Bool)
    (answers_ok : (w w' : W)
      → session_get d.http (session_of d provider) (codes "/vnets/api/" ++ network.name) w
        ≡ (some ok_status, w')
      → known network.name w' ≡ true)
    (answers_no_content : (w w' : W)
      → session_post d.http
          (session_of d provider)
          (codes "/vnets/api")
          (d.http.marshal (payload network.name []))
          w
        ≡ (some no_content, w')
      → known network.name w' ≡ true) where
  -- For a provider whose SDN controller answers 200 to a question for the network, and 204 to
  -- its creation, only if it has the network after that: where interDomainReconcile returns the
  -- status online, the SDN controller has the network.
  pub inter_domain_reconcile_online :
      (w w' : W) (e : Option ControllerError)
      → network.spec.provider ≡ some provider
      → inter_domain_reconcile d network w ≡ (returned (online, e), w')
      → known network.name w' ≡ true
  unfolding inter_domain_reconcile new_client started Internal.internal_client
      Internal.check_network_exists Internal.create_network Internal.expect Internal.expect_exists
      Internal.begin_session_controller
  inter_domain_reconcile_online w w' e q h =
      elim (answer_cases ok_status
        (session_get d.http (session_of d provider) (codes "/vnets/api/status") w)) [
          | inl (a, w1, e1, n1) ↦ ground arith
          | inr (w1, e1) ↦
              elim (answer_cases ok_status (
                session_get d.http (session_of d provider) (codes "/vnets/api/" ++ network.name)
                  w1)) [
                    | inr (w2, e2) ↦ ground (arith, answers_ok w1 w2 e2)
                    | inl (a, w2, e2, n2) ↦
                        elim (answer_cases no_content (
                          session_post d.http (session_of d provider) (codes "/vnets/api")
                            (d.http.marshal (payload network.name [])) w2)) [
                              | inl (b, w3, e3, n3) ↦ ground arith
                              | inr (w3, e3) ↦ ground (arith, answers_no_content w2 w3 e3)
                            ]
                  ]
        ]
