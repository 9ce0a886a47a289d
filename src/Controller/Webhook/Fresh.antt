-- ===== src/Controller/Webhook/Fresh.antt =====
-- The addresses that the webhook gives to pods were not assigned.
use l2s_m.Base.{
  ℕ, ◌<◌, ◌≤◌, ◌≡◌, ◌≢◌, sym, ap, ◌∙◌, inl, inr, false, List, [], ◌∷◌, ◌++◌, some, Option-cases,
  Text, decimal, is_empty, if◌then◌else◌, arith,
}
use l2s_m.Base.Dict
use l2s_m.Base.Effects.{next}
use l2s_m.Cases.{result_cases}
use l2s_m.Net.{Ip, IpNet, in_v6}
use l2s_m.Net.Parse.{parse_cidr, print_dotted}
use l2s_m.Net.Printed.{parse_cidr-print_dotted, print_ip-in_v6}
use l2s_m.Annotation.{NetworkAnnotation}
use l2s_m.Api.L2Network.{L2Network}
use l2s_m.Controller.NextIp.{last_ip, get_next_available_ip}
use l2s_m.Controller.NextIp.Dotted.{get_next_available_ip_dotted}
use l2s_m.Controller.Webhook.{WebhookDeps, choose_addresses, assigned, assigned_key, set_last}

-- Where the webhook looks for an address.
abbrev pub range_of : L2Network → Text
range_of network =
    if is_empty network.spec.pod_address_range
    then network.spec.network_cidr
    else network.spec.pod_address_range

module _ {W : Type 0} (d : WebhookDeps W) where
  -- A printed address with a prefix length is recorded under the address.
  pub assigned_key-print_dotted :
      (a b c k ones : ℕ)
      → (a < 256) × (b < 256) × (c < 256) × (k < 256)
      → ones ≤ 32
      → assigned_key d (print_dotted (a ∷ b ∷ c ∷ k ∷ []) ++ b'/' ∷ decimal ones)
        ≡ print_dotted (a ∷ b ∷ c ∷ k ∷ [])
  unfolding assigned_key
  assigned_key-print_dotted a b c k ones bytes h =
      rw (assigned_key, parse_cidr-print_dotted a b c k bytes d.v6 ones h)
        (print_ip-in_v6 a b c k bytes d.v6)

  -- What is chosen behind an earlier IPv4 address.
  pub choose_addresses_next :
      (network network' : L2Network) (annotation : NetworkAnnotation) (ch : ℕ) (cs : Text)
      (n m : Ip) (net rnet : IpNet) (a b c e : ℕ) (w w' : W) (cidrs : List Text)
      → annotation.ip_addresses ≡ []
      → network.spec.network_cidr ≡ ch ∷ cs
      → parse_cidr d.v6 (ch ∷ cs) ≡ some (n, net)
      → parse_cidr d.v6 (range_of network) ≡ some (m, rnet)
      → (a < 256) × (b < 256) × (c < 256)
      → last_ip d.v6 network.status.last_assigned_ip ≡ some (in_v6 (a ∷ b ∷ c ∷ e ∷ []))
      → choose_addresses d network annotation w ≡ (next (cidrs, network'), w')
      → network'.status.last_assigned_ip ≢ []
      → (k : ℕ) × (k < 256)
        × (cidrs ≡ (print_dotted (a ∷ b ∷ c ∷ k ∷ []) ++ b'/' ∷ decimal net.ones) ∷ [])
        × (network' ≡ set_last (print_dotted (a ∷ b ∷ c ∷ k ∷ [])) network)
        × (Dict.contains (print_dotted (a ∷ b ∷ c ∷ k ∷ [])) (assigned network) ≡ false)
  unfolding choose_addresses
  choose_addresses_next network network' annotation ch cs n m net rnet a b c e w w' cidrs none_given
        q p range bytes last h ne =
      let found =
        get_next_available_ip d.v6 (assigned network) d.fuel (range_of network)
          network.status.last_assigned_ip in
      elim (Option-cases found) [
        | inl x ↦ ground arith
        | inr (r, x) ↦ elim (result_cases r) [
          | inl (er, y) ↦ ground arith
          | inr ((t, mk), y) ↦
              let (k, byte, printed, free) =
                get_next_available_ip_dotted d.v6 (assigned network) (range_of network) m rnet
                  d.fuel network.status.last_assigned_ip mk t a b c e bytes range last
                  (x ∙ ap (λ z. some z) y) in
              let given : cidrs ≡ (t ++ b'/' ∷ decimal net.ones) ∷ [] = ground arith in
              let stored : network' ≡ set_last t network = ground arith in
              (
                k,
                byte,
                given ∙ ap (λ (s : Text). (s ++ b'/' ∷ decimal net.ones) ∷ []) printed,
                stored ∙ ap (λ (s : Text). set_last s network) printed,
                rw (← printed) free,
              )
        ]
      ]

  -- For a pod that asks for no address, in a network with a CIDR of at most 32 bits, a range
  -- that parses and an earlier IPv4 address: if the webhook goes on, and the address that it
  -- notes as the last one is not empty, it gives one address; the key under which this address
  -- will be recorded is the text noted as the last one, and was not assigned.
  pub choose_addresses_fresh :
      (network network' : L2Network) (annotation : NetworkAnnotation) (ch : ℕ) (cs : Text)
      (n m : Ip) (net rnet : IpNet) (a b c e : ℕ) (w w' : W) (cidrs : List Text)
      → annotation.ip_addresses ≡ []
      → network.spec.network_cidr ≡ ch ∷ cs
      → parse_cidr d.v6 (ch ∷ cs) ≡ some (n, net)
      → net.ones ≤ 32
      → parse_cidr d.v6 (range_of network) ≡ some (m, rnet)
      → (a < 256) × (b < 256) × (c < 256)
      → last_ip d.v6 network.status.last_assigned_ip ≡ some (in_v6 (a ∷ b ∷ c ∷ e ∷ []))
      → choose_addresses d network annotation w ≡ (next (cidrs, network'), w')
      → network'.status.last_assigned_ip ≢ []
      → (cidr : Text) × (cidrs ≡ cidr ∷ [])
        × (network'.status.last_assigned_ip ≡ assigned_key d cidr)
        × (Dict.contains (assigned_key d cidr) (assigned network) ≡ false)
  choose_addresses_fresh network network' annotation ch cs n m net rnet a b c e w w' cidrs
        none_given q p small range bytes last h ne =
      let (k, byte, given, stored, free) =
        choose_addresses_next network network' annotation ch cs n m net rnet a b c e w w' cidrs
          none_given q p range bytes last h ne in
      let key =
        assigned_key-print_dotted a b c k net.ones (bytes.0, bytes.1, bytes.2, byte) small in
      (
        print_dotted (a ∷ b ∷ c ∷ k ∷ []) ++ b'/' ∷ decimal net.ones,
        given,
        ap (λ (x : L2Network). x.status.last_assigned_ip) stored ∙ sym key,
        rw key free,
      )
