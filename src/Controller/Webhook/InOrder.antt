-- ===== src/Controller/Webhook/InOrder.antt =====
-- Which attachment definitions the webhook gives to a pod.
use l2s_m.Base.{ℕ, ◌≡◌, inl, inr, List, [], ◌∷◌, map, Text, length, arith}
use l2s_m.Base.Dict.{Dict}
use l2s_m.Base.Effects.{next}
use l2s_m.Cases.{flow_cases}
use l2s_m.Annotation.{NetworkAnnotation, generate_ipv6_address}
use l2s_m.Api.Meta.{Pod, NetAttachDef}
use l2s_m.Api.L2Network.{L2Network}
use l2s_m.Controller.Webhook.{
  WebhookDeps, with_addresses, attach_network, attach_networks, choose_addresses, find_network,
}

-- The names of the first `n` definitions.
abbrev pub first_names : ℕ → List NetAttachDef → List Text
first_names ℕ.zero nads = []
first_names (ℕ.suc n) [] = []
first_names (ℕ.suc n) (nad ∷ nads) = nad.name ∷ first_names n nads

module _ {W : Type 0} (d : WebhookDeps W) (pod : Pod) (label : Text) where
  with_addresses-name :
      (multus m : NetworkAnnotation) (cidrs : List Text) (network network' : L2Network) (w w' : W)
      → with_addresses d pod.name multus cidrs network w ≡ (next (m, network'), w')
      → m.name ≡ multus.name
  unfolding with_addresses generate_ipv6_address
  with_addresses-name multus m [] network network' w w' e = ground arith
  with_addresses-name multus m (a ∷ rest) network network' w w' e = ground arith

  attach_network-name :
      (n : NetworkAnnotation) (nad : NetAttachDef) (networks networks' : Dict L2Network)
      (m : NetworkAnnotation) (w w' : W)
      → attach_network d pod label n nad networks w ≡ (next (m, networks'), w')
      → m.name ≡ nad.name
  unfolding attach_network
  attach_network-name n nad networks networks' m w w' e =
      elim (flow_cases (choose_addresses d (find_network networks n.name) n w)) [
        | inl ((cidrs, network), w1, e1) ↦
            let multus : NetworkAnnotation = record {
              name = nad.name;
              namespace = d.switches_namespace;
              ip_addresses = [];
              if_name = [];
            } in
            elim (flow_cases (with_addresses d pod.name multus cidrs network w1)) [
              | inl ((m2, network2), w2, e2) ↦
                  ground (arith, with_addresses-name multus m2 cidrs network network2 w1 w2 e2)
              | inr (inl (r, w2, e2)) ↦ ground arith
              | inr (inr (w2, e2)) ↦ ground arith
            ]
        | inr (inl (r, w1, e1)) ↦ ground arith
        | inr (inr (w1, e1)) ↦ ground arith
      ]

  -- If the loop of the webhook over the networks of a pod goes through, it has made as many
  -- attachments as there are networks, and their names are those of the first attachment
  -- definitions of the list, in order.
  pub attach_networks_in_order :
      (ns : List NetworkAnnotation) (nads : List NetAttachDef) (networks : Dict L2Network)
      (ms : List NetworkAnnotation) (w w' : W)
      → attach_networks d pod label ns nads networks w ≡ (next ms, w')
      → (length ms ≡ length ns)
        × (map (λ (m : NetworkAnnotation). m.name) ms ≡ first_names (length ns) nads)
  unfolding attach_networks
  attach_networks_in_order [] nads networks ms w w' e = (ground arith, ground arith)
  attach_networks_in_order (n ∷ ns) [] networks ms w w' e = (ground arith, ground arith)
  attach_networks_in_order (n ∷ ns) (nad ∷ nads) networks ms w w' e =
      elim (flow_cases (attach_network d pod label n nad networks w)) [
        | inl ((m, networks1), w1, e1) ↦
            elim (flow_cases (attach_networks d pod label ns nads networks1 w1)) [
              | inl (ms1, w2, e2) ↦
                  let (counted, named) = attach_networks_in_order ns nads networks1 ms1 w1 w2 e2 in
                  let first = attach_network-name n nad networks networks1 m w w1 e1 in
                  (ground (arith, counted), ground (arith, first, named))
              | inr (inl (r, w2, e2)) ↦ (ground arith, ground arith)
              | inr (inr (w2, e2)) ↦ (ground arith, ground arith)
            ]
        | inr (inl (r, w1, e1)) ↦ (ground arith, ground arith)
        | inr (inr (w1, e1)) ↦ (ground arith, ground arith)
      ]
