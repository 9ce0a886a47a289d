-- ===== src/Controller/Webhook/Distinct.antt =====
-- Pods that are admitted one after the other to a network get different addresses.
use l2s_m.Base.{
  ◌≡◌, ◌≢◌, sym, true, false, List, [], ◌∷◌, ◌++◌, map, Text, text_eq_refl, All, arith,
}
use mathlib.Core.Path.{subst}
use l2s_m.Base.Dict
use l2s_m.Base.Dict.{Dict}
use l2s_m.Base.Effects.{next}
use l2s_m.Annotation.{NetworkAnnotation}
use l2s_m.Api.Meta.{Pod, NetAttachDef}
use l2s_m.Api.L2Network.{L2Network}
use l2s_m.Trace.{net_attach_def_updated, network_status_updated}
use l2s_m.Controller.Quarantine.Status.{set_count}
use l2s_m.Controller.Webhook.{
  WebhookDeps, attach_network, find_network, assigned, assigned_key, set_last,
}
use l2s_m.Controller.Webhook.Given.{
  Numbered, Given, Round-Given, assigned-assign_ip, asked_for, Round-asked, asked_for-Numbered,
}
use l2s_m.Controller.Webhook.Admitted.{traced, attach_network-Round}

abbrev pub Distinct : List Text → Type 0
Distinct [] = Unit
Distinct (k ∷ ks) = All (λ j. k ≢ j) ks × Distinct ks

module _ {W : Type 0} (d : WebhookDeps W) where
  -- Pods are admitted to a network one after the other: for each, the webhook reads the network as it was
  -- written before, and writes it again. A pod that asks for no address is given one that was found. The
  -- keys are those under which the given addresses stand in the network, the last one first.
  pub data Admissions (start : L2Network) : List Text → L2Network → Type 0 where
    none_yet : Admissions start [] start
    admitted :
        {keys : List Text} {n : L2Network}
        → Admissions start keys n
        → (pod : Pod) (label : Text) (annotation : NetworkAnnotation) (nad taken : NetAttachDef)
          (networks networks' : Dict L2Network) (n' : L2Network) (m : NetworkAnnotation) (w w' : W)
        → annotation.ip_addresses ≡ []
        → find_network networks annotation.name ≡ n
        → attach_network (traced d) pod label annotation nad networks (w, []) ≡ (
          next (m, networks'),
          (w', net_attach_def_updated taken ∷ network_status_updated n' ∷ []),
        )
        → n'.status.last_assigned_ip ≢ []
        → Admissions start (map (assigned_key (traced d)) m.ip_addresses ++ keys) n'
    -- A pod that asks for addresses of its own.
    asked :
        {keys : List Text} {n : L2Network}
        → Admissions start keys n
        → (pod : Pod) (label : Text) (annotation : NetworkAnnotation) (nad taken : NetAttachDef)
          (networks networks' : Dict L2Network) (n' : L2Network) (m : NetworkAnnotation) (w w' : W)
          (x : Text) (xs : List Text)
        → annotation.ip_addresses ≡ x ∷ xs
        → find_network networks annotation.name ≡ n
        → attach_network (traced d) pod label annotation nad networks (w, []) ≡ (
          next (m, networks'),
          (w', net_attach_def_updated taken ∷ network_status_updated n' ∷ []),
        )
        → Admissions start keys n'

  record Inv (keys : List Text) (n : L2Network) : Type 0 where
    numbered : Numbered d n
    kept : All (λ k. Dict.contains k (assigned n) ≡ true) keys
    distinct : Distinct keys

  apart :
      (t : Text) (ips : Dict Text) (keys : List Text)
      → Dict.contains t ips ≡ false
      → All (λ k. Dict.contains k ips ≡ true) keys
      → All (λ j. t ≢ j) keys
  apart t ips [] h hs = tt
  apart t ips (k ∷ keys) h hs =
      (λ e. let clash : Dict.contains t ips ≡ true = rw e hs.0 in cc, apart t ips keys h hs.1)

  contained :
      (t pod_name : Text) (ips : Dict Text) → Dict.contains t (Dict.insert t pod_name ips) ≡ true
  contained t pod_name ips = ground (arith, Dict.contains-insert t t pod_name ips, text_eq_refl t)

  -- What is assigned stays assigned.
  grown :
      (t pod_name : Text) (ips : Dict Text) (keys : List Text)
      → All (λ k. Dict.contains k ips ≡ true) keys
      → All (λ k. Dict.contains k (Dict.insert t pod_name ips) ≡ true) keys
  grown t pod_name ips [] hs = tt
  grown t pod_name ips (k ∷ keys) hs =
      (ground (arith, Dict.contains-insert t k pod_name ips), grown t pod_name ips keys hs.1)

  Given-Inv :
      (pod_name : Text) (keys : List Text) (n n' : L2Network) (m : NetworkAnnotation)
      → Given d pod_name n n' m
      → Inv keys n
      → Inv (map (assigned_key (traced d)) m.ip_addresses ++ keys) n'
  unfolding set_count
  Given-Inv pod_name keys n n' m g inv =
      let grew = assigned-assign_ip d g.t pod_name (set_last g.t n) in
      rw (g.keyed, g.written)
        (record {
          numbered = g.numbered;
          kept =
              subst (λ (ips : Dict Text). All (λ k. Dict.contains k ips ≡ true) (g.t ∷ keys))
                (sym grew)
                (
                  contained g.t pod_name (assigned n),
                  grown g.t pod_name (assigned n) keys inv.kept,
                );
          distinct = (apart g.t (assigned n) keys g.free inv.kept, inv.distinct);
        })

  asked-Inv :
      (pod_name x : Text) (keys : List Text) (n n' : L2Network)
      → n' ≡ asked_for d x pod_name n
      → Inv keys n
      → Inv keys n'
  unfolding set_count
  asked-Inv pod_name x keys n n' written inv =
      let key = assigned_key (traced d) x in
      rw written (record {
        numbered = asked_for-Numbered d x pod_name n inv.numbered;
        kept =
            subst (λ (ips : Dict Text). All (λ k. Dict.contains k ips ≡ true) keys)
              (sym (assigned-assign_ip d key pod_name n))
              (grown key pod_name (assigned n) keys inv.kept);
        distinct = inv.distinct;
      })

  Admissions-Inv :
      {start n : L2Network} {keys : List Text}
      → Numbered d start
      → Admissions start keys n
      → Inv keys n
  Admissions-Inv num none_yet = record { numbered = num; kept = tt; distinct = tt }
  Admissions-Inv {start} num
        (admitted {keys} {n} before pod label annotation nad taken networks networks' n' m w w'
          unasked read round found) =
      let inv = Admissions-Inv num before in
      let r =
        attach_network-Round d pod label annotation nad taken networks networks' n' m w w' round in
      let g = Round-Given d pod annotation nad n n' m unasked found inv.numbered (rw (← read) r) in
      Given-Inv pod.name keys n n' m g inv
  Admissions-Inv {start} num
        (asked {keys} {n} before pod label annotation nad taken networks networks' n' m w w' x xs
          own read round) =
      let inv = Admissions-Inv num before in
      let r =
        attach_network-Round d pod label annotation nad taken networks networks' n' m w w' round in
      asked-Inv pod.name x keys n n'
        (Round-asked d pod annotation nad n n' m x xs own (rw (← read) r)) inv

  -- Pods are admitted one after the other to a network with a CIDR of at most 32 bits, a range
  -- that parses and an earlier IPv4 address, each with the network as it was written before: if
  -- an address was found for each pod that asks for none, the addresses that the webhook gives
  -- to these pods stand in the network under different keys.
  pub Admissions-Distinct :
      (start n : L2Network) (keys : List Text)
      → Numbered d start
      → Admissions start keys n
      → Distinct keys
  Admissions-Distinct start n keys num steps = (Admissions-Inv num steps).distinct
