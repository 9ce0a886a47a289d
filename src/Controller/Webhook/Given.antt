-- ===== src/Controller/Webhook/Given.antt =====
-- What the webhook writes about a pod's address into the network.
use l2s_m.Base.{
  ℕ, ◌<◌, ◌≤◌, ◌≡◌, ◌≢◌, ap, ◌∙◌, false, List, [], ◌∷◌, ◌++◌, map, some, Text, decimal,
  is_empty_of_ne, arith,
}
use l2s_m.Base.Dict
use l2s_m.Base.Dict.{Dict}
use l2s_m.Base.Effects.{next}
use l2s_m.Net.{Ip, IpNet, in_v6}
use l2s_m.Net.Parse.{parse_cidr, print_dotted}
use l2s_m.Net.Printed.{parse_ip-print_dotted, print_dotted-ne-nil}
use l2s_m.Annotation.{NetworkAnnotation}
use l2s_m.Api.Meta.{Pod, NetAttachDef}
use l2s_m.Api.L2Network.{L2Network}
use l2s_m.Trace.{Event}
use l2s_m.Controller.NextIp.{last_ip}
use l2s_m.Controller.Quarantine.Status.{increment, set_count, set_ips, assign_ip}
use l2s_m.Controller.Webhook.{
  WebhookDeps, choose_addresses, with_addresses, assigned, assigned_key, set_last,
}
use l2s_m.Controller.Webhook.Fresh.{range_of, choose_addresses_next, assigned_key-print_dotted}
use l2s_m.Controller.Webhook.Admitted.{traced, unaddressed, Round}

module _ {W : Type 0} (d : WebhookDeps W) where
  -- A network with a CIDR of at most 32 bits, a range that parses, and an IPv4 address assigned last.
  pub record Numbered (n : L2Network) : Type 0 where
    pub first : ℕ
    pub rest : Text
    pub ip : Ip
    pub net : IpNet
    pub range_ip : Ip
    pub range_net : IpNet
    pub a : ℕ
    pub b : ℕ
    pub c : ℕ
    pub e : ℕ
    pub has_cidr : n.spec.network_cidr ≡ first ∷ rest
    pub parses : parse_cidr d.v6 (first ∷ rest) ≡ some (ip, net)
    pub small : net.ones ≤ 32
    pub range_parses : parse_cidr d.v6 (range_of n) ≡ some (range_ip, range_net)
    pub bytes : (a < 256) × (b < 256) × (c < 256)
    pub last : last_ip d.v6 n.status.last_assigned_ip ≡ some (in_v6 (a ∷ b ∷ c ∷ e ∷ []))

  pub assigned-assign_ip :
      (t pod_name : Text) (n : L2Network)
      → assigned (set_ips (assign_ip t pod_name n.status.assigned_ips) n)
        ≡ Dict.insert t pod_name (assigned n)
  unfolding set_ips assign_ip
  assigned-assign_ip t pod_name n = ground arith

  -- The network that is written when `t` is given to a pod.
  abbrev pub given_to : Text → Text → L2Network → L2Network
  given_to t pod_name n =
      set_count increment (set_ips (assign_ip t pod_name n.status.assigned_ips) (set_last t n))

  with_addresses-last :
      (pod_name : Text) (m0 m : NetworkAnnotation) (cidrs : List Text) (n placed : L2Network)
      (w w' : W × List Event)
      → with_addresses (traced d) pod_name m0 cidrs n w ≡ (next (m, placed), w')
      → placed.status.last_assigned_ip ≡ n.status.last_assigned_ip
  unfolding with_addresses
  with_addresses-last pod_name m0 m [] n placed w w' h = ground arith
  with_addresses-last pod_name m0 m (a ∷ rest) n placed w w' h = ground arith

  with_addresses-one :
      (pod_name x : Text) (m0 m : NetworkAnnotation) (cidrs : List Text) (n placed : L2Network)
      (w w' : W × List Event)
      → cidrs ≡ x ∷ []
      → with_addresses (traced d) pod_name m0 cidrs n w ≡ (next (m, placed), w')
      → (m.ip_addresses ≡ x ∷ [])
        × (placed
            ≡ set_ips (assign_ip (assigned_key (traced d) x) pod_name n.status.assigned_ips) n)
  unfolding with_addresses
  with_addresses-one pod_name x m0 m cidrs n placed w w' g h = ground arith

  given_to-Numbered :
      (pod_name : Text) (n : L2Network) (a b c k : ℕ) (num : Numbered n)
      → (a < 256) × (b < 256) × (c < 256) × (k < 256)
      → Numbered (given_to (print_dotted (a ∷ b ∷ c ∷ k ∷ [])) pod_name n)
  unfolding set_count set_ips last_ip
  given_to-Numbered pod_name n a b c k num bytes = record {
    first = num.first;
    rest = num.rest;
    ip = num.ip;
    net = num.net;
    range_ip = num.range_ip;
    range_net = num.range_net;
    a = a;
    b = b;
    c = c;
    e = k;
    has_cidr = num.has_cidr;
    parses = num.parses;
    small = num.small;
    range_parses = num.range_parses;
    bytes = (bytes.0, bytes.1, bytes.2);
    last =
        rw (is_empty_of_ne (print_dotted (a ∷ b ∷ c ∷ k ∷ [])) (print_dotted-ne-nil a b c k bytes))
          (parse_ip-print_dotted a b c k bytes d.v6);
  }

  -- One address is given, and written, that was not assigned.
  pub record Given (pod_name : Text) (n n' : L2Network) (m : NetworkAnnotation) : Type 0 where
    pub t : Text
    pub keyed : map (assigned_key (traced d)) m.ip_addresses ≡ t ∷ []
    pub free : Dict.contains t (assigned n) ≡ false
    pub written : n' ≡ given_to t pod_name n
    pub numbered : Numbered (given_to t pod_name n)

  pub Round-Given :
      (pod : Pod) (annotation : NetworkAnnotation) (nad : NetAttachDef) (n n' : L2Network)
      (m : NetworkAnnotation)
      → annotation.ip_addresses ≡ []
      → n'.status.last_assigned_ip ≢ []
      → Numbered n
      → Round d pod annotation nad n n' m
      → Given pod.name n n' m
  unfolding set_count
  Round-Given pod annotation nad n n' m unasked found num r =
      let noted : n'.status.last_assigned_ip ≡ r.chosen_network.status.last_assigned_ip =
        ap (λ (x : L2Network). x.status.last_assigned_ip) r.counted
        ∙ with_addresses-last pod.name (unaddressed d nad) m r.cidrs r.chosen_network r.placed r.w1
            r.w2 r.addressed in
      let (k, byte, given, stored, free) =
        choose_addresses_next (traced d) n r.chosen_network annotation num.first num.rest num.ip
          num.range_ip num.net num.range_net num.a num.b num.c num.e r.w0 r.w1 r.cidrs unasked
          num.has_cidr num.parses num.range_parses num.bytes num.last r.chosen
          (λ q. found (noted ∙ q)) in
      let bytes : (num.a < 256) × (num.b < 256) × (num.c < 256) × (k < 256) =
        (num.bytes.0, num.bytes.1, num.bytes.2, byte) in
      let t = print_dotted (num.a ∷ num.b ∷ num.c ∷ k ∷ []) in
      let x = t ++ b'/' ∷ decimal num.net.ones in
      let key =
        assigned_key-print_dotted (traced d) num.a num.b num.c k num.net.ones bytes num.small in
      let (one, placed) =
        with_addresses-one pod.name x (unaddressed d nad) m r.cidrs r.chosen_network r.placed r.w1
          r.w2 given r.addressed in
      record {
        t = t;
        keyed = rw one (ap (λ (s : Text). s ∷ []) key);
        free = free;
        written =
            r.counted
            ∙ ap (set_count increment) (
                placed
                ∙ ap
                    (λ (s : Text).
                      set_ips (assign_ip s pod.name r.chosen_network.status.assigned_ips)
                        r.chosen_network)
                    key
                ∙ ap (λ (y : L2Network). set_ips (assign_ip t pod.name y.status.assigned_ips) y)
                    stored);
        numbered = given_to-Numbered pod.name n num.a num.b num.c k num bytes;
      }

  -- The network that is written for a pod with an address of its own.
  abbrev pub asked_for : Text → Text → L2Network → L2Network
  asked_for x pod_name n =
      set_count increment
        (set_ips (assign_ip (assigned_key (traced d) x) pod_name n.status.assigned_ips) n)

  chosen_asked :
      (n n' : L2Network) (annotation : NetworkAnnotation) (x : Text) (xs cidrs : List Text)
      (w w' : W × List Event)
      → annotation.ip_addresses ≡ x ∷ xs
      → choose_addresses (traced d) n annotation w ≡ (next (cidrs, n'), w')
      → (cidrs ≡ x ∷ xs) × (n' ≡ n)
  unfolding choose_addresses
  chosen_asked n n' annotation x xs cidrs w w' asked h = ground arith

  with_addresses-asked :
      (pod_name x : Text) (xs : List Text) (m0 m : NetworkAnnotation) (cidrs : List Text)
      (n placed : L2Network) (w w' : W × List Event)
      → cidrs ≡ x ∷ xs
      → with_addresses (traced d) pod_name m0 cidrs n w ≡ (next (m, placed), w')
      → placed ≡ set_ips (assign_ip (assigned_key (traced d) x) pod_name n.status.assigned_ips) n
  unfolding with_addresses
  with_addresses-asked pod_name x xs m0 m cidrs n placed w w' g h = ground arith

  pub Round-asked :
      (pod : Pod) (annotation : NetworkAnnotation) (nad : NetAttachDef) (n n' : L2Network)
      (m : NetworkAnnotation) (x : Text) (xs : List Text)
      → annotation.ip_addresses ≡ x ∷ xs
      → Round d pod annotation nad n n' m
      → n' ≡ asked_for x pod.name n
  unfolding set_count
  Round-asked pod annotation nad n n' m x xs asked r =
      let (cidrs, same) =
        chosen_asked n r.chosen_network annotation x xs r.cidrs r.w0 r.w1 asked r.chosen in
      r.counted
      ∙ ap (set_count increment) (
          with_addresses-asked pod.name x xs (unaddressed d nad) m r.cidrs r.chosen_network r.placed
            r.w1 r.w2 cidrs r.addressed
          ∙ ap
              (λ (y : L2Network).
                set_ips (assign_ip (assigned_key (traced d) x) pod.name y.status.assigned_ips) y)
              same)

  pub asked_for-Numbered :
      (x pod_name : Text) (n : L2Network) → Numbered n → Numbered (asked_for x pod_name n)
  unfolding set_count set_ips
  asked_for-Numbered x pod_name n num = record {
    first = num.first;
    rest = num.rest;
    ip = num.ip;
    net = num.net;
    range_ip = num.range_ip;
    range_net = num.range_net;
    a = num.a;
    b = num.b;
    c = num.c;
    e = num.e;
    has_cidr = num.has_cidr;
    parses = num.parses;
    small = num.small;
    range_parses = num.range_parses;
    bytes = num.bytes;
    last = num.last;
  }
