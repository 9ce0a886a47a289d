-- ===== src/Lpm/Neighbours.antt =====
-- The addresses that the nodes of a monitored overlay probe.
use l2s_m.Base.{
  ℕ, zero, suc, ◌+◌, ◌-◌, ◌*◌, ◌%◌, ◌^◌, ◌≤◌, ◌<◌, ◌≡◌, ◌≢◌, refl, sym, ap, ◌∙◌, false, List, [],
  ◌∷◌, ◌++◌, some, Text, text_eq, text_eq_refl, length, get_elem?, ok, All, arith,
}
use mathlib.Core.Option.{some-injective}
use l2s_m.Base.Dict
use l2s_m.Base.Dict.{Dict, lookup-insert}
use l2s_m.Base.Int.{ℤ, pos, pos_part}
use l2s_m.Net.{Ip, IpNet, Ipv6, to4}
use l2s_m.Net.Parse.{parse_cidr}
use l2s_m.Datapath.{Datapath}
use l2s_m.Utils.Ip.{allocate_ipv4s}
use l2s_m.Utils.Ip.Allocate.{allocate_ipv4s_usable, allocate_ipv4s_distinct}
use l2s_m.Lpm.Collector.{
  MetricConfiguration, LpmLibrary, CollectorBuildOptions, node_ips, node_ip, metric,
  neighbour_metrics, node_config,
}

neighbour_metrics-append :
    (opts : CollectorBuildOptions) (ips : Dict Text) (node : Text) (xs ys : List Text)
    → neighbour_metrics opts ips node (xs ++ ys)
      ≡ neighbour_metrics opts ips node xs ++ neighbour_metrics opts ips node ys
unfolding neighbour_metrics
neighbour_metrics-append opts ips node [] ys = refl
neighbour_metrics-append opts ips node (x ∷ xs) ys =
    ground (arith, neighbour_metrics-append opts ips node xs ys)

neighbour_metrics-cons :
    (opts : CollectorBuildOptions) (ips : Dict Text) (node other : Text) (after : List Text)
    → text_eq other node ≡ false
    → neighbour_metrics opts ips node (other ∷ after)
      ≡ metric opts other (node_ip ips other) ∷ neighbour_metrics opts ips node after
unfolding neighbour_metrics
neighbour_metrics-cons opts ips node other after h = ground arith

-- In the configuration of a node for its measurements, every other node of the overlay stands at
-- its place, under its name and with the address that it is configured with itself, the mask
-- left out.
pub node_config_neighbour :
    {F : Type 0} (lib : LpmLibrary F) (dp : Datapath) (opts : CollectorBuildOptions) (sf : F)
    (ips : Dict Text) (mask node other : Text) (before after : List Text)
    → text_eq other node ≡ false
    → let nodes = before ++ other ∷ after in
      (m : MetricConfiguration) × ((node_config lib dp opts sf ips mask nodes node).neighbours
        ≡ neighbour_metrics opts ips node before ++ m ∷ neighbour_metrics opts ips node after)
      × (m.name ≡ other)
      × (m.ip ++ mask ≡ (node_config lib dp opts sf ips mask nodes other).ip_address)
unfolding node_config metric
node_config_neighbour lib dp opts sf ips mask node other before after h = (
  metric opts other (node_ip ips other),
  neighbour_metrics-append opts ips node before (other ∷ after)
      ∙ ap (λ (l : List MetricConfiguration). neighbour_metrics opts ips node before ++ l)
          (neighbour_metrics-cons opts ips node other after h),
  refl,
  refl,
)

-- No two nodes have one name.
abbrev pub IsDistinct : List Text → Type 0
IsDistinct [] = Unit
IsDistinct (n ∷ nodes) = All (λ m. text_eq m n ≡ false) nodes × IsDistinct nodes

lookup-node_ips_other :
    (n : Text) (ips : Dict Text) (nodes allocated : List Text)
    → All (λ m. text_eq m n ≡ false) nodes
    → Dict.lookup n (node_ips ips nodes allocated) ≡ Dict.lookup n ips
unfolding node_ips
lookup-node_ips_other n ips [] allocated h = refl
lookup-node_ips_other n ips (m ∷ nodes) [] h = refl
lookup-node_ips_other n ips (m ∷ nodes) (a ∷ allocated) h =
    lookup-node_ips_other n (Dict.insert m a ips) nodes allocated h.1
    ∙ (lookup-insert m n a ips ∙ rw (h.0) refl)

lookup-node_ips :
    (i : ℕ) (n a : Text) (ips : Dict Text) (nodes allocated : List Text)
    → IsDistinct nodes
    → get_elem? nodes i ≡ some n
    → get_elem? allocated i ≡ some a
    → Dict.lookup n (node_ips ips nodes allocated) ≡ some a
unfolding node_ips
lookup-node_ips i n a ips [] allocated h en ea = cc
lookup-node_ips i n a ips (m ∷ nodes) [] h en ea = cc
lookup-node_ips zero n a ips (m ∷ nodes) (b ∷ allocated) h en ea =
    let same : m ≡ n = some-injective _ _ en in
    let addr : b ≡ a = some-injective _ _ ea in
    let others : All (λ k. text_eq k n ≡ false) nodes = rw same at h.0 in
    lookup-node_ips_other n (Dict.insert m b ips) nodes allocated others
    ∙ (lookup-insert m n b ips ∙ rw (same, addr, text_eq_refl n) refl)
lookup-node_ips (suc i) n a ips (m ∷ nodes) (b ∷ allocated) h en ea =
    lookup-node_ips i n a (Dict.insert m b ips) nodes allocated h.1 en ea

get_elem?-length : (xs : List Text) (i : ℕ) (x : Text) → get_elem? xs i ≡ some x → i < length xs
get_elem?-length [] i x e = cc
get_elem?-length (y ∷ xs) zero x e = omega arith
get_elem?-length (y ∷ xs) (suc i) x e = omega (arith, get_elem?-length xs i x e)

module _ (v6 : Ipv6) (cidr : Text) (ip_start : ℤ) (nodes : List Text) (ip : Ip) (net : IpNet)
    (a b c d : ℕ) (parsed : parse_cidr v6 cidr ≡ some (ip, net))
    (v4 : to4 ip ≡ some (a ∷ b ∷ c ∷ d ∷ [])) (small : pos_part ip_start + length nodes ≤ 2 ^ 63)
    (bytes : (a < 256) × (b < 256) × (c < 256) × (d < 256)) where
  -- The address at an index is the one that the node at this index gets.
  node_ip-allocated :
      (allocated : List Text) (mask : Text) (i : ℕ) (n : Text)
      → allocate_ipv4s v6 cidr ip_start (pos (length nodes)) ≡ ok (allocated, mask)
      → (a * 2 ^ 24 + b * 2 ^ 16 + c * 2 ^ 8 + d) % 2 ^ (32 - net.ones) ≡ 0
      → IsDistinct nodes
      → get_elem? nodes i ≡ some n
      → get_elem? allocated i ≡ some (node_ip (node_ips [] nodes allocated) n)
  node_ip-allocated allocated mask i n run network distinct e =
      let (_, at, _, _) =
        allocate_ipv4s_usable v6 cidr ip_start (pos (length nodes)) ip net a b c d parsed v4 small
          bytes (allocated, mask) i run network (get_elem?-length nodes i n e) in
      at ∙ rw (lookup-node_ips i n _ [] nodes allocated distinct e at) refl

  -- Of the nodes of an overlay whose addresses were allocated, two at different indices get different
  -- addresses.
  pub node_ips_differ :
      (allocated : List Text) (mask : Text) (i j : ℕ) (m n : Text)
      → allocate_ipv4s v6 cidr ip_start (pos (length nodes)) ≡ ok (allocated, mask)
      → (a * 2 ^ 24 + b * 2 ^ 16 + c * 2 ^ 8 + d) % 2 ^ (32 - net.ones) ≡ 0
      → IsDistinct nodes
      → get_elem? nodes i ≡ some m
      → get_elem? nodes j ≡ some n
      → i ≢ j
      → node_ip (node_ips [] nodes allocated) m ≢ node_ip (node_ips [] nodes allocated) n
  node_ips_differ allocated mask i j m n run network distinct ei ej ne same =
      allocate_ipv4s_distinct v6 cidr ip_start (pos (length nodes)) ip net a b c d parsed v4 small
        bytes (allocated, mask) run network i j (get_elem?-length nodes i m ei)
        (get_elem?-length nodes j n ej) ne
        (node_ip-allocated allocated mask i m run network distinct ei
          ∙ ap (λ (t : Text). some t) same
          ∙ sym (node_ip-allocated allocated mask j n run network distinct ej))
