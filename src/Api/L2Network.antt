-- ===== src/Api/L2Network.antt =====
-- api/v1/l2network_types.go
use l2s_m.Base.{ℕ, Bool, List, Option, Text}
use l2s_m.Base.Dict.{Dict}
use l2s_m.Base.Int.{ℤ}
use l2s_m.Api.Meta.{ObjectMeta}
use l2s_m.Api.Provider.{ProviderSpec}

pub data NetworkType : Type 0 where
  ext_vnet vnet vlink : NetworkType
  raw : Text → NetworkType  -- any other text; the controllers write "vnets"

pub data ConnectivityStatus : Type 0 where
  online offline unknown : ConnectivityStatus

pub record IdsRuleSource : Type 0 where
  pub name : Text
  pub url : Text
  pub inline : Text
  pub config_map_ref : Option Text

pub record IdsRules : Type 0 where
  pub enabled : Bool
  pub home_net_cidr : List Text
  pub use_emerging_threats_open : Bool
  pub custom_rule_sources : List IdsRuleSource
  pub ignore_ports : List ℕ
  pub node : Text
  pub profile : Text
  pub namespace : Text

pub record L2NetworkSpec : Type 0 where
  pub type : NetworkType
  pub config : Option Text
  pub provider : Option ProviderSpec
  pub network_cidr : Text
  pub pod_address_range : Text
  pub ids : Option IdsRules

-- `assigned_ips` maps an address to a pod's name; `none` is the nil map.
pub record L2NetworkStatus : Type 0 where
  pub connected_pod_count : ℤ
  pub last_assigned_ip : Text
  pub assigned_ips : Option (Dict Text)
  pub internal_connectivity : Option ConnectivityStatus
  pub provider_connectivity : Option ConnectivityStatus

pub record L2Network : Type 0 where
  pub meta : ObjectMeta
  pub open meta use *
  pub spec : L2NetworkSpec
  pub status : L2NetworkStatus
