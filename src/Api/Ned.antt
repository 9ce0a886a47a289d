-- ===== src/Api/Ned.antt =====
-- api/v1/networkedgedevice_types.go
use l2s_m.Base.{List, Option, Text}
use l2s_m.Api.Meta.{ObjectMeta}
use l2s_m.Api.Provider.{ProviderSpec}
use l2s_m.Api.Monitor.{MonitorSpec, LinkStatus}
use l2s_m.Api.Switch.{SwitchTemplateSpec}
use l2s_m.Api.L2Network.{ConnectivityStatus}

pub record NeighborSpec : Type 0 where
  pub node : Text
  pub domain : Text
  pub lpm_ip : Option Text

pub record NodeConfigSpec : Type 0 where
  pub node_name : Text
  pub ip_address : Text

pub record NetworkEdgeDeviceSpec : Type 0 where
  pub provider : Option ProviderSpec
  pub node_config : Option NodeConfigSpec
  pub neighbors : List NeighborSpec
  pub switch_template : Option SwitchTemplateSpec
  pub monitor : Option MonitorSpec

pub record NetworkEdgeDeviceStatus : Type 0 where
  pub availability : Option ConnectivityStatus
  pub connected_neighbors : List NeighborSpec
  pub openflow_id : Text
  pub link_metrics : Option (List LinkStatus)

pub record NetworkEdgeDevice : Type 0 where
  pub meta : ObjectMeta
  pub open meta use *
  pub spec : NetworkEdgeDeviceSpec
  pub status : NetworkEdgeDeviceStatus
