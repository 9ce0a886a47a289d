-- ===== src/Api/Overlay.antt =====
-- api/v1/overlay_types.go
use l2s_m.Base.{List, Option, Text, codes}
use l2s_m.Base.Int.{ℤ}
use l2s_m.Api.Meta.{ObjectMeta}
use l2s_m.Api.Provider.{ProviderSpec}
use l2s_m.Api.Monitor.{MonitorSpec, LinkStatus}
use l2s_m.Api.Switch.{SwitchTemplateSpec}

abbrev pub overlay_provider : Text
overlay_provider = codes "l2sm-controller"

pub record Link : Type 0 where
  pub endpoint_a : Text
  pub endpoint_b : Text

pub record TopologySpec : Type 0 where
  pub nodes : List Text
  pub links : List Link

pub record OverlaySpec : Type 0 where
  pub provider : Option ProviderSpec
  pub topology : Option TopologySpec
  pub switch_template : Option SwitchTemplateSpec
  pub interface_number : ℤ
  pub monitor : Option MonitorSpec

pub record OverlayStatus : Type 0 where
  pub link_metrics : Option (List LinkStatus)

pub record Overlay : Type 0 where
  pub meta : ObjectMeta
  pub open meta use *
  pub spec : OverlaySpec
  pub status : OverlayStatus
