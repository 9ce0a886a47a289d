-- ===== src/Api/Monitor.antt =====
-- api/v1/monitor_types.go
use l2s_m.Base.{ℕ, List, Option, Text, codes}
use l2s_m.Base.Dict.{Dict}

pub record MetricValue : Type 0 where
  pub name : Text
  pub value : Text

pub record LinkStatus : Type 0 where
  pub source_node : Text
  pub target_node : Text
  pub status : Text
  pub metrics : List MetricValue

pub record ConfigMapKeySelector : Type 0 where
  pub name : Text
  pub key : Text

pub record MetricSpec : Type 0 where
  pub name : Text
  pub interval : Option ℕ
  pub script_source : Option ConfigMapKeySelector

abbrev pub swm_method : Text
swm_method = codes "codeco-swm"

abbrev pub swm_nt_namespace_option : Text
swm_nt_namespace_option = codes "nt_namespace"

pub record ExportMetricSpec : Type 0 where
  pub method : Text
  pub service_account : Text
  pub config : Dict Text

pub record MonitorSpec : Type 0 where
  pub metrics : List MetricSpec
  pub spread_factor : Text
  pub export_metrics : Option ExportMetricSpec
  pub network_cidr : Option Text
  pub ip_cidr : Option Text
