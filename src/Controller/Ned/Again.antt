-- ===== src/Controller/Ned/Again.antt =====
-- What writing the configuration of a running device again leaves out.
use l2s_m.Base.{◌≡◌, refl, some, Text}
use l2s_m.Api.Monitor.{MonitorSpec}
use l2s_m.Api.Ned.{NetworkEdgeDevice}
use l2s_m.Lpm.NedCollector.{build_ned_monitoring_resources}
use l2s_m.Controller.Ned.{NedDeps, construct_config_map_for_ned}
use l2s_m.Controller.Ned.Resources.{reconcile_ned}

abbrev pub with_spread_factor : Text → MonitorSpec → NetworkEdgeDevice → NetworkEdgeDevice
with_spread_factor s monitor ned = record ned {
  spec = record ned.spec { monitor = some (record monitor { spread_factor = s }) };
}

-- For a network edge device with monitoring, reconcileNed does the same whatever spread factor
-- the device asks for.
pub reconcile_ned_spread_factor :
    {W F : Type 0} (d : NedDeps W F) (ned : NetworkEdgeDevice) (monitor : MonitorSpec) (s : Text)
    (w : W)
    → ned.spec.monitor ≡ some monitor
    → reconcile_ned d (with_spread_factor s monitor ned) w ≡ reconcile_ned d ned w
unfolding reconcile_ned construct_config_map_for_ned build_ned_monitoring_resources
reconcile_ned_spread_factor d ned monitor s w q = rw q refl
