-- ===== src/Controller/Defaults/Again.antt =====
-- Defaults are applied once.
use l2s_m.Base.{◌≡◌, refl, ok, arith}
use l2s_m.Api.Overlay.{Overlay}
use l2s_m.Api.Ned.{NetworkEdgeDevice}
use l2s_m.Cluster.{Cluster}
use l2s_m.Controller.Defaults.{
  template_or_default, apply_overlay_defaults, apply_network_edge_device_defaults,
}

-- Applying the defaults of an overlay twice gives what applying them once gives.
pub apply_overlay_defaults-idempotent :
    (overlay : Overlay)
    → apply_overlay_defaults (apply_overlay_defaults overlay) ≡ apply_overlay_defaults overlay
unfolding apply_overlay_defaults template_or_default
apply_overlay_defaults-idempotent overlay = refl

-- If the defaults of a network edge device were applied without an error, applying them again at
-- any later time changes nothing and does not call the server.
pub apply_network_edge_device_defaults-again :
    {W : Type 0} (c : Cluster W) (ned ned' : NetworkEdgeDevice) (w w' later : W)
    → apply_network_edge_device_defaults c ned w ≡ (ok ned', w')
    → apply_network_edge_device_defaults c ned' later ≡ (ok ned', later)
unfolding apply_network_edge_device_defaults template_or_default
apply_network_edge_device_defaults-again c ned ned' w w' later e = ground arith
