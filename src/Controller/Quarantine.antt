-- ===== src/Controller/Quarantine.antt =====
-- internal/controller/quarantinepodrequest_controller.go: pods are moved from the network that a
-- request selects to its target. Texts of messages are left out of statuses and errors.
pub mod Status
pub mod Move
pub mod Reconcile
pub mod Moving
pub mod Planning
pub mod Protocol
pub mod NilSource
mod Tests
use l2s_m.Base.{Bool, ℕ, zero, suc, List, [], ◌∷◌, Option, none, some, Text, text_eq, if◌then◌else◌}
use l2s_m.Annotation.{NetworkAnnotation}
use l2s_m.Cluster.{ApiError}
use l2s_m.Sdn.{SdnError}
use l2s_m.Api.L2Network.{L2Network}
use l2s_m.Utils.Strings.{PortError}

-- The errors that `movePodToTargetNetwork` wraps.
pub data MoveError : Type 0 where
  mismatched_counts : ℕ → ℕ → MoveError
  bad_port : PortError → MoveError
  not_detached not_attached : SdnError → MoveError
  pod_not_updated source_status_not_updated target_status_not_updated : ApiError → MoveError

-- Whether the pod was moved, and the two networks as they stand in memory afterwards.
pub record Moved : Type 0 where
  pub moved : Bool
  pub source : L2Network
  pub target : L2Network

-- `networkAnnotationIndex`; `none` is -1
unfoldable pub network_annotation_index : List NetworkAnnotation → Text → Option ℕ
network_annotation_index [] name = none
network_annotation_index (n ∷ networks) name =
    let rest = network_annotation_index networks name in
    if text_eq n.name name then some 0 else elim rest [ none ↦ none | some i ↦ some (suc i) ]
