-- ===== src/Api/Quarantine.antt =====
-- api/v1/quarantinepodrequest_types.go
use l2s_m.Base.{ℕ, Bool, List, Text}
use l2s_m.Base.Dict.{Dict}
use l2s_m.Base.Int.{ℤ}
use l2s_m.Api.Meta.{ObjectMeta}

-- `metav1.LabelSelector`: labels to match, and requirements of a key, an operator and values.
pub record LabelRequirement : Type 0 where
  pub key : Text
  pub operator : Text
  pub values : List Text

pub record LabelSelector : Type 0 where
  pub match_labels : Dict Text
  pub match_expressions : List LabelRequirement

pub record QuarantinePodSelector : Type 0 where
  pub pod_label_selector : LabelSelector
  pub l2_network_selector : LabelSelector

pub record QuarantinePodRequestSpec : Type 0 where
  pub selector : QuarantinePodSelector
  pub target_l2_network : Text

-- The reasons that the controller writes into the condition.
pub data Reason : Type 0 where
  target_not_found invalid_request sdn_client_not_configured target_check_failed : Reason
  target_unavailable invalid_pod_selector pod_move_failed pods_moved : Reason
  invalid_network_selector source_not_found multiple_sources : Reason

pub record Condition : Type 0 where
  pub available : Bool
  pub observed_generation : ℕ
  pub reason : Reason

-- The list of conditions holds one entry, of type "Available", once it has been set.
pub record QuarantinePodRequestStatus : Type 0 where
  pub observed_generation : ℕ
  pub source_l2_network_name : Text
  pub target_l2_network_name : Text
  pub matched_pod_count : ℤ
  pub moved_pod_count : ℤ
  pub conditions : List Condition

pub record QuarantinePodRequest : Type 0 where
  pub meta : ObjectMeta
  pub open meta use *
  pub spec : QuarantinePodRequestSpec
  pub status : QuarantinePodRequestStatus
