-- ===== src/Cluster.antt =====
-- The client of the Kubernetes API server (controller-runtime's `client.Client`), as an interface: the
-- server and what it does to its world are parameters. A call that writes returns the object as the
-- server answers it, which replaces the one in memory.
use l2s_m.Base.{ℕ, Bool, List, Option, none, some, Text, Result}
use l2s_m.Sdn.{SdnError}
use l2s_m.Api.Overlay.{Overlay}
use l2s_m.Api.Ned.{NetworkEdgeDevice}
use l2s_m.Api.Resources.{Workload, Resource}
use l2s_m.Api.Meta.{ObjectMeta, ObjectKey, Pod, Node, NetAttachDef}
use l2s_m.Api.L2Network.{L2Network}
use l2s_m.Api.Quarantine.{LabelSelector, QuarantinePodRequest}

pub data ApiError : Type 0 where
  not_found other : ApiError

pub record Cluster (W : Type 0) : Type 0 where
  -- `r.Get`
  pub get_pod : ObjectKey → W → Result ApiError Pod × W
  pub get_network : ObjectKey → W → Result ApiError L2Network × W
  pub get_net_attach_def : ObjectKey → W → Result ApiError NetAttachDef × W
  pub get_request : ObjectKey → W → Result ApiError QuarantinePodRequest × W
  -- `r.Update`
  pub update_pod : Pod → W → Result ApiError Pod × W
  pub update_network : L2Network → W → Result ApiError L2Network × W
  pub update_net_attach_def : NetAttachDef → W → Result ApiError NetAttachDef × W
  -- `r.Status().Update`
  pub update_network_status : L2Network → W → Result ApiError L2Network × W
  pub update_request_status : QuarantinePodRequest → W → Result ApiError QuarantinePodRequest × W
  -- `r.List`: all networks; those, and the pods, of a namespace under a selector; all nodes
  pub list_networks : W → Result ApiError (List L2Network) × W
  pub list_networks_in : Text → LabelSelector → W → Result ApiError (List L2Network) × W
  pub list_pods_in : Text → LabelSelector → W → Result ApiError (List Pod) × W
  pub list_nodes : W → Result ApiError (List Node) × W
  -- those of a namespace with the label `app=l2sm` whose given label is not "true"
  pub list_free_net_attach_defs : Text → Text → W → Result ApiError (List NetAttachDef) × W
  -- `metav1.LabelSelectorAsSelector` returns no error
  pub is_selector : LabelSelector → Bool
  -- Overlays and network edge devices
  pub get_overlay : ObjectKey → W → Result ApiError Overlay × W
  pub update_overlay : Overlay → W → Result ApiError Overlay × W
  pub get_ned : ObjectKey → W → Result ApiError NetworkEdgeDevice × W
  pub update_ned : NetworkEdgeDevice → W → Result ApiError NetworkEdgeDevice × W
  pub list_neds : W → Result ApiError (List NetworkEdgeDevice) × W
  -- The replica sets of a namespace whose controller has a name, by the field index
  pub list_replica_sets : Text → Text → W → Result ApiError (List Workload) × W
  -- `r.Create`, `r.Patch` with server-side apply, and `r.DeleteAllOf` on the attachment definitions
  -- of a namespace with the label of an overlay
  pub create : Resource → W → Option ApiError × W
  pub apply : Resource → W → Option ApiError × W
  pub delete_net_attach_defs : Text → Text → W → Option ApiError × W
  -- `controllerutil.SetControllerReference`: the object owned by another, or an error
  pub set_controller_reference : ObjectMeta → Resource → Option Resource
  -- `controllerutil.ContainsFinalizer`, `AddFinalizer` and `RemoveFinalizer`, on the list of finalizers
  pub contains_finalizer : List Text → Text → Bool
  pub add_finalizer : List Text → Text → List Text
  pub remove_finalizer : List Text → Text → List Text

-- What a reconciler returns: an empty result, a result that asks for a call later, or an error.
pub data ControllerError : Type 0 where
  api : ApiError → ControllerError
  sdn : SdnError → ControllerError
  message : Text → ControllerError

pub data Reconciled : Type 0 where
  done : Reconciled
  requeue_after : ℕ → Reconciled
  failed : ControllerError → Reconciled

-- `return ctrl.Result{}, client.IgnoreNotFound(err)`
unfoldable pub ignore_not_found : ApiError → Option ControllerError
ignore_not_found not_found = none
ignore_not_found other = some (api other)

-- `return ctrl.Result{}, err`
unfoldable pub finished : Option ControllerError → Reconciled
finished none = done
finished (some e) = failed e
