-- ===== src/Startup.antt =====
-- cmd/main.go, and `SetupWithManager` of every reconciler of internal/controller. The manager of
-- controller-runtime is an interface (`Manager`); its client and its scheme are not passed on here.
pub mod Order
pub mod Parts
pub mod Stages
mod Tests
use l2s_m.Base.{
  Bool, true, false, not, ℕ, List, [], ◌∷◌, ◌++◌, Option, none, some, Text, codes, text_eq,
  if◌then◌else◌,
}
use l2s_m.Base.Effects.{Act, Outcome, run, try, ret, pure, fault, return_if, lift, ◌>>=◌, ◌>>◌}
use l2s_m.Env.{Lookup, get_env, get_controller_ip, get_controller_port, get_switches_namespace}
use l2s_m.Sdn.{SdnError, Client}
use l2s_m.Sdn.Session.{Http}
use l2s_m.Sdn.Create.{internal, new_client}
use l2s_m.Monitoring.{client_config}
use l2s_m.Controller.Owned.{OwnerReference}
use l2s_m.Controller.Overlay.Reconcile.{overlay_owner_index}
use l2s_m.Controller.Ned.{ned_owner_index}

pub data Kind : Type 0 where
  l2network pod network_edge_device overlay quarantine_pod_request : Kind
  replica_set config_map service net_attach_def : Kind

-- What a controller watches: `For`, `Owns` and `Named`.
pub record Watch : Type 0 where
  pub watched : Kind
  pub owned : List Kind
  pub name : Text

-- The reconcilers with the fields that are set at the start. The monitoring client factory of the last
-- but one and of the last is the default one.
pub data Reconciler (W : Type 0) : Type 0 where
  network_reconciler pod_reconciler : Client W → Text → Reconciler W
  quarantine_reconciler : Client W → Reconciler W
  ned_reconciler overlay_reconciler : Reconciler W

-- `tls.Config`, as far as it is changed
pub record TlsConfig : Type 0 where
  pub next_protos : List Text

pub record MetricsOptions : Type 0 where
  pub bind_address : Text
  pub secure_serving : Bool
  pub tls_opts : List (TlsConfig → TlsConfig)
  pub with_authentication : Bool

pub record ManagerOptions : Type 0 where
  pub metrics : MetricsOptions
  pub webhook_tls_opts : List (TlsConfig → TlsConfig)
  pub health_probe_bind_address : Text
  pub leader_election : Bool
  pub leader_election_id : Text

-- The answers are `true` where there is no error. `get_config` and `new_manager` belong to the package;
-- `index_field` computes the values of a field from the controller that owns an object. `V` is the
-- world of the clients that the reconcilers hold.
pub record Manager (W V : Type 0) : Type 0 where
  pub get_config : W → Bool × W
  pub new_manager : ManagerOptions → W → Bool × W
  pub index_field : Kind → Text → (Option OwnerReference → List Text) → W → Bool × W
  pub complete : Watch → Reconciler V → W → Bool × W
  pub register_webhook : Text → Text → W → Unit {0} × W
  pub add_healthz_check : Text → W → Bool × W
  pub add_readyz_check : Text → W → Bool × W
  pub start : W → Bool × W

-- The errors that make `main` exit with status 1; it returns where there is none.
pub data Failure : Type 0 where
  no_config no_manager : Failure
  no_session : SdnError → Failure
  not_indexed not_created : Kind → Failure
  no_health_check no_ready_check not_run : Failure

-- `if err := …; err != nil`, with what is done after the error. `SetupWithManager` returns the error,
-- and `main` exits with each error that it is returned, so both are one early return.
abbrev pub check : {W : Type 0} → (W → Bool × W) → Failure → Act W (Option Failure) (Unit {0})
check m f = do passed ← lift m; return_if (not passed) (some f)

-- The groups whose types `init` adds to the scheme.
pub data SchemeGroup : Type 0 where
  client_go l2sm net_attach : SchemeGroup

-- `utilruntime.Must`
unfoldable pub must : {W : Type 0} → (W → Bool × W) → Act W (Option Failure) (Unit {0})
must m = do added ← lift m; if added then pure tt else fault

unfoldable pub init_scheme :
    {W : Type 0} → (SchemeGroup → W → Bool × W) → Act W (Option Failure) (Unit {0})
unfolding must
init_scheme add_to_scheme = do
  must (add_to_scheme client_go)
  must (add_to_scheme l2sm)
  must (add_to_scheme net_attach)

-- The flags of the command line, where they are given.
pub record CommandLine : Type 0 where
  pub metrics_bind_address : Option Text
  pub health_probe_bind_address : Option Text
  pub leader_elect : Option Bool
  pub metrics_secure : Option Bool
  pub enable_http2 : Option Bool

abbrev pub or_default {ℓ} : {A : Type ℓ} → Option A → A → A
or_default none a = a
or_default (some b) a = b

unfoldable pub disable_http2 : TlsConfig → TlsConfig
disable_http2 c = record c { next_protos = codes "http/1.1" ∷ [] }

unfoldable pub tls_options : CommandLine → List (TlsConfig → TlsConfig)
tls_options line = if not (or_default line.enable_http2 false) then disable_http2 ∷ [] else []

unfoldable pub manager_options : CommandLine → ManagerOptions
unfolding tls_options
manager_options line = record {
  metrics = record {
    bind_address = or_default line.metrics_bind_address (codes ":8080");
    secure_serving = or_default line.metrics_secure false;
    tls_opts = tls_options line;
    with_authentication = or_default line.metrics_secure false;
  };
  webhook_tls_opts = tls_options line;
  health_probe_bind_address = or_default line.health_probe_bind_address (codes ":8081");
  leader_election = or_default line.leader_elect false;
  leader_election_id = codes "ec71f4b7.l2sm.k8s.local";
}

abbrev pub ned_owner_key : Text
ned_owner_key = codes ".metadata.controller"

abbrev pub overlay_owner_key : Text
overlay_owner_key = codes ".metadata.controller.overlay"

abbrev pub watch_of : Kind → List Kind → Text → Watch
watch_of kind owned name = record { watched = kind; owned = owned; name = name }

module _ {W : Type 0} (mgr : Manager W W) (http : Http W) (lookup_env : Lookup) where
  -- A session with the SDN controller is opened, or the reconciler is not set up.
  unfoldable pub open_session : Act W (Option Failure) (Client W)
  unfolding client_config
  open_session =
      try
        (new_client http internal
          (client_config (get_controller_ip lookup_env) (get_controller_port lookup_env)))
        (λ e. some (no_session e))

  unfoldable pub set_up_network : Text → Act W (Option Failure) (Unit {0})
  unfolding open_session
  set_up_network switches_namespace = do
    client ← open_session
    check (mgr.complete (watch_of l2network [] []) (network_reconciler client switches_namespace))
        (not_created l2network)

  unfoldable pub set_up_pod : Text → Act W (Option Failure) (Unit {0})
  unfolding open_session
  set_up_pod switches_namespace = do
    client ← open_session
    check (mgr.complete (watch_of pod [] []) (pod_reconciler client switches_namespace))
        (not_created pod)

  unfoldable pub index_ned : Kind → Act W (Option Failure) (Unit {0})
  index_ned kind = check (mgr.index_field kind ned_owner_key ned_owner_index) (not_indexed kind)

  unfoldable pub set_up_ned : Act W (Option Failure) (Unit {0})
  unfolding index_ned
  set_up_ned = do
    index_ned replica_set
    index_ned config_map
    check
        (mgr.complete (watch_of network_edge_device (replica_set ∷ config_map ∷ []) [])
          ned_reconciler)
        (not_created network_edge_device)

  unfoldable pub index_overlay : Kind → Act W (Option Failure) (Unit {0})
  index_overlay kind =
      check (mgr.index_field kind overlay_owner_key overlay_owner_index) (not_indexed kind)

  unfoldable pub set_up_overlay : Act W (Option Failure) (Unit {0})
  unfolding index_overlay
  set_up_overlay = do
    index_overlay replica_set
    index_overlay config_map
    index_overlay service
    index_overlay net_attach_def
    check
        (mgr.complete
          (watch_of overlay (replica_set ∷ config_map ∷ service ∷ net_attach_def ∷ []) [])
          overlay_reconciler)
        (not_created overlay)

  -- The reconciler has no client yet where `main` sets it up.
  unfoldable pub set_up_quarantine : Act W (Option Failure) (Unit {0})
  unfolding open_session
  set_up_quarantine = do
    client ← open_session
    check
        (mgr.complete (watch_of quarantine_pod_request [] (codes "quarantinepodrequest"))
          (quarantine_reconciler client))
        (not_created quarantine_pod_request)

  -- The webhook, unless the environment switches it off.
  unfoldable pub set_up_webhook : Act W (Option Failure) (Unit {0})
  set_up_webhook =
      if text_eq (get_env lookup_env (codes "ENABLE_WEBHOOKS") []) (codes "false")
      then pure tt
      else lift (mgr.register_webhook (codes "/mutate-v1-pod") (get_switches_namespace lookup_env))

  -- `main`, which starts the manager last.
  unfoldable pub main_body : CommandLine → Act W (Option Failure) (Unit {0})
  unfolding set_up_network set_up_pod set_up_ned set_up_overlay set_up_webhook set_up_quarantine
      manager_options
  main_body line = do
    check mgr.get_config no_config
    check (mgr.new_manager (manager_options line)) no_manager
    set_up_network (get_switches_namespace lookup_env)
    set_up_pod (get_switches_namespace lookup_env)
    set_up_ned
    set_up_overlay
    set_up_webhook
    set_up_quarantine
    check (mgr.add_healthz_check (codes "healthz")) no_health_check
    check (mgr.add_readyz_check (codes "readyz")) no_ready_check
    check mgr.start not_run

  unfoldable pub main : CommandLine → W → Outcome (Option Failure) × W
  unfolding main_body
  main line = run (main_body line >> ret none)
