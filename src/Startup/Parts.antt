-- ===== src/Startup/Parts.antt =====
-- The parts of `main` of cmd/main.go, and the calls that each makes.
use l2s_m.Base.{
  ◌≡◌, refl, sym, inl, inr, Bool-cases, List, [], ◌∷◌, ◌++◌, append-nil, Option, none, some, Text,
  codes, text_eq, if◌then◌else◌, arith, ◌⊎◌, ℕ, ◌==◌,
}
use l2s_m.Base.Effects.{Flow, next, return, ◌>>=◌}
use l2s_m.Env.{Lookup, get_env, get_controller_ip, get_controller_port, get_switches_namespace}
use l2s_m.Sdn.{Client}
use l2s_m.Sdn
use l2s_m.Monitoring.{client_config}
use l2s_m.Sdn.Session.{Request, get, new_request, new_session_client, Http, session_get, ok_status}
use l2s_m.Sdn.Internal.{internal_client, begin_session_controller}
use l2s_m.Sdn.Create.{ClientConfig, new_client, started}
use l2s_m.Controller.Owned.{OwnerReference}
use l2s_m.Controller.Ned.{ned_owner_index}
use l2s_m.Controller.Overlay.Reconcile.{overlay_owner_index}
use l2s_m.Startup.{
  l2network, pod, network_edge_device, overlay, quarantine_pod_request, replica_set, config_map,
  service, net_attach_def, watch_of, Manager, Kind, Watch, Reconciler, network_reconciler,
  pod_reconciler, quarantine_reconciler, overlay_reconciler, ned_reconciler, not_indexed,
  not_created, Failure, no_session, no_health_check, no_ready_check, not_run, check, ned_owner_key,
  overlay_owner_key, open_session, set_up_network, set_up_pod, set_up_ned, set_up_overlay,
  set_up_quarantine, set_up_webhook,
}
use l2s_m.Startup.Stages.{
  Stage, indexed, controller_made, webhook_registered, session_asked, health_checked, ready_checked,
  manager_started, staged_manager, staged_http, Ends, through, stopped, Runs, Runs-check, Runs-bind,
  Part, checked, Runs-all_of,
}

abbrev pub webhook_stages : Lookup → List Stage
webhook_stages lookup_env =
    if text_eq (get_env lookup_env (codes "ENABLE_WEBHOOKS") []) (codes "false")
    then []
    else webhook_registered (codes "/mutate-v1-pod") ∷ []

-- The stages of a controller that holds a client, and of those of overlays and network edge devices.
abbrev pub session_stages : Watch → List Stage
session_stages c = session_asked ∷ controller_made c ∷ []

abbrev pub network_watch : Watch
network_watch = watch_of l2network [] []

abbrev pub pod_watch : Watch
pod_watch = watch_of pod [] []

abbrev pub ned_watch : Watch
ned_watch = watch_of network_edge_device (replica_set ∷ config_map ∷ []) []

abbrev pub overlay_watch : Watch
overlay_watch = watch_of overlay (replica_set ∷ config_map ∷ service ∷ net_attach_def ∷ []) []

abbrev pub quarantine_watch : Watch
quarantine_watch = watch_of quarantine_pod_request [] (codes "quarantinepodrequest")

abbrev pub ned_stages : List Stage
ned_stages =
    indexed replica_set ned_owner_key
    ∷ indexed config_map ned_owner_key
    ∷ controller_made ned_watch
    ∷ []

abbrev pub overlay_stages : List Stage
overlay_stages =
    indexed replica_set overlay_owner_key
    ∷ indexed config_map overlay_owner_key
    ∷ indexed service overlay_owner_key
    ∷ indexed net_attach_def overlay_owner_key
    ∷ controller_made overlay_watch
    ∷ []

module _ {W : Type 0} (m : Manager W (W × List Stage)) (http : Http W) (lookup_env : Lookup) where
  abbrev pub mgr : Manager (W × List Stage) (W × List Stage)
  mgr = staged_manager m

  abbrev config : ClientConfig
  config = client_config (get_controller_ip lookup_env) (get_controller_port lookup_env)

  code_cases :
      (x : Option ℕ × W) → ((w : W) × (x ≡ (none, w))) ⊎ ((c : ℕ) × (w : W) × (x ≡ (some c, w)))
  code_cases (none, w) = inl (w, refl)
  code_cases (some c, w) = inr (c, w, refl)

  -- The request that asks for the status.
  abbrev session_request : Request
  session_request =
      new_request http (new_session_client http (config.base_url) config.username config.password)
        get (codes "/vnets/api/status") []

  abbrev opened_client : Client (W × List Stage)
  opened_client =
      internal_client (staged_http http)
        (new_session_client (staged_http http) config.base_url config.username config.password)

  opened :
      (log : List Stage) (x : Flow (Option Failure) (Client (W × List Stage)) × (W × List Stage))
      (c : Client (W × List Stage)) (w : W)
      → x ≡ (next c, (w, log ++ session_asked ∷ []))
      → Ends (session_asked ∷ []) log x
  opened log x c w e = rw e (through c w refl)

  refused :
      (log : List Stage) (x : Flow (Option Failure) (Client (W × List Stage)) × (W × List Stage))
      (f : Failure) (w : W)
      → x ≡ (return (some f), (w, log ++ session_asked ∷ []))
      → Ends (session_asked ∷ []) log x
  refused log x f w e = rw e (stopped f w (session_asked ∷ []) [] refl refl)

  Runs-open_session : Runs (session_asked ∷ []) (open_session mgr (staged_http http) lookup_env)
  unfolding open_session new_client begin_session_controller session_get started
  Runs-open_session w log =
      let x = open_session mgr (staged_http http) lookup_env (w, log) in
      elim (code_cases (http.send session_request w)) [
        | inl (w1, e) ↦ refused log x (no_session Sdn.no_session) w1 (ground arith)
        | inr (c, w1, e) ↦ elim (Bool-cases (c == ok_status)) [
          | inl t ↦ opened log x opened_client w1 (ground arith)
          | inr t ↦ refused log x (no_session Sdn.no_session) w1 (ground arith)
        ]
      ]

  -- The controllers that hold a client, and those that hold none.
  with_session :
      (c : Watch) (r : Client (W × List Stage) → Reconciler (W × List Stage)) (f : Failure)
      → Runs (session_asked ∷ controller_made c ∷ []) (
          open_session mgr (staged_http http) lookup_env >>= λ client.
          check (mgr.complete c (r client)) f)
  with_session c r f =
      Runs-bind (session_asked ∷ []) (controller_made c ∷ [])
        (open_session mgr (staged_http http) lookup_env)
        (λ client. check (mgr.complete c (r client)) f) Runs-open_session
        (λ client. Runs-check (controller_made c) (m.complete c (r client)) f)

  abbrev making : Watch → Reconciler (W × List Stage) → Part W
  making c r = checked (controller_made c) (m.complete c r) (not_created c.watched)

  abbrev indexing : Kind → Text → (Option OwnerReference → List Text) → Part W
  indexing kind key f = checked (indexed kind key) (m.index_field kind key f) (not_indexed kind)

  pub Runs-set_up_network :
      (ns : Text)
      → Runs (session_stages network_watch) (set_up_network mgr (staged_http http) lookup_env ns)
  unfolding set_up_network
  Runs-set_up_network ns =
      with_session network_watch (λ c. network_reconciler c ns) (not_created l2network)

  pub Runs-set_up_pod :
      (ns : Text)
      → Runs (session_stages pod_watch) (set_up_pod mgr (staged_http http) lookup_env ns)
  unfolding set_up_pod
  Runs-set_up_pod ns = with_session pod_watch (λ c. pod_reconciler c ns) (not_created pod)

  pub Runs-set_up_quarantine :
      Runs (session_stages quarantine_watch) (set_up_quarantine mgr (staged_http http) lookup_env)
  unfolding set_up_quarantine
  Runs-set_up_quarantine =
      with_session quarantine_watch (λ c. quarantine_reconciler c)
        (not_created quarantine_pod_request)

  pub Runs-set_up_ned : Runs ned_stages (set_up_ned mgr (staged_http http) lookup_env)
  unfolding set_up_ned
  Runs-set_up_ned =
      Runs-all_of (indexing replica_set ned_owner_key ned_owner_index)
        (indexing config_map ned_owner_key ned_owner_index ∷ making ned_watch ned_reconciler ∷ [])

  pub Runs-set_up_overlay : Runs overlay_stages (set_up_overlay mgr (staged_http http) lookup_env)
  unfolding set_up_overlay
  Runs-set_up_overlay =
      let index = λ (k : Kind). indexing k overlay_owner_key overlay_owner_index in
      Runs-all_of (index replica_set) (
        index config_map
        ∷ index service
        ∷ index net_attach_def
        ∷ making overlay_watch overlay_reconciler
        ∷ [])

  pub Runs-set_up_webhook :
      Runs (webhook_stages lookup_env) (set_up_webhook mgr (staged_http http) lookup_env)
  unfolding set_up_webhook
  Runs-set_up_webhook w log =
      elim (Bool-cases
        (text_eq (get_env lookup_env (codes "ENABLE_WEBHOOKS") []) (codes "false"))) [
          | inl off ↦ rw off (through tt w (sym (append-nil log)))
          | inr on ↦ rw on (
              through tt
                (m.register_webhook (codes "/mutate-v1-pod") (get_switches_namespace lookup_env)
                  w).1
                refl)
        ]

  -- The parts of `main` behind the manager, in order.
  abbrev pub parts_from_networks : List (Part W)
  parts_from_networks =
      let ns = get_switches_namespace lookup_env in
      let staged = staged_http http in
      record {
        plan = session_stages network_watch;
        action = set_up_network mgr staged lookup_env ns;
        runs = Runs-set_up_network ns;
      }
      ∷ record {
        plan = session_stages pod_watch;
        action = set_up_pod mgr staged lookup_env ns;
        runs = Runs-set_up_pod ns;
      }
      ∷ record {
        plan = ned_stages;
        action = set_up_ned mgr staged lookup_env;
        runs = Runs-set_up_ned;
      }
      ∷ record {
        plan = overlay_stages;
        action = set_up_overlay mgr staged lookup_env;
        runs = Runs-set_up_overlay;
      }
      ∷ record {
        plan = webhook_stages lookup_env;
        action = set_up_webhook mgr staged lookup_env;
        runs = Runs-set_up_webhook;
      }
      ∷ record {
        plan = session_stages quarantine_watch;
        action = set_up_quarantine mgr staged lookup_env;
        runs = Runs-set_up_quarantine;
      }
      ∷ checked health_checked (m.add_healthz_check (codes "healthz")) no_health_check
      ∷ checked ready_checked (m.add_readyz_check (codes "readyz")) no_ready_check
      ∷ checked manager_started m.start not_run
      ∷ []
