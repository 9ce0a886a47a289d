-- ===== src/Startup/Order.antt =====
-- The order in which `main` of cmd/main.go sets up the program.
use l2s_m.Base.{◌≡◌, List, [], ◌∷◌, ◌++◌, Option, none, some}
use l2s_m.Base.Effects.{Flow, Outcome, returned, run, ret, ◌>>◌}
use l2s_m.Env.{Lookup}
use l2s_m.Sdn.Session.{Http}
use l2s_m.Startup.{
  Manager, Failure, no_config, no_manager, check, CommandLine, manager_options, main_body, main,
}
use l2s_m.Startup.Stages.{
  Stage, manager_made, health_checked, ready_checked, manager_started, staged_manager, staged_http,
  quiet, Ends, through, stopped, Runs, Runs-check-quiet, checked, Runs-all_of,
}
use l2s_m.Startup.Parts.{
  webhook_stages, session_stages, network_watch, pod_watch, quarantine_watch, ned_stages,
  overlay_stages, parts_from_networks,
}

-- What is done from the first call to the last. The SDN controller is asked for a session before each
-- controller that holds a client is made.
abbrev pub stages : Lookup → List Stage
stages lookup_env =
    manager_made
    ∷ (session_stages network_watch
        ++ (session_stages pod_watch
            ++ (ned_stages
                ++ (overlay_stages
                    ++ (webhook_stages lookup_env
                        ++ (session_stages quarantine_watch
                            ++ health_checked ∷ ready_checked ∷ manager_started ∷ []))))))

-- `main` returns after all of it; or it exits with status 1, after some of the first calls.
pub data Boots {W : Type 0} (plan log : List Stage)
    : Outcome (Option Failure) × (W × List Stage) → Type 0 where
  ran : (w : W) {l : List Stage} → l ≡ log ++ plan → Boots plan log (returned none, (w, l))
  exited :
      (f : Failure) (w : W) {l : List Stage} (es rest : List Stage)
      → plan ≡ es ++ rest
      → l ≡ log ++ es
      → Boots plan log (returned (some f), (w, l))

run-Boots :
    {W : Type 0} {plan log : List Stage} (w : W)
    {x : Flow (Option Failure) (Unit {0}) × (W × List Stage)}
    → Ends plan log x
    → Boots plan log (run ((λ _. x) >> ret none) (w, log))
run-Boots w (through a w1 e) = ran w1 e
run-Boots w (stopped f w1 es rest p q) = exited f w1 es rest p q

module _ {W : Type 0} (m : Manager W (W × List Stage)) (http : Http W) (lookup_env : Lookup)
    (line : CommandLine) where
  Runs-main_body :
      Runs (stages lookup_env) (main_body (staged_manager m) (staged_http http) lookup_env line)
  unfolding main_body
  Runs-main_body =
      Runs-all_of
        (record {
          plan = [];
          action = check (quiet m.get_config) no_config;
          runs = Runs-check-quiet m.get_config no_config;
        })
        (checked manager_made (m.new_manager (manager_options line)) no_manager
          ∷ parts_from_networks m http lookup_env)

  -- Whatever the manager and the SDN controller answer, main makes the calls of the plan in
  -- order: the manager, the controllers of networks, pods, network edge devices and overlays
  -- with their indices, the webhook unless it is switched off, the controller of quarantine
  -- requests, the two checks, and at last the start; it returns only after all of them, and
  -- otherwise exits with an error after some of the first of them.
  pub main-Boots :
      (w : W) (log : List Stage)
      → Boots
          (stages lookup_env)
          log
          (main (staged_manager m) (staged_http http) lookup_env line (w, log))
  unfolding main
  main-Boots w log = run-Boots w (Runs-main_body w log)
