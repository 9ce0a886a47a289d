-- ===== src/Startup/Tests.antt =====
-- Runs of the start, with a manager that refuses nothing, and with one that does not start.
use l2s_m.Base.{◌≡◌, refl, Bool, true, false, List, [], none, some, text_eq}
use l2s_m.Base.Effects.{returned}
use l2s_m.Env.{Lookup, get_env}
use l2s_m.Sdn.Session.{Http, session_get}
use l2s_m.Sdn.Create.{new_client}
use l2s_m.Sdn.Internal.{begin_session_controller}
use l2s_m.Startup.{Manager, CommandLine, main, not_run}
use l2s_m.Startup.Stages.{Stage, staged_manager, staged_http}
use l2s_m.Startup.Order.{stages, Boots, main-Boots}

-- `runs` is what `Start` answers.
abbrev manager_of : Bool → Manager (Unit {0}) (Unit {0} × List Stage)
manager_of runs = record {
  get_config = λ w. (true, w);
  new_manager = λ o w. (true, w);
  index_field = λ k key f w. (true, w);
  complete = λ c r w. (true, w);
  register_webhook = λ path ns w. (tt, w);
  add_healthz_check = λ n w. (true, w);
  add_readyz_check = λ n w. (true, w);
  start = λ w. (runs, w);
}

abbrev http : Http (Unit {0})
http = record { send = λ r w. (some 200, w); marshal = λ p. p.network_id; base64 = λ t. t }

abbrev no_variables : Lookup
no_variables t = none

abbrev line : CommandLine
line = record {
  metrics_bind_address = none;
  health_probe_bind_address = none;
  leader_elect = none;
  metrics_secure = none;
  enable_http2 = none;
}

main-Boots_example :
    Boots
      (stages no_variables)
      []
      (main (staged_manager (manager_of false)) (staged_http http) no_variables line (tt, []))
main-Boots_example = main-Boots (manager_of false) http no_variables line tt []

main_test :
    (main (staged_manager (manager_of true)) (staged_http http) no_variables line (tt, [])).0
    ≡ returned none
unfolding main new_client begin_session_controller session_get text_eq get_env
main_test = refl

failing_test :
    (main (staged_manager (manager_of false)) (staged_http http) no_variables line (tt, [])).0
    ≡ returned (some not_run)
unfolding main new_client begin_session_controller session_get text_eq get_env
failing_test = refl
