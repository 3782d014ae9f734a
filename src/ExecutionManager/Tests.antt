-- ===== src/ExecutionManager/Tests.antt =====
-- Small systems, and the theorems at concrete inputs.
use kos_ce_extra.Prelude.{ℕ, zero, suc, ◌+◌, List, [], ◌∷◌, Text, codes, true, false, ◌≡◌, refl}
use kos_ce_extra.ExecutionManager.Acts.{good, bad, perform}
use kos_ce_extra.ExecutionManager.Client
use kos_ce_extra.ExecutionManager.Client.Order.{IsClientRun, client_main-IsClientRun}
use kos_ce_extra.ExecutionManager.Application
use kos_ce_extra.ExecutionManager.Launcher

-- The ids of the processes are counted, and every call succeeds.
abbrev manager : Client.Services ℕ
manager = record {
  create_ns = λ s. (good 0, s);
  publish = λ ns a b c s. (good tt, s);
  listen = λ s. (good (codes "client.Client", codes "impl"), s);
  accept = λ a b s. (good 5, s);
  receive = λ h s. (good tt, s);
  dispatch = λ s. s;
  reply = λ h s. (good tt, s);
  create_manager = λ a b c s. (good tt, s);
  get_controller = λ s. (good tt, s);
  start_entity = λ path info s. (good s, s + 1);
  stop_entity = λ id s. (good tt, s);
}

-- No second process can be started.
abbrev full_manager : Client.Services ℕ
full_manager = record manager {
  start_entity = λ path info s. elim s [ zero ↦ (good 0, 1) | suc n ↦ (bad 7, suc n) ];
}

client_main-IsClientRun_example : IsClientRun manager (Client.client_main manager 0)
client_main-IsClientRun_example = client_main-IsClientRun manager 0

-- A client that cannot start the second process ends and does not stop the first.
first_runs_on : (Client.client_main full_manager 0).0 ≡ false
unfolding Client.client_main Client.run_client Client.start_and_wait Client.wait_for_notification
    Client.publish_service perform
first_runs_on = refl

abbrev client_there : Application.Services ℕ
client_there = record {
  task_name = λ s. (good (codes "application.Application"), s);
  create_ns = λ s. (good 0, s);
  enum_services = λ ns name s. (good (codes "client.Client", codes "impl"), s);
  connect = λ a b s. (good (3, 4), s);
  notify = λ h rsid s. (good tt, s);
}

abbrev app_args : List Text
app_args = codes "Application" ∷ codes "1" ∷ codes "ARG1" ∷ []

started_line-app_args :
    Application.started_line app_args ≡ codes "[Application]: application1 started\n"
unfolding Application.started_line Application.index_of
started_line-app_args = refl

abbrev packages : Launcher.Services ℕ
packages = record {
  create_manager = λ a b s. (good tt, s);
  get_controller = λ s. (good tt, s);
  get_manifest = λ id s. (good tt, s);
  run_configurations = λ s. (good [], s);
  connect_manager = λ s. (good tt, s);
  get_processes = λ s. (good tt, s);
  start_process = λ id cfg s. (good tt, s);
}

-- A package without a run configuration is started all the same.
no_configuration : (Launcher.launcher_main packages (codes "pkg") 0).0 ≡ true
unfolding Launcher.launcher_main Launcher.run_launcher perform
no_configuration = refl
