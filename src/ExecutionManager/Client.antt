-- ===== src/ExecutionManager/Client.antt =====
-- The client (execution_manager_separated_vfs/client/src/main.cpp and notification.cpp).
pub mod Order
use kos_ce_extra.Prelude.{ℕ, Option, none, some, List, [], ◌∷◌, Text, codes, Bool, true, false}
use kos_ce_extra.ExecutionManager.Acts.{Result, good, bad, World, Act, and_then, ◌>>=◌, perform}

-- `StartEntityInfo`: what the client sets of it.
pub record Startup : Type 0 where
  pub entity_name : Option Text
  pub eiid : Text
  pub args : List Text
  pub envs : List Text

-- The calls of the client, with what they give. `stop_entity` has the id of the process.
pub data Op : Type 0 where
  ns_create : Op
  ns_publish : Text → Text → Text → Op
  create_manager : Text → Text → Text → Op
  get_controller : Op
  start_entity : Text → Startup → Option ℕ → Op
  stop_entity : ℕ → Op
  listen receive dispatch reply : Op
  accept : Text → Text → Op

-- The name server, the connection manager, the transport and the proxies of the execution manager.
pub record Services (S : Type 0) : Type 0 where
  pub create_ns : S → Result ℕ × S
  pub publish : ℕ → Text → Text → Text → S → Result Unit × S
  pub listen : S → Result (Text × Text) × S
  pub accept : Text → Text → S → Result ℕ × S
  pub receive : ℕ → S → Result Unit × S
  pub dispatch : S → S
  pub reply : ℕ → S → Result Unit × S
  pub create_manager : Text → Text → Text → S → Result Unit × S
  pub get_controller : S → Result Unit × S
  pub start_entity : Text → Startup → S → Result ℕ × S
  pub stop_entity : ℕ → S → Result Unit × S

abbrev pub app_path : Text
app_path = codes "/Application"

abbrev pub vfs_env : Text
vfs_env = codes "VFS_FILESYSTEM_BACKEND=client:kl.VfsSdCardFs"

abbrev pub first_info : Startup
first_info = record {
  entity_name = none;
  eiid = codes "application.Application";
  args = codes "1" ∷ codes "ARG1" ∷ codes "ARG2" ∷ codes "ARG3" ∷ [];
  envs = codes "ENV1=10" ∷ codes "ENV2=envStr" ∷ vfs_env ∷ [];
}

abbrev pub second_info : Startup
second_info = record {
  entity_name = some (codes "application.Application");
  eiid = codes "application.Application";
  args = codes "2" ∷ [];
  envs = vfs_env ∷ [];
}

module _ {S : Type 0} (d : Services S) where
  -- `PublishService`.
  unfoldable pub publish_service : Act Op S Unit
  publish_service = perform (λ r. ns_create) d.create_ns >>= λ ns.
      perform
        (λ r.
          ns_publish (codes "client.Notification") (codes "client.Client")
            (codes "client.Client.notificationImpl"))
        (d.publish ns (codes "client.Notification") (codes "client.Client")
          (codes "client.Client.notificationImpl"))

  -- `WaitForNotification`. What the generated dispatcher does with the request has no failure.
  unfoldable pub wait_for_notification : Act Op S Unit
  wait_for_notification = perform (λ r. listen) d.listen >>= λ (client, service).
      perform (λ r. accept client service) (d.accept client service) >>= λ handle.
      perform (λ r. receive) (d.receive handle) >>= λ received.
      perform (λ r. dispatch) (λ s. (good tt, d.dispatch s)) >>= λ dispatched.
      perform (λ r. reply) (d.reply handle)

  -- A process, started and waited for; its id.
  unfoldable pub start_and_wait : Startup → Act Op S ℕ
  start_and_wait info =
      perform (start_entity app_path info) (d.start_entity app_path info) >>= λ id.
      wait_for_notification >>= λ notified w. (good id, w)

  -- `main` up to its `return EXIT_SUCCESS`.
  unfoldable pub run_client : Act Op S Unit
  run_client = publish_service >>= λ published.
      perform
        (λ r.
          create_manager (codes "ExecMgrEntity") (codes "kl.execution_manager.ExecutionManager.iac")
            (codes "kl.execution_manager.ExecutionManager.ias"))
        (d.create_manager (codes "ExecMgrEntity")
          (codes "kl.execution_manager.ExecutionManager.iac")
          (codes "kl.execution_manager.ExecutionManager.ias"))
      >>= λ created. perform (λ r. get_controller) d.get_controller >>= λ got.
          start_and_wait first_info >>= λ first. start_and_wait second_info >>= λ second.
          perform (λ r. stop_entity first) (d.stop_entity first) >>= λ stopped.
          perform (λ r. stop_entity second) (d.stop_entity second)

  -- Whether `main` ends with `EXIT_SUCCESS`.
  unfoldable pub client_main : S → Bool × World Op S
  client_main peer =
      let (r, w) = run_client (record { peer = peer; calls = [] }) in
      elim r [ good done ↦ (true, w) | bad rc ↦ (false, w) ]
