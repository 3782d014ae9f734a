-- ===== src/ExecutionManager/Client/Order.antt =====
-- The order of the client's calls.
use kos_ce_extra.Prelude.{
  ℕ, some, List, [], ◌∷◌, ◌++◌, Text, codes, Bool, true, false, ◌≡◌, refl, sym, append-nil,
}
use kos_ce_extra.ExecutionManager.Acts.{
  Result, good, bad, World, ◌>>=◌, perform, Ran, Runs, perform-then, perform-last, Runs->>=,
  succeeded,
}
use kos_ce_extra.ExecutionManager.Client.{
  Startup, Op, ns_create, ns_publish, create_manager, get_controller, start_entity, stop_entity,
  listen, receive, dispatch, reply, accept, Services, app_path, first_info, second_info,
  publish_service, wait_for_notification, start_and_wait, run_client, client_main,
}

-- The calls of one notification.
abbrev pub notification : Text → Text → List Op
notification client service = listen ∷ accept client service ∷ receive ∷ dispatch ∷ reply ∷ []

-- The calls of a process that is started, has this id, and reports.
abbrev pub reported : Startup → ℕ → Text × Text → List Op
reported info id (client, service) =
    start_entity app_path info (some id) ∷ notification client service

-- The calls of a run without a failure.
abbrev pub full_run : ℕ → Text × Text → ℕ → Text × Text → List Op
full_run first from_first second from_second =
    ns_create
    ∷ ns_publish (codes "client.Notification") (codes "client.Client")
        (codes "client.Client.notificationImpl")
    ∷ create_manager (codes "ExecMgrEntity") (codes "kl.execution_manager.ExecutionManager.iac")
        (codes "kl.execution_manager.ExecutionManager.ias")
    ∷ get_controller
    ∷ (reported first_info first from_first
        ++ (reported second_info second from_second ++ stop_entity first ∷ stop_entity second ∷ []))

abbrev IsPublished : Unit {0} → List Op → Type 0
IsPublished u ops =
    ops
    ≡ ns_create
      ∷ ns_publish (codes "client.Notification") (codes "client.Client")
          (codes "client.Client.notificationImpl")
      ∷ []

abbrev IsNotified : Unit {0} → List Op → Type 0
IsNotified u ops = (client : Text) × (service : Text) × (ops ≡ notification client service)

abbrev IsReported : Startup → ℕ → List Op → Type 0
IsReported info id ops = (from : Text × Text) × (ops ≡ reported info id from)

abbrev pub IsFullRun : Unit {0} → List Op → Type 0
IsFullRun u ops =
    (first : ℕ) × (second : ℕ) × (from_first : Text × Text) × (from_second : Text × Text) × (ops
      ≡ full_run first from_first second from_second)

module _ {S : Type 0} (d : Services S) where
  publish_service-IsPublished : Runs IsPublished (publish_service d)
  unfolding publish_service
  publish_service-IsPublished =
      perform-then IsPublished _ _ _
        (λ ns. perform-last (λ u more. IsPublished u (ns_create ∷ more)) _ _ (λ u. refl))

  wait_for_notification-IsNotified : Runs IsNotified (wait_for_notification d)
  unfolding wait_for_notification
  wait_for_notification-IsNotified = perform-then IsNotified _ _ _ (λ (client, service).
      perform-then (λ u more. IsNotified u (listen ∷ more)) _ _ _
        (λ handle.
          perform-then (λ u more. IsNotified u (listen ∷ accept client service ∷ more)) _ _ _
            (λ received.
              perform-then
                (λ u more. IsNotified u (listen ∷ accept client service ∷ receive ∷ more)) _ _ _
                (λ dispatched.
                  perform-last
                    (λ u more.
                      IsNotified u (listen ∷ accept client service ∷ receive ∷ dispatch ∷ more))
                    _ _ (λ u. (client, service, refl))))))

  start_and_wait-IsReported : (info : Startup) → Runs (IsReported info) (start_and_wait d info)
  unfolding start_and_wait
  start_and_wait-IsReported info = perform-then (IsReported info) _ _ _ (λ id.
      Runs->>= IsNotified
        (λ b more. IsReported info b (start_entity app_path info (some id) ∷ more))
        (wait_for_notification d) _ wait_for_notification-IsNotified
        (λ u ops (client, service, e) w.
          ([], sym (append-nil w.calls), ((client, service), rw e refl))))

  abbrev begins : List Op → List Op
  begins more =
      ns_create
      ∷ ns_publish (codes "client.Notification") (codes "client.Client")
          (codes "client.Client.notificationImpl")
      ∷ create_manager (codes "ExecMgrEntity") (codes "kl.execution_manager.ExecutionManager.iac")
          (codes "kl.execution_manager.ExecutionManager.ias")
      ∷ get_controller
      ∷ more

  stops-IsFullRun :
      (first second : ℕ) (from_first from_second : Text × Text) (ops : List Op)
      → ops ≡ reported second_info second from_second
      → Runs
          (λ u more. IsFullRun u (begins (reported first_info first from_first ++ (ops ++ more))))
          (perform (λ r. stop_entity first) (d.stop_entity first) >>= λ stopped.
            perform (λ r. stop_entity second) (d.stop_entity second))
  stops-IsFullRun first second from_first from_second ops e = rw e (
      perform-then _ _ _ _
        (λ stopped. perform-last _ _ _ (λ u. (first, second, from_first, from_second, refl))))

  run_client-IsFullRun : Runs IsFullRun (run_client d)
  unfolding run_client
  run_client-IsFullRun =
      Runs->>= IsPublished IsFullRun (publish_service d) _ publish_service-IsPublished (λ u ops e.
        rw e (
          perform-then _ _ _ _ (λ created. perform-then _ _ _ _ (λ got.
            Runs->>= (IsReported first_info) (λ b more. IsFullRun b (begins more))
              (start_and_wait d first_info) _ (start_and_wait-IsReported first_info)
              (λ first ops1 (from_first, e1). rw e1 (
                Runs->>= (IsReported second_info)
                  (λ b more. IsFullRun b (begins (reported first_info first from_first ++ more)))
                  (start_and_wait d second_info) _ (start_and_wait-IsReported second_info)
                  (λ second ops2 (from_second, e2).
                    stops-IsFullRun first second from_first from_second ops2 e2)))))))

  abbrev pub IsClientRun : Bool × World Op S → Type 0
  IsClientRun (true, w) = (ops : List Op) × (w.calls ≡ succeeded ops) × IsFullRun tt ops
  IsClientRun (false, w) =
      (ops : List Op) × (last : Op) × (w.calls ≡ succeeded ops ++ (last, false) ∷ [])

  -- The client ends with `EXIT_SUCCESS` only after it has published its service, started both
  -- processes, answered a notification after each, and stopped both by the ids that it was given, in
  -- this order, with no call that failed. Otherwise its last call is the only one that failed.
  pub client_main-IsClientRun : (peer : S) → IsClientRun (client_main d peer)
  unfolding client_main
  client_main-IsClientRun peer =
      with_result (run_client d (record { peer = peer; calls = [] }))
        (run_client-IsFullRun (record { peer = peer; calls = [] }))
    where
      with_result :
          (r : Result (Unit {0}) × World Op S)
          → Ran IsFullRun [] r
          → IsClientRun (elim r.0 as (λ x. Bool × World Op S) [
            | good done ↦ (true, r.1)
            | bad rc ↦ (false, r.1)
          ])
      with_result (good done, w) h = h
      with_result (bad rc, w) h = h
