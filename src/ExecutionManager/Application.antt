-- ===== src/ExecutionManager/Application.antt =====
-- The application that the client starts
-- (execution_manager_separated_vfs/application/src/main.cpp).
use kos_ce_extra.Prelude.{ℕ, List, [], ◌∷◌, ◌++◌, Text, codes, false, ◌≡◌, refl, sym, append-nil}
use kos_ce_extra.ExecutionManager.Acts.{
  Result, good, bad, World, Act, ◌>>=◌, perform, Ran, Runs, Runs->>=, perform-then, perform-last,
  succeeded,
}

-- The calls of the application.
pub data Op : Type 0 where
  get_name ns_create : Op
  ns_enum : Text → Op
  connect : Text → Text → Op
  notify : ℕ → Op

-- The task's name, the name server, and the channel to the client.
pub record Services (S : Type 0) : Type 0 where
  pub task_name : S → Result Text × S
  pub create_ns : S → Result ℕ × S
  pub enum_services : ℕ → Text → S → Result (Text × Text) × S
  pub connect : Text → Text → S → Result (ℕ × ℕ) × S
  pub notify : ℕ → ℕ → S → Result Unit × S

-- What becomes of the process: it ends with a code, or goes on until it is stopped, and says every
-- 20 seconds that it is alive.
pub data Fate : Type 0 where
  ends : ℕ → Fate
  stays : Text → Fate

abbrev pub tagged : Text → Text
tagged line = codes "[Application]: " ++ line

-- `argv[i] << ", "` for each.
unfoldable pub list_text : List Text → Text
list_text [] = []
list_text (t ∷ ts) = t ++ (codes ", " ++ list_text ts)

-- The second argument, if there is one.
unfoldable pub index_of : List Text → Text
index_of (name ∷ index ∷ args) = index
index_of _ = []

unfoldable pub started_line : List Text → Text
started_line args = tagged (codes "application" ++ (index_of args ++ codes " started\n"))

unfoldable pub arguments_text : List Text → List Text → Text
arguments_text args envs =
    tagged (codes "ARGS: ")
    ++ (list_text args
        ++ (codes "\n" ++ (tagged (codes "ENVS: ") ++ (list_text envs ++ codes "\n"))))

-- What `main` prints when it has the task's name.
unfoldable pub printed : List Text → List Text → Result Text → Text
printed args envs (good name) = arguments_text args envs
printed args envs (bad rc) = []

-- What `main` becomes: a code that is not `rcOk` is returned.
unfoldable pub fate : Result Text → Fate
fate (good name) = stays name
fate (bad rc) = ends rc

module _ {S : Type 0} (d : Services S) where
  -- `SendNotificationToClient`.
  unfoldable pub send_notification_to_client : Act Op S Unit
  send_notification_to_client = perform (λ r. ns_create) d.create_ns >>= λ ns.
      perform (λ r. ns_enum (codes "client.Notification"))
        (d.enum_services ns (codes "client.Notification"))
      >>= λ (server, service).
          perform (λ r. connect server service) (d.connect server service) >>= λ (handle, rsid).
          perform (λ r. notify rsid) (d.notify handle rsid)

  unfoldable pub get_task_name : Act Op S Text
  get_task_name = perform (λ r. get_name) d.task_name

  -- `main` up to its last loop; the name of the task.
  unfoldable pub run_application : Act Op S Text
  run_application =
      get_task_name >>= λ name. send_notification_to_client >>= λ sent w. (good name, w)

  -- `main`, with what it prints to `cout` before its last loop.
  unfoldable pub application_main : List Text → List Text → S → (Fate × Text) × World Op S
  application_main args envs peer =
      let started : World Op S = record { peer = peer; calls = [] } in
      let (r, w) = run_application started in
      let named = (get_task_name started).0 in
      ((fate r, started_line args ++ printed args envs named), w)

  -- The calls of a process that stays.
  abbrev pub IsNotification : List Op → Type 0
  IsNotification ops =
      (server : Text) × (service : Text) × (rsid : ℕ) × (ops
        ≡ get_name
          ∷ ns_create
          ∷ ns_enum (codes "client.Notification")
          ∷ connect server service
          ∷ notify rsid
          ∷ [])

  send_notification_to_client-Runs :
      Runs (λ u ops. IsNotification (get_name ∷ ops)) send_notification_to_client
  unfolding send_notification_to_client
  send_notification_to_client-Runs = perform-then _ _ _ _ (λ ns.
      perform-then _ _ _ _ (λ (server, service).
        perform-then _ _ _ _
          (λ (handle, rsid). perform-last _ _ _ (λ sent. (server, service, rsid, refl)))))

  run_application-Runs : Runs (λ name ops. IsNotification ops) run_application
  unfolding run_application get_task_name
  run_application-Runs = perform-then _ _ _ _ (λ name.
      Runs->>= (λ u ops. IsNotification (get_name ∷ ops))
        (λ t more. IsNotification (get_name ∷ more)) send_notification_to_client _
        send_notification_to_client-Runs
        (λ u ops (server, service, rsid, e) w.
          ([], sym (append-nil w.calls), (server, service, rsid, rw (append-nil ops) e))))

  abbrev pub IsApplicationRun : Fate → World Op S → Type 0
  IsApplicationRun (stays name) w = (ops : List Op) × (w.calls ≡ succeeded ops) × IsNotification ops
  IsApplicationRun (ends rc) w =
      (ops : List Op) × (last : Op) × (w.calls ≡ succeeded ops ++ (last, false) ∷ [])

  -- The process stays only after its notification is sent, and ends only at a call that fails, which
  -- is its last.
  application_main-IsApplicationRun :
      (args envs : List Text) (peer : S)
      → IsApplicationRun (application_main args envs peer).0.0 (application_main args envs peer).1
  unfolding application_main fate
  application_main-IsApplicationRun args envs peer =
      with_result (run_application (record { peer = peer; calls = [] }))
        (run_application-Runs (record { peer = peer; calls = [] }))
    where
      with_result :
          (r : Result Text × World Op S)
          → Ran (λ name ops. IsNotification ops) [] r
          → IsApplicationRun (fate r.0) r.1
      with_result (good name, w) h = h
      with_result (bad rc, w) h = h
