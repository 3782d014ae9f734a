-- ===== src/ExecutionManager/Launcher.antt =====
-- The launcher (package_manager_utilities/launcher/src/main.cpp): a program of an installed package
-- is started with its first run configuration.
use kos_ce_extra.Prelude.{
  Option, some, List, [], ◌∷◌, ◌++◌, Text, codes, Bool, true, false, ◌≡◌, refl,
}
use kos_ce_extra.ExecutionManager.Acts.{
  Result, good, bad, World, Act, ◌>>=◌, perform, Ran, Runs, perform-then, perform-last, succeeded,
}

-- The calls of the launcher; `run_configurations` has the ids that are given.
pub data Op : Type 0 where
  create_manager : Text → Text → Op
  get_controller connect_manager get_processes : Op
  get_manifest : Text → Op
  run_configurations : Option (List Text) → Op
  start_process : Text → Text → Op

-- The package manager and the execution manager.
pub record Services (S : Type 0) : Type 0 where
  pub create_manager : Text → Text → S → Result Unit × S
  pub get_controller : S → Result Unit × S
  pub get_manifest : Text → S → Result Unit × S
  pub run_configurations : S → Result (List Text) × S
  pub connect_manager : S → Result Unit × S
  pub get_processes : S → Result Unit × S
  pub start_process : Text → Text → S → Result Unit × S

-- The first id, or the empty text where there is none.
unfoldable pub run_cfg_id : List Text → Text
run_cfg_id [] = []
run_cfg_id (id ∷ ids) = id

module _ {S : Type 0} (d : Services S) (package_id : Text) where
  -- `main` up to its `return EXIT_SUCCESS`.
  unfoldable pub run_launcher : Act Op S Unit
  run_launcher =
      perform
        (λ r.
          create_manager (codes "PkgMgrEntity") (codes "kl.package_manager.PackageManager.ipkgc"))
        (d.create_manager (codes "PkgMgrEntity") (codes "kl.package_manager.PackageManager.ipkgc"))
      >>= λ created. perform (λ r. get_controller) d.get_controller >>= λ got.
          perform (λ r. get_manifest package_id) (d.get_manifest package_id) >>= λ manifest.
          perform run_configurations d.run_configurations >>= λ ids.
          perform (λ r. connect_manager) d.connect_manager >>= λ connected.
          perform (λ r. get_processes) d.get_processes >>= λ control.
          perform (λ r. start_process package_id (run_cfg_id ids))
            (d.start_process package_id (run_cfg_id ids))

  -- Whether `main` ends with `EXIT_SUCCESS`.
  unfoldable pub launcher_main : S → Bool × World Op S
  launcher_main peer =
      let (r, w) = run_launcher (record { peer = peer; calls = [] }) in
      elim r [ good done ↦ (true, w) | bad rc ↦ (false, w) ]

  -- The calls of a run without a failure.
  abbrev pub IsLaunch : Unit {0} → List Op → Type 0
  IsLaunch u ops =
      (ids : List Text) × (ops
        ≡ create_manager (codes "PkgMgrEntity") (codes "kl.package_manager.PackageManager.ipkgc")
          ∷ get_controller
          ∷ get_manifest package_id
          ∷ run_configurations (some ids)
          ∷ connect_manager
          ∷ get_processes
          ∷ start_process package_id (run_cfg_id ids)
          ∷ [])

  run_launcher-IsLaunch : Runs IsLaunch run_launcher
  unfolding run_launcher
  run_launcher-IsLaunch = perform-then _ _ _ _ (λ created. perform-then _ _ _ _ (λ got.
      perform-then _ _ _ _ (λ manifest. perform-then _ _ _ _ (λ ids.
        perform-then _ _ _ _ (λ connected.
          perform-then _ _ _ _ (λ control. perform-last _ _ _ (λ started. (ids, refl))))))))

  abbrev pub IsLauncherRun : Bool × World Op S → Type 0
  IsLauncherRun (true, w) = (ops : List Op) × (w.calls ≡ succeeded ops) × IsLaunch tt ops
  IsLauncherRun (false, w) =
      (ops : List Op) × (last : Op) × (w.calls ≡ succeeded ops ++ (last, false) ∷ [])

  -- The launcher ends with `EXIT_SUCCESS` only after all its calls have succeeded in this order, the
  -- last of which starts the package with its first run configuration, or with the empty id where
  -- there is none. Otherwise its last call is the only one that failed.
  launcher_main-IsLauncherRun : (peer : S) → IsLauncherRun (launcher_main peer)
  unfolding launcher_main
  launcher_main-IsLauncherRun peer =
      with_result (run_launcher (record { peer = peer; calls = [] }))
        (run_launcher-IsLaunch (record { peer = peer; calls = [] }))
    where
      with_result :
          (r : Result (Unit {0}) × World Op S)
          → Ran IsLaunch [] r
          → IsLauncherRun (elim r.0 as (λ x. Bool × World Op S) [
            | good done ↦ (true, r.1)
            | bad rc ↦ (false, r.1)
          ])
      with_result (good done, w) h = h
      with_result (bad rc, w) h = h
