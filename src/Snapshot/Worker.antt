-- ===== src/Snapshot/Worker.antt =====
-- snapshot-trigger-service/src/service.rs and args/mod.rs: the loop that takes the snapshots, beside
-- the handlers of the REST server, which share its context behind a mutex. A step is what happens
-- between two releases of the mutex; what the system and the child answer is part of the step.
pub mod Reports
use vit_testing.Prelude.{◌≡◌, Bool, true, false, Option, none, some, List, [], ◌∷◌, Result, ok, err}
use vit_testing.Snapshot.Context.{
  Platform, JobParameters, Configuration, Error, State, Context, request_to_start, new, new_run,
  run_started, run_finished, status_by_id, set_server_stopper,
}
use vit_testing.Snapshot.Command.{Command, spawn_command}

-- Where a panic of the loop came from: an `unwrap` of a method of the context, of `spawn_command`,
-- or of `child.wait()`.
pub data Panic : Type 0 where
  context_panic : Error → Panic
  spawn_panic wait_panic : Panic

-- Why the loop ended with an error.
pub data Exit : Type 0 where
  dir_exit persist_exit : Exit
  context_exit : Error → Exit

-- Where the loop stands.
pub data Worker (p : Platform) : Type 0 where
  polling : Worker p
  claimed : p.Uuid → JobParameters → Worker p
  spawned : p.Uuid → JobParameters → Worker p
  started : p.Uuid → JobParameters → Worker p
  waited : p.Uuid → JobParameters → Worker p
  reporting : p.Uuid → Worker p
  persisting : p.Uuid → State p → Worker p
  exited : Exit → Worker p
  panicked : Panic → Worker p

-- `reports` is what stands in `status.yaml` in the folders of the jobs, the last written first.
pub record System (p : Platform) : Type 0 where
  pub context : Context p
  pub worker : Worker p
  pub reports : List (p.Uuid × State p)

module _ {p : Platform} where
  request_from : State p → Option (p.Uuid × JobParameters)
  request_from (request_to_start job_id parameters) = some (job_id, parameters)
  request_from _ = none

  -- `ManagerService::request_to_start`
  unfoldable pub pending_request : Context p → Option (p.Uuid × JobParameters)
  unfolding request_from
  pending_request c = request_from c.state

  unfoldable pub poll : Context p → Worker p
  unfolding pending_request
  poll c = elim (pending_request c) [ none ↦ polling | some (id, r) ↦ claimed id r ]

  -- `command.spawn()`, for a command that there is; the answer of the system is whether it spawned.
  spawn : Option Command → Bool → p.Uuid → JobParameters → Worker p
  spawn (some _) true id r = spawned id r
  spawn _ _ id r = panicked spawn_panic

  -- `spawn_command(job_id, params).unwrap()`
  unfoldable pub spawn_child : Configuration → Bool → p.Uuid → JobParameters → Worker p
  unfolding spawn
  spawn_child config spawns id r = spawn (spawn_command config (p.uuid_to_string id) r) spawns id r

  after_start : Result Error (Unit {0}) → p.Uuid → JobParameters → Worker p
  after_start (ok _) id r = started id r
  after_start (err e) id r = panicked (context_panic e)

  after_finish : Result Error (Unit {0}) → p.Uuid → Worker p
  after_finish (ok _) id = reporting id
  after_finish (err e) id = panicked (context_panic e)

  -- `run_started().unwrap()`
  unfoldable pub start_job :
      p.NaiveDateTime → p.Uuid → JobParameters → Context p → List (p.Uuid × State p) → System p
  unfolding run_started after_start
  start_job now id r c files =
      let (res, c') = run_started p now c in
      record { context = c'; worker = after_start res id r; reports = files }

  -- `child.wait().unwrap()`
  unfoldable pub wait_child : Bool → p.Uuid → JobParameters → Worker p
  wait_child true id r = waited id r
  wait_child false id r = panicked wait_panic

  -- `run_finished().unwrap()`
  unfoldable pub finish_job :
      p.NaiveDateTime → p.Uuid → Context p → List (p.Uuid × State p) → System p
  unfolding run_finished after_finish
  finish_job now id c files =
      let (res, c') = run_finished p now c in
      record { context = c'; worker = after_finish res id; reports = files }

  -- `status_by_id(job_id)?`, under a lock of its own.
  report_from : Result Error (State p) → p.Uuid → Worker p
  report_from (ok state) id = persisting id state
  report_from (err e) id = exited (context_exit e)

  unfoldable pub read_status : p.Uuid → Context p → Worker p
  unfolding report_from status_by_id
  read_status id c = report_from (status_by_id p id c) id

  -- `persist_status`; what a failed write leaves in the file is not followed, as the loop ends.
  unfoldable pub persist_status :
      Bool → p.Uuid → State p → Context p → List (p.Uuid × State p) → System p
  persist_status true id state c files = record {
    context = c;
    worker = polling;
    reports = (id, state) ∷ files;
  }
  persist_status false id state c files = record {
    context = c;
    worker = exited persist_exit;
    reports = files;
  }

  -- What the server and the loop can do next. A handler runs whatever the loop is at.
  pub data Step : System p → System p → Type 0 where
    serve_new :
        (id : p.Uuid) (r : JobParameters) (c : Context p) (w : Worker p)
        (files : List (p.Uuid × State p))
        → Step
            (record { context = c; worker = w; reports = files })
            (record { context = (new_run p id r c).1; worker = w; reports = files })
    serve_start :
        (stopper : p.ServerStopper) (c : Context p) (w : Worker p) (files : List (p.Uuid × State p))
        → Step
            (record { context = c; worker = w; reports = files })
            (record { context = set_server_stopper p stopper c; worker = w; reports = files })
    work_poll :
        (c : Context p) (files : List (p.Uuid × State p))
        → Step
            (record { context = c; worker = polling; reports = files })
            (record { context = c; worker = poll c; reports = files })
    -- `create_dir_all(job_result_dir)?` fails.
    work_dir_fails :
        (id : p.Uuid) (r : JobParameters) (c : Context p) (files : List (p.Uuid × State p))
        → Step
            (record { context = c; worker = claimed id r; reports = files })
            (record { context = c; worker = exited dir_exit; reports = files })
    -- The loop has a copy of the configuration; only the token of the context's can differ from it.
    work_spawn :
        (spawns : Bool) (id : p.Uuid) (r : JobParameters) (c : Context p)
        (files : List (p.Uuid × State p))
        → Step
            (record { context = c; worker = claimed id r; reports = files })
            (record { context = c; worker = spawn_child c.config spawns id r; reports = files })
    work_start :
        (now : p.NaiveDateTime) (id : p.Uuid) (r : JobParameters) (c : Context p)
        (files : List (p.Uuid × State p))
        → Step
            (record { context = c; worker = spawned id r; reports = files })
            (start_job now id r c files)
    work_wait :
        (waits : Bool) (id : p.Uuid) (r : JobParameters) (c : Context p)
        (files : List (p.Uuid × State p))
        → Step
            (record { context = c; worker = started id r; reports = files })
            (record { context = c; worker = wait_child waits id r; reports = files })
    work_finish :
        (now : p.NaiveDateTime) (id : p.Uuid) (r : JobParameters) (c : Context p)
        (files : List (p.Uuid × State p))
        → Step
            (record { context = c; worker = waited id r; reports = files })
            (finish_job now id c files)
    work_report :
        (id : p.Uuid) (c : Context p) (files : List (p.Uuid × State p))
        → Step
            (record { context = c; worker = reporting id; reports = files })
            (record { context = c; worker = read_status id c; reports = files })
    work_persist :
        (writes : Bool) (id : p.Uuid) (state : State p) (c : Context p)
        (files : List (p.Uuid × State p))
        → Step
            (record { context = c; worker = persisting id state; reports = files })
            (persist_status writes id state c files)

  pub data Reach (s : System p) : System p → Type 0 where
    here : Reach s s
    followed_by : {t u : System p} → Reach s t → Step t u → Reach s u

module _ (p : Platform) where
  -- The service as `exec` starts it.
  unfoldable pub boot : Configuration → System p
  unfolding new
  boot config = record { context = new p config config.result_dir; worker = polling; reports = [] }
