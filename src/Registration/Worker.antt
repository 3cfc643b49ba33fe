-- ===== src/Registration/Worker.antt =====
-- registration-service/src/service.rs and args/mod.rs: the loop that serves the requests, beside
-- the handlers of the REST server, which share its context behind a mutex. A step is what happens
-- between two releases of the mutex; what the system and the tools answer is part of the step.
pub mod Safety
use vit_testing.Prelude.{◌≡◌, Option, none, some, Result, ok, err}
use vit_testing.Registration.Context.{
  Platform, Request, JobOutputInfo, Configuration, Error, State, Context, request_to_start, new,
  new_run, run_started, run_finished, set_server_stopper,
}

-- Where a panic of the loop came from: an `unwrap` of a method's result, or of `job.start`.
pub data Panic : Type 0 where
  context_panic : Error → Panic
  job_panic : Panic

-- Where the loop stands.
pub data Worker (p : Platform) : Type 0 where
  polling : Worker p
  claimed : p.Uuid → Request → Worker p
  started : p.Uuid → Request → Worker p
  produced : p.Uuid → Request → JobOutputInfo → Worker p
  exited : Worker p
  panicked : Panic → Worker p

pub record System (p : Platform) : Type 0 where
  pub context : Context p
  pub worker : Worker p

module _ {p : Platform} where
  request_from : State p → Option (p.Uuid × Request)
  request_from (request_to_start job_id request) = some (job_id, request)
  request_from _ = none

  -- `ManagerService::request_to_start`
  unfoldable pub pending_request : Context p → Option (p.Uuid × Request)
  unfolding request_from
  pending_request c = request_from c.state

  unfoldable pub poll : Context p → Worker p
  unfolding pending_request
  poll c = elim (pending_request c) [ none ↦ polling | some (id, r) ↦ claimed id r ]

  -- `run_started().unwrap()`
  unfoldable pub start_job : p.NaiveDateTime → p.Uuid → Request → Context p → System p
  unfolding run_started
  start_job now id r c =
      let (res, c') = run_started p now c in
      record {
        context = c';
        worker = elim res [ ok _ ↦ started id r | err e ↦ panicked (context_panic e) ];
      }

  -- `job.start(request).unwrap()`; `none` is an error of the job.
  unfoldable pub job_result : Option JobOutputInfo → p.Uuid → Request → Worker p
  job_result none id r = panicked job_panic
  job_result (some info) id r = produced id r info

  -- `run_finished(output_info).unwrap()`
  unfoldable pub finish_job : p.NaiveDateTime → JobOutputInfo → Context p → System p
  unfolding run_finished
  finish_job now info c =
      let (res, c') = run_finished p now info c in
      record {
        context = c';
        worker = elim res [ ok _ ↦ polling | err e ↦ panicked (context_panic e) ];
      }

  -- What the server and the loop can do next. A handler runs whatever the loop is at.
  pub data Step : System p → System p → Type 0 where
    serve_new :
        (id : p.Uuid) (r : Request) (c : Context p) (w : Worker p)
        → Step
            (record { context = c; worker = w })
            (record { context = (new_run p id r c).1; worker = w })
    serve_start :
        (stopper : p.ServerStopper) (c : Context p) (w : Worker p)
        → Step
            (record { context = c; worker = w })
            (record { context = set_server_stopper p stopper c; worker = w })
    work_poll :
        (c : Context p)
        → Step (record { context = c; worker = polling }) (record { context = c; worker = poll c })
    -- `create_dir_all(job_result_dir)?` fails.
    work_dir_fails :
        (id : p.Uuid) (r : Request) (c : Context p)
        → Step
            (record { context = c; worker = claimed id r })
            (record { context = c; worker = exited })
    work_start :
        (now : p.NaiveDateTime) (id : p.Uuid) (r : Request) (c : Context p)
        → Step (record { context = c; worker = claimed id r }) (start_job now id r c)
    work_job :
        (result : Option JobOutputInfo) (id : p.Uuid) (r : Request) (c : Context p)
        → Step
            (record { context = c; worker = started id r })
            (record { context = c; worker = job_result result id r })
    work_finish :
        (now : p.NaiveDateTime) (id : p.Uuid) (r : Request) (info : JobOutputInfo) (c : Context p)
        → Step (record { context = c; worker = produced id r info }) (finish_job now info c)

  pub data Reach (s : System p) : System p → Type 0 where
    here : Reach s s
    followed_by : {t u : System p} → Reach s t → Step t u → Reach s u

module _ (p : Platform) where
  -- The service as `exec` starts it.
  unfoldable pub boot : Configuration → System p
  unfolding new
  boot config = record { context = new p config config.result_dir; worker = polling }
