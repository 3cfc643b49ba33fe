-- ===== src/Snapshot/Worker/Reports.antt =====
-- The loop of snapshot-trigger-service/src/args/mod.rs never meets a state that it does not expect,
-- and what it writes to the folder of a job.
use mathlib.Core.Logic.{if_pos}
use vit_testing.Prelude.{◌≡◌, refl, Bool, true, false, Option, none, some, List, All}
use vit_testing.Snapshot.Context.{
  Platform, JobParameters, Configuration, State, Context, idle, request_to_start, running, finished,
  new_run, set_server_stopper, new,
}
use vit_testing.Snapshot.Worker.{
  context_panic, spawn_panic, wait_panic, dir_exit, persist_exit, context_exit, Worker, polling,
  claimed, spawned, started, waited, reporting, persisting, exited, panicked, System, poll,
  spawn_child, start_job, wait_child, finish_job, read_status, persist_status, Step, serve_new,
  serve_start, work_poll, work_dir_fails, work_spawn, work_start, work_wait, work_finish,
  work_report, work_persist, Reach, here, followed_by, boot, spawn,
}
use vit_testing.Snapshot.Command.{Command, spawn_command}

module _ {p : Platform} where
  -- Neither requested nor running.
  abbrev IsFree : State p → Type 0
  IsFree idle = Unit
  IsFree (finished _ _ _ _) = Unit
  IsFree _ = ⊥

  abbrev NotRunning : State p → Type 0
  NotRunning (running _ _ _) = ⊥
  NotRunning _ = Unit

  abbrev Requested : p.Uuid → State p → Type 0
  Requested id (request_to_start id' _) = id' ≡ id
  Requested id _ = ⊥

  abbrev Running : p.Uuid → State p → Type 0
  Running id (running id' _ _) = id' ≡ id
  Running id _ = ⊥

  -- The end of this job, or a request that came after it.
  abbrev pub IsReport : p.Uuid → State p → Type 0
  IsReport id (finished id' _ _ _) = id' ≡ id
  IsReport id (request_to_start _ _) = Unit
  IsReport id _ = ⊥

  -- What the loop knows of the shared state, at each place.
  abbrev Agrees : Worker p → State p → Type 0
  Agrees polling s = NotRunning s
  Agrees (claimed id r) s = Requested id s
  Agrees (spawned id r) s = Requested id s
  Agrees (started id r) s = Running id s
  Agrees (waited id r) s = Running id s
  Agrees (reporting id) s = IsReport id s
  Agrees (persisting id state) s = IsReport id state × NotRunning s
  Agrees (exited (context_exit e)) s = ⊥
  Agrees (exited _) s = Unit
  Agrees (panicked (context_panic e)) s = ⊥
  Agrees (panicked _) s = Unit

  abbrev pub AreReports : List (p.Uuid × State p) → Type 0
  AreReports = All (λ f. IsReport f.0 f.1)

  abbrev InSync : System p → Type 0
  InSync s = Agrees s.worker s.context.state × AreReports s.reports

  -- While no job is requested or running the loop expects nothing that a new request breaks.
  Agrees-free :
      (w : Worker p) (s : State p) (id : p.Uuid) (r : JobParameters)
      → IsFree s
      → Agrees w s
      → Agrees w (request_to_start id r)
  Agrees-free polling s id r f h = tt
  Agrees-free (reporting _) s id r f h = tt
  Agrees-free (persisting _ _) s id r f h = (h.0, tt)
  Agrees-free (exited (context_exit _)) s id r f h = h
  Agrees-free (exited dir_exit) s id r f h = tt
  Agrees-free (exited persist_exit) s id r f h = tt
  Agrees-free (panicked (context_panic _)) s id r f h = h
  Agrees-free (panicked spawn_panic) s id r f h = tt
  Agrees-free (panicked wait_panic) s id r f h = tt
  Agrees-free (claimed _ _) idle id r f h = absurd h
  Agrees-free (claimed _ _) (finished _ _ _ _) id r f h = absurd h
  Agrees-free (claimed _ _) (request_to_start _ _) id r f h = absurd f
  Agrees-free (claimed _ _) (running _ _ _) id r f h = absurd f
  Agrees-free (spawned _ _) idle id r f h = absurd h
  Agrees-free (spawned _ _) (finished _ _ _ _) id r f h = absurd h
  Agrees-free (spawned _ _) (request_to_start _ _) id r f h = absurd f
  Agrees-free (spawned _ _) (running _ _ _) id r f h = absurd f
  Agrees-free (started _ _) idle id r f h = absurd h
  Agrees-free (started _ _) (finished _ _ _ _) id r f h = absurd h
  Agrees-free (started _ _) (request_to_start _ _) id r f h = absurd f
  Agrees-free (started _ _) (running _ _ _) id r f h = absurd f
  Agrees-free (waited _ _) idle id r f h = absurd h
  Agrees-free (waited _ _) (finished _ _ _ _) id r f h = absurd h
  Agrees-free (waited _ _) (request_to_start _ _) id r f h = absurd f
  Agrees-free (waited _ _) (running _ _ _) id r f h = absurd f

  new_run-Agrees :
      (id : p.Uuid) (r : JobParameters) (w : Worker p) (s : State p) (c : Context p)
      → Agrees w s
      → Agrees w (new_run p id r (record c { state = s })).1.state
  unfolding new_run
  new_run-Agrees id r w idle c h = Agrees-free w idle id r tt h
  new_run-Agrees id r w (finished a b d e) c h = Agrees-free w (finished a b d e) id r tt h
  new_run-Agrees id r w (request_to_start _ _) c h = h
  new_run-Agrees id r w (running _ _ _) c h = h

  poll-Agrees :
      (s : State p) (c : Context p) → NotRunning s → Agrees (poll (record c { state = s })) s
  unfolding poll
  poll-Agrees idle c h = tt
  poll-Agrees (request_to_start id r) c h = refl
  poll-Agrees (running _ _ _) c h = absurd h
  poll-Agrees (finished _ _ _ _) c h = tt

  spawn-Agrees :
      (k : Option Command) (b : Bool) (id : p.Uuid) (r : JobParameters) (s : State p)
      → Requested id s
      → Agrees (spawn k b id r) s
  unfolding spawn
  spawn-Agrees none b id r s h = tt
  spawn-Agrees (some k) false id r s h = tt
  spawn-Agrees (some k) true id r s h = h

  spawn_child-Agrees :
      (config : Configuration) (b : Bool) (id : p.Uuid) (r : JobParameters) (s : State p)
      → Requested id s
      → Agrees (spawn_child config b id r) s
  unfolding spawn_child
  spawn_child-Agrees config b id r s h =
      spawn-Agrees (spawn_command config (p.uuid_to_string id) r) b id r s h

  start_job-InSync :
      (now : p.NaiveDateTime) (id : p.Uuid) (r : JobParameters) (s : State p) (c : Context p)
      (files : List (p.Uuid × State p))
      → Requested id s
      → AreReports files
      → InSync (start_job now id r (record c { state = s }) files)
  unfolding start_job
  start_job-InSync now id r (request_to_start _ _) c files h a = (h, a)
  start_job-InSync now id r idle c files h a = absurd h
  start_job-InSync now id r (running _ _ _) c files h a = absurd h
  start_job-InSync now id r (finished _ _ _ _) c files h a = absurd h

  wait_child-Agrees :
      (b : Bool) (id : p.Uuid) (r : JobParameters) (s : State p)
      → Running id s
      → Agrees (wait_child b id r) s
  unfolding wait_child
  wait_child-Agrees true id r s h = h
  wait_child-Agrees false id r s h = tt

  finish_job-InSync :
      (now : p.NaiveDateTime) (id : p.Uuid) (s : State p) (c : Context p)
      (files : List (p.Uuid × State p))
      → Running id s
      → AreReports files
      → InSync (finish_job now id (record c { state = s }) files)
  unfolding finish_job
  finish_job-InSync now id (running _ _ _) c files h a = (h, a)
  finish_job-InSync now id idle c files h a = absurd h
  finish_job-InSync now id (request_to_start _ _) c files h a = absurd h
  finish_job-InSync now id (finished _ _ _ _) c files h a = absurd h

  -- The state of this job, or of a later request, is found whichever it is.
  read_status-Agrees :
      (id : p.Uuid) (s : State p) (c : Context p)
      → IsReport id s
      → Agrees (read_status id (record c { state = s })) s
  unfolding read_status
  read_status-Agrees id (request_to_start a r) c h = (tt, tt)
  read_status-Agrees id (finished a t u r) c h =
      rw (if_pos (p.uuid_discrete a id) h, read_status) ((h, tt))
  read_status-Agrees id idle c h = absurd h
  read_status-Agrees id (running _ _ _) c h = absurd h

  persist_status-InSync :
      (b : Bool) (id : p.Uuid) (state : State p) (c : Context p) (files : List (p.Uuid × State p))
      → IsReport id state
      → NotRunning c.state
      → AreReports files
      → InSync (persist_status b id state c files)
  unfolding persist_status
  persist_status-InSync true id state c files h n a = (n, (h, a))
  persist_status-InSync false id state c files h n a = (tt, a)

  Step-InSync : {s t : System p} → Step s t → InSync s → InSync t
  unfolding set_server_stopper
  Step-InSync (serve_new id r c w files) h = (new_run-Agrees id r w c.state c h.0, h.1)
  Step-InSync (serve_start stopper c w files) h = h
  Step-InSync (work_poll c files) h = (poll-Agrees c.state c h.0, h.1)
  Step-InSync (work_dir_fails id r c files) h = (tt, h.1)
  Step-InSync (work_spawn b id r c files) h = (spawn_child-Agrees c.config b id r c.state h.0, h.1)
  Step-InSync (work_start now id r c files) h = start_job-InSync now id r c.state c files h.0 h.1
  Step-InSync (work_wait b id r c files) h = (wait_child-Agrees b id r c.state h.0, h.1)
  Step-InSync (work_finish now id r c files) h = finish_job-InSync now id c.state c files h.0 h.1
  Step-InSync (work_report id c files) h = (read_status-Agrees id c.state c h.0, h.1)
  Step-InSync (work_persist b id state c files) h =
      persist_status-InSync b id state c files h.0.0 h.0.1 h.1

  Reach-InSync : {s t : System p} → InSync s → Reach s t → InSync t
  Reach-InSync h here = h
  Reach-InSync h (followed_by r st) = Step-InSync st (Reach-InSync h r)

  -- The loop met a state that it does not expect.
  abbrev pub IsSurprised : Worker p → Type 0
  IsSurprised (exited (context_exit _)) = Unit {0}
  IsSurprised (panicked (context_panic _)) = Unit {0}
  IsSurprised _ = ⊥

  Agrees-expected : (w : Worker p) (s : State p) → Agrees w s → ¬ IsSurprised w
  Agrees-expected (exited (context_exit _)) s h u = h
  Agrees-expected (panicked (context_panic _)) s h u = h
  Agrees-expected (exited dir_exit) s h u = u
  Agrees-expected (exited persist_exit) s h u = u
  Agrees-expected (panicked spawn_panic) s h u = u
  Agrees-expected (panicked wait_panic) s h u = u
  Agrees-expected polling s h u = u
  Agrees-expected (claimed _ _) s h u = u
  Agrees-expected (spawned _ _) s h u = u
  Agrees-expected (started _ _) s h u = u
  Agrees-expected (waited _ _) s h u = u
  Agrees-expected (reporting _) s h u = u
  Agrees-expected (persisting _ _) s h u = u

module _ (p : Platform) where
  boot-InSync : (config : Configuration) → InSync (boot p config)
  unfolding boot new
  boot-InSync config = (tt, tt)

  -- From the start of the service, whatever requests come in between the steps of the loop, neither
  -- an `unwrap` of the loop panics on an error of the context nor does the loop end with one, also
  -- where it asks for the status of the job that it has finished.
  pub no_context_error :
      (config : Configuration) (s : System p) → Reach (boot p config) s → ¬ IsSurprised s.worker
  no_context_error config s r =
      Agrees-expected s.worker s.context.state (Reach-InSync (boot-InSync config) r).0

  -- From the start of the service, whatever requests come in between the steps of the loop, the
  -- status written to the folder of a job is the end of that job or a request that waits to be
  -- started.
  pub reports-AreReports :
      (config : Configuration) (s : System p) → Reach (boot p config) s → AreReports s.reports
  reports-AreReports config s r = (Reach-InSync (boot-InSync config) r).1
