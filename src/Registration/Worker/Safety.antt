-- ===== src/Registration/Worker/Safety.antt =====
-- The loop of registration-service/src/args/mod.rs never meets a state that it does not expect.
use vit_testing.Prelude.{◌≡◌, refl, ◌≢◌, ◌⊎◌, inl, inr, Option, none, some}
use mathlib.Core.Path.{ap₂, subst}
use vit_testing.Registration.Context.{
  Platform, Request, JobOutputInfo, Configuration, Error, State, Context, idle, request_to_start,
  running, finished, new_run, set_server_stopper, new,
}
use vit_testing.Registration.Context.Lifecycle.{IsFree}
use vit_testing.Registration.Worker.{
  context_panic, job_panic, Worker, polling, claimed, started, produced, exited, panicked, System,
  poll, start_job, job_result, finish_job, Step, serve_new, serve_start, work_poll, work_dir_fails,
  work_start, work_job, work_finish, Reach, here, followed_by, boot,
}

module _ {p : Platform} where
  abbrev NotRunning : State p → Type 0
  NotRunning (running _ _ _) = ⊥
  NotRunning _ = Unit

  abbrev Requested : p.Uuid → Request → State p → Type 0
  Requested id r (request_to_start id' r') = (id' ≡ id) × (r' ≡ r)
  Requested id r _ = ⊥

  abbrev Running : p.Uuid → Request → State p → Type 0
  Running id r (running id' _ r') = (id' ≡ id) × (r' ≡ r)
  Running id r _ = ⊥

  -- What the loop knows of the shared state, at each place.
  abbrev Agrees : Worker p → State p → Type 0
  Agrees polling s = NotRunning s
  Agrees (claimed id r) s = Requested id r s
  Agrees (started id r) s = Running id r s
  Agrees (produced id r info) s = Running id r s
  Agrees exited s = Unit
  Agrees (panicked (context_panic e)) s = ⊥
  Agrees (panicked job_panic) s = Unit

  abbrev pub InSync : System p → Type 0
  InSync s = Agrees s.worker s.context.state

  -- While no job is requested or running the loop expects nothing that a new request breaks.
  Agrees-free : (w : Worker p) (s t : State p) → IsFree s → NotRunning t → Agrees w s → Agrees w t
  Agrees-free polling s t f n h = n
  Agrees-free (claimed id r) idle t f n h = absurd h
  Agrees-free (claimed id r) (finished _ _ _ _ _) t f n h = absurd h
  Agrees-free (claimed id r) (request_to_start _ _) t f n h = absurd f
  Agrees-free (claimed id r) (running _ _ _) t f n h = absurd f
  Agrees-free (started id r) (running _ _ _) t f n h = absurd f
  Agrees-free (started id r) idle t f n h = absurd h
  Agrees-free (started id r) (finished _ _ _ _ _) t f n h = absurd h
  Agrees-free (started id r) (request_to_start _ _) t f n h = absurd f
  Agrees-free (produced id r _) (running _ _ _) t f n h = absurd f
  Agrees-free (produced id r _) idle t f n h = absurd h
  Agrees-free (produced id r _) (finished _ _ _ _ _) t f n h = absurd h
  Agrees-free (produced id r _) (request_to_start _ _) t f n h = absurd f
  Agrees-free exited s t f n h = tt
  Agrees-free (panicked (context_panic e)) s t f n h = h
  Agrees-free (panicked job_panic) s t f n h = tt

  new_run-Agrees :
      (id : p.Uuid) (r : Request) (w : Worker p) (s : State p) (c : Context p)
      → Agrees w s
      → Agrees w (new_run p id r (record c { state = s })).1.state
  unfolding new_run
  new_run-Agrees id r w idle c h = Agrees-free w idle (request_to_start id r) tt tt h
  new_run-Agrees id r w (finished a b d e f) c h =
      Agrees-free w (finished a b d e f) (request_to_start id r) tt tt h
  new_run-Agrees id r w (request_to_start _ _) c h = h
  new_run-Agrees id r w (running _ _ _) c h = h

  poll-Agrees :
      (s : State p) (c : Context p) → NotRunning s → Agrees (poll (record c { state = s })) s
  unfolding poll
  poll-Agrees idle c h = tt
  poll-Agrees (request_to_start id r) c h = (refl, refl)
  poll-Agrees (running _ _ _) c h = absurd h
  poll-Agrees (finished _ _ _ _ _) c h = tt

  start_job-InSync :
      (now : p.NaiveDateTime) (id : p.Uuid) (r : Request) (s : State p) (c : Context p)
      → Requested id r s
      → InSync (start_job now id r (record c { state = s }))
  unfolding start_job
  start_job-InSync now id r (request_to_start _ _) c h = h
  start_job-InSync now id r idle c h = absurd h
  start_job-InSync now id r (running _ _ _) c h = absurd h
  start_job-InSync now id r (finished _ _ _ _ _) c h = absurd h

  job_result-Agrees :
      (result : Option JobOutputInfo) (id : p.Uuid) (r : Request) (s : State p)
      → Running id r s
      → Agrees (job_result result id r) s
  unfolding job_result
  job_result-Agrees none id r s h = tt
  job_result-Agrees (some info) id r s h = h

  finish_job-InSync :
      (now : p.NaiveDateTime) (info : JobOutputInfo) (id : p.Uuid) (r : Request) (s : State p)
      (c : Context p)
      → Running id r s
      → InSync (finish_job now info (record c { state = s }))
  unfolding finish_job
  finish_job-InSync now info id r (running _ _ _) c h = tt
  finish_job-InSync now info id r idle c h = absurd h
  finish_job-InSync now info id r (request_to_start _ _) c h = absurd h
  finish_job-InSync now info id r (finished _ _ _ _ _) c h = absurd h

  Step-InSync : {s t : System p} → Step s t → InSync s → InSync t
  unfolding set_server_stopper
  Step-InSync (serve_new id r c w) h = new_run-Agrees id r w c.state c h
  Step-InSync (serve_start stopper c w) h = h
  Step-InSync (work_poll c) h = poll-Agrees c.state c h
  Step-InSync (work_dir_fails id r c) h = tt
  Step-InSync (work_start now id r c) h = start_job-InSync now id r c.state c h
  Step-InSync (work_job result id r c) h = job_result-Agrees result id r c.state h
  Step-InSync (work_finish now id r info c) h = finish_job-InSync now info id r c.state c h

  Reach-InSync : {s t : System p} → InSync s → Reach s t → InSync t
  Reach-InSync h here = h
  Reach-InSync h (followed_by r st) = Step-InSync st (Reach-InSync h r)

  Agrees-no_context_panic :
      (w : Worker p) (s : State p) (e : Error) → Agrees w s → w ≢ panicked (context_panic e)
  Agrees-no_context_panic (panicked (context_panic _)) s e h = λ _. h
  Agrees-no_context_panic polling s e h = λ q. cc
  Agrees-no_context_panic _ s e h = λ q. cc

  Running-running :
      (id : p.Uuid) (r : Request) (s : State p)
      → Running id r s
      → (start : p.NaiveDateTime) × (s ≡ running id start r)
  Running-running id r (running id' start r') h = (start, ap₂ (λ i q. running i start q) h.0 h.1)
  Running-running id r idle h = absurd h
  Running-running id r (request_to_start _ _) h = absurd h
  Running-running id r (finished _ _ _ _ _) h = absurd h

  -- The loop runs this job, or holds its output.
  abbrev pub Serves : Worker p → p.Uuid → Request → Type 0
  Serves w id r = (w ≡ started id r) ⊎ ((info : JobOutputInfo) × (w ≡ produced id r info))

  Serves-Agrees :
      (w : Worker p) (s : State p) (id : p.Uuid) (r : Request)
      → Agrees w s
      → Serves w id r
      → Running id r s
  Serves-Agrees w s id r h (inl e) = subst (λ v. Agrees v s) e h
  Serves-Agrees w s id r h (inr (info, e)) = subst (λ v. Agrees v s) e h

module _ (p : Platform) where
  boot-InSync : (config : Configuration) → InSync (boot p config)
  unfolding boot new
  boot-InSync config = tt

  -- From the start of the service, whatever requests come in between the steps of the loop, the
  -- loop's `unwrap` of `run_started` and of `run_finished` never panics.
  pub no_context_panic :
      (config : Configuration) (s : System p) (e : Error)
      → Reach (boot p config) s
      → s.worker ≢ panicked (context_panic e)
  no_context_panic config s e r =
      Agrees-no_context_panic s.worker s.context.state e (Reach-InSync (boot-InSync config) r)

  -- From the start of the service, from the loop's start of a job until it reports the output, the
  -- shared state says that this very job is running, with its own request.
  pub Serves-running :
      (config : Configuration) (s : System p) (id : p.Uuid) (r : Request)
      → Reach (boot p config) s
      → Serves s.worker id r
      → (start : p.NaiveDateTime) × (s.context.state ≡ running id start r)
  Serves-running config s id r reach w =
      Running-running id r s.context.state
        (Serves-Agrees s.worker s.context.state id r (Reach-InSync (boot-InSync config) reach) w)
