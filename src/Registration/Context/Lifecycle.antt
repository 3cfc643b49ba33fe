-- ===== src/Registration/Context/Lifecycle.antt =====
-- The life of a job, as the methods of registration-service/src/context.rs let it go.
use vit_testing.Prelude.{
  ◌≡◌, refl, ◌≢◌, Option, none, some, List, [], ◌∷◌, ◌++◌, Result, ok, err, map, ap, ◌∙◌,
}
use vit_testing.Registration.Context.{
  Platform, Request, JobOutputInfo, Error, State, Context, idle, request_to_start, running,
  finished, new_run, run_started, run_finished,
}

-- The calls that can change the state of a job, with what the platform supplies to each.
pub data Call (p : Platform) : Type 0 where
  new_run_call : p.Uuid → Request → Call p
  run_started_call : p.NaiveDateTime → Call p
  run_finished_call : p.NaiveDateTime → JobOutputInfo → Call p

module _ {p : Platform} where
  -- Drops the value of a result.
  abbrev outcome : {A : Type 0} → Result Error A × Context p → Option Error × Context p
  outcome (ok _, c) = (none, c)
  outcome (err e, c) = (some e, c)

  unfoldable pub call : Call p → Context p → Option Error × Context p
  unfolding new_run run_started run_finished
  call (new_run_call id request) c = outcome (new_run p id request c)
  call (run_started_call now) c = outcome (run_started p now c)
  call (run_finished_call now info) c = outcome (run_finished p now info c)

  -- The diagram of the states: what each call needs, and what it makes of the job.
  pub data Edge : State p → Call p → State p → Type 0 where
    first_run : (id : p.Uuid) (r : Request) → Edge idle (new_run_call id r) (request_to_start id r)
    next_run :
        (old : p.Uuid) (start end : p.NaiveDateTime) (was : Request) (info : JobOutputInfo)
        (id : p.Uuid) (r : Request)
        → Edge (finished old start end was info) (new_run_call id r) (request_to_start id r)
    begin :
        (id : p.Uuid) (r : Request) (now : p.NaiveDateTime)
        → Edge (request_to_start id r) (run_started_call now) (running id now r)
    finish :
        (id : p.Uuid) (r : Request) (start now : p.NaiveDateTime) (info : JobOutputInfo)
        → Edge (running id start r) (run_finished_call now info) (finished id start now r info)

  -- The two ways in which a call can end.
  pub data Ends (k : Call p) (c : Context p) : Type 0 where
    accepted :
        (call k c).0 ≡ none
        → Edge c.state k (call k c).1.state
        → (call k c).1 ≡ record c { state = (call k c).1.state }
        → Ends k c
    refused :
        (call k c).0 ≢ none → ((s : State p) → ¬ Edge c.state k s) → (call k c).1 ≡ c → Ends k c

  Ends-at : (k : Call p) (s : State p) (c : Context p) → Ends k (record c { state = s })
  unfolding call
  Ends-at (new_run_call id r) idle c = accepted refl (first_run id r) refl
  Ends-at (new_run_call id r) (request_to_start _ _) c = refused (λ e. cc) (λ s. elim [ ]) refl
  Ends-at (new_run_call id r) (running _ _ _) c = refused (λ e. cc) (λ s. elim [ ]) refl
  Ends-at (new_run_call id r) (finished old start end was info) c =
      accepted refl (next_run old start end was info id r) refl
  Ends-at (run_started_call now) (request_to_start id r) c = accepted refl (begin id r now) refl
  Ends-at (run_started_call now) idle c = refused (λ e. cc) (λ s. elim [ ]) refl
  Ends-at (run_started_call now) (running _ _ _) c = refused (λ e. cc) (λ s. elim [ ]) refl
  Ends-at (run_started_call now) (finished _ _ _ _ _) c = refused (λ e. cc) (λ s. elim [ ]) refl
  Ends-at (run_finished_call now info) (running id start r) c =
      accepted refl (finish id r start now info) refl
  Ends-at (run_finished_call now info) idle c = refused (λ e. cc) (λ s. elim [ ]) refl
  Ends-at (run_finished_call now info) (request_to_start _ _) c =
      refused (λ e. cc) (λ s. elim [ ]) refl
  Ends-at (run_finished_call now info) (finished _ _ _ _ _) c =
      refused (λ e. cc) (λ s. elim [ ]) refl

  -- An accepted call follows the edge of the diagram and leaves the rest of the context alone; a
  -- refused call has no edge to follow and changes nothing.
  pub call-Ends : (k : Call p) (c : Context p) → Ends k c
  call-Ends k c = Ends-at k c.state c

  -- A batch of calls, each made whatever became of the one before.
  pub calls : List (Call p) → Context p → Context p
  calls [] c = c
  calls (k ∷ ks) c = calls ks (call k c).1

  calls-append :
      (ks ls : List (Call p)) (c : Context p) → calls (ks ++ ls) c ≡ calls ls (calls ks c)
  unfolding calls
  calls-append [] ls c = refl
  calls-append (k ∷ ks) ls c = calls-append ks ls (call k c).1

  -- Requests that arrive while others are served.
  abbrev pub requests : List (p.Uuid × Request) → List (Call p)
  requests = map (λ q. new_run_call q.0 q.1)

  requested_keeps :
      (qs : List (p.Uuid × Request)) (id : p.Uuid) (r : Request) (c : Context p)
      → calls (requests qs) (record c { state = request_to_start id r })
        ≡ record c { state = request_to_start id r }
  unfolding calls call
  requested_keeps [] id r c = refl
  requested_keeps (q ∷ qs) id r c = requested_keeps qs id r c

  running_keeps :
      (qs : List (p.Uuid × Request)) (id : p.Uuid) (t : p.NaiveDateTime) (r : Request)
      (c : Context p)
      → calls (requests qs) (record c { state = running id t r })
        ≡ record c { state = running id t r }
  unfolding calls call
  running_keeps [] id t r c = refl
  running_keeps (q ∷ qs) id t r c = running_keeps qs id t r c

  -- Neither requested nor running.
  abbrev pub IsFree : State p → Type 0
  IsFree idle = Unit
  IsFree (finished _ _ _ _ _) = Unit
  IsFree _ = ⊥

  call-new_run :
      (s : State p) (id : p.Uuid) (r : Request) (c : Context p)
      → IsFree s
      → (call (new_run_call id r) (record c { state = s })).1
        ≡ record c { state = request_to_start id r }
  unfolding call
  call-new_run idle id r c h = refl
  call-new_run (finished _ _ _ _ _) id r c h = refl
  call-new_run (request_to_start _ _) id r c h = absurd h
  call-new_run (running _ _ _) id r c h = absurd h

  -- No request overtakes a job: whatever requests come in before the job is started and before it
  -- is finished, from a context with no job requested or running the job that ends is the one
  -- first requested, with its own request, times and output, and nothing else of the context has
  -- changed.
  pub calls-first_request :
      (id : p.Uuid) (r : Request) (t u : p.NaiveDateTime) (info : JobOutputInfo)
      (before during : List (p.Uuid × Request)) (c : Context p)
      → IsFree c.state
      → calls
          (new_run_call id r
            ∷ (requests before
                ++ (run_started_call t ∷ (requests during ++ (run_finished_call u info ∷ [])))))
          c
        ≡ record c { state = finished id t u r info }
  unfolding calls
  calls-first_request id r t u info before during c h =
      ap (calls (requests before ++ served)) (call-new_run c.state id r c h)
      ∙ calls-append (requests before) served (record c { state = request_to_start id r })
      ∙ ap (calls served) (requested_keeps before id r c)
      ∙ (unfold call in
          calls-append (requests during) last (record c { state = running id t r })
          ∙ ap (calls last) (running_keeps during id t r c))
    where
      last : List (Call p)
      last = run_finished_call u info ∷ []

      served : List (Call p)
      served = run_started_call t ∷ (requests during ++ last)
