-- ===== src/Vitup/Manager/Sync.antt =====
-- The context of vitup/src/manager/context.rs and the loop of vitup/src/scenario/network.rs keep step.
use vit_testing.Prelude.{String, Bool, true, false, ◌≡◌, ◌≢◌, refl, Option}
use vit_testing.Vitup.Manager.{
  State, idle, stopping, starting, running, ControlContext, Phase, waiting, claimed, configured,
  cleared, building, built, serving, told_to_stop, shutting_down, down, failed, System, Step,
  serve_start, serve_start_default, serve_stop, serve_stopper, work_poll, work_setup, work_clear,
  work_starting, work_build, work_running, work_poll_stop, work_stopping, work_shutdown, work_idle,
  Reach, here, followed_by, boot, new, start_handler, start_default_handler, stop_handler,
  set_server_stopper, set_state, clear_requests, poll, poll_stop, or_failed, start_from, stop_from,
}

module _ {Params : Type 0} where
  -- The state that a client is shown while the loop is there.
  unfoldable pub state_of : Phase Params → State
  state_of waiting = idle
  state_of claimed = idle
  state_of (configured _) = idle
  state_of (cleared _) = idle
  state_of (building _) = starting
  state_of (built _) = starting
  state_of (serving _) = running
  state_of (told_to_stop _) = running
  state_of (shutting_down _) = stopping
  state_of (down _) = stopping
  state_of failed = idle

  -- The loop is on its way to a backend that runs, and has cleared the requests.
  abbrev pub IsStarting : Phase Params → Type 0
  IsStarting (cleared _) = Unit
  IsStarting (building _) = Unit
  IsStarting (built _) = Unit
  IsStarting _ = ⊥

  abbrev Shows : Phase Params → State → Type 0
  Shows failed state = Unit
  Shows f state = state ≡ state_of f

  abbrev Agrees : Phase Params → State → Bool → Type 0
  Agrees f state should_stop = Shows f state × (IsStarting f → should_stop ≡ false)

  -- No phase on the way to a backend shows the state in which a stop is taken.
  IsStarting-state : (f : Phase Params) → IsStarting f → Shows f running → ⊥
  unfolding state_of
  IsStarting-state (cleared _) i e = cc
  IsStarting-state (building _) i e = cc
  IsStarting-state (built _) i e = cc
  IsStarting-state waiting i e = i
  IsStarting-state claimed i e = i
  IsStarting-state (configured _) i e = i
  IsStarting-state (serving _) i e = i
  IsStarting-state (told_to_stop _) i e = i
  IsStarting-state (shutting_down _) i e = i
  IsStarting-state (down _) i e = i
  IsStarting-state failed i e = i

  Shows-state : (f : Phase Params) (state : State) → Shows f state → f ≢ failed → state ≡ state_of f
  Shows-state failed state h n = absurd (n refl)
  Shows-state waiting state h n = h
  Shows-state claimed state h n = h
  Shows-state (configured _) state h n = h
  Shows-state (cleared _) state h n = h
  Shows-state (building _) state h n = h
  Shows-state (built _) state h n = h
  Shows-state (serving _) state h n = h
  Shows-state (told_to_stop _) state h n = h
  Shows-state (shutting_down _) state h n = h
  Shows-state (down _) state h n = h

  or_failed-Agrees :
      (b : Bool) (f : Phase Params) (state : State) (should_stop : Bool)
      → Agrees f state should_stop
      → Agrees (or_failed b f) state should_stop
  unfolding or_failed
  or_failed-Agrees true f state should_stop h = h
  or_failed-Agrees false f state should_stop h = (tt, λ i. absurd i)

module _ {Params Stopper : Type 0} where
  abbrev InSync : System Params Stopper → Type 0
  InSync s = Agrees s.phase s.context.state s.context.should_stop

  start_from-Agrees :
      (f : Phase Params) (state : State) (c : ControlContext Params Stopper)
      → Agrees f c.state c.should_stop
      → Agrees f (start_from state c).1.state (start_from state c).1.should_stop
  unfolding start_from
  start_from-Agrees f idle c h = h
  start_from-Agrees f stopping c h = h
  start_from-Agrees f starting c h = h
  start_from-Agrees f running c h = h

  stop_from-Agrees :
      (f : Phase Params) (state : State) (c : ControlContext Params Stopper)
      → Agrees f state c.should_stop
      → InSync (record { context = (stop_from state (record c { state = state })).1; phase = f })
  unfolding stop_from
  stop_from-Agrees f idle c h = h
  stop_from-Agrees f stopping c h = h
  stop_from-Agrees f starting c h = h
  stop_from-Agrees f running c h = (h.0, λ i. absurd (IsStarting-state f i h.0))

  poll-Agrees :
      (b : Bool) (c : ControlContext Params Stopper)
      → Agrees {Params = Params} waiting c.state c.should_stop
      → Agrees (poll (record c { should_start = b })) c.state c.should_stop
  unfolding state_of poll
  poll-Agrees true c h = (h.0, λ i. absurd i)
  poll-Agrees false c h = h

  poll_stop-Agrees :
      (b : Bool) (q : Params) (c : ControlContext Params Stopper)
      → Shows (serving q) c.state
      → Agrees (poll_stop q (record c { should_stop = b })) c.state b
  unfolding state_of poll_stop
  poll_stop-Agrees true q c h = (h, λ i. absurd i)
  poll_stop-Agrees false q c h = (h, λ i. absurd i)

  Step-InSync : {s t : System Params Stopper} → Step s t → InSync s → InSync t
  unfolding start_handler start_default_handler stop_handler set_server_stopper clear_requests
      set_state state_of
  Step-InSync (serve_start q c f) h = start_from-Agrees f c.state _ h
  Step-InSync (serve_start_default c f) h = start_from-Agrees f c.state c h
  Step-InSync (serve_stop c f) h = stop_from-Agrees f c.state c h
  Step-InSync (serve_stopper t c f) h = h
  Step-InSync (work_poll c) h = poll-Agrees c.should_start c h
  Step-InSync (work_setup b c) h =
      or_failed-Agrees b (configured c.setup) c.state c.should_stop (h.0, λ i. absurd i)
  Step-InSync (work_clear q c) h = (h.0, λ i. refl)
  Step-InSync (work_starting q c) h = (refl, h.1)
  Step-InSync (work_build b q c) h = or_failed-Agrees b (built q) c.state c.should_stop h
  Step-InSync (work_running q c) h = (refl, λ i. absurd i)
  Step-InSync (work_poll_stop q c) h = poll_stop-Agrees c.should_stop q c h.0
  Step-InSync (work_stopping q c) h = (refl, λ i. absurd i)
  Step-InSync (work_shutdown b q c) h = or_failed-Agrees b (down q) c.state c.should_stop h
  Step-InSync (work_idle q c) h = (refl, λ i. absurd i)

  Reach-InSync : {s t : System Params Stopper} → InSync s → Reach s t → InSync t
  Reach-InSync h here = h
  Reach-InSync h (followed_by r st) = Step-InSync st (Reach-InSync h r)

module _ {Params : Type 0} (Stopper : Type 0) where
  boot-InSync :
      (dir : String) (setup : Params) (token : Option String)
      → InSync {Stopper = Stopper} (boot dir setup token)
  unfolding boot new state_of
  boot-InSync dir setup token = (refl, λ i. absurd i)

module _ {Params Stopper : Type 0} where
  -- From the start of the service, whatever requests come in between the steps of the loop, a client
  -- is shown the state that the loop is in, unless the loop has failed.
  pub boot-state_of :
      (dir : String) (setup : Params) (token : Option String) (s : System Params Stopper)
      → Reach (boot dir setup token) s
      → s.phase ≢ failed
      → s.context.state ≡ state_of s.phase
  boot-state_of dir setup token s r =
      Shows-state s.phase s.context.state (Reach-InSync (boot-InSync Stopper dir setup token) r).0

  -- From the start of the service, whatever requests come in between the steps of the loop, a
  -- backend comes up with no request to stop: an old one is cleared, and until the backend runs no
  -- new one is taken.
  pub boot-IsStarting :
      (dir : String) (setup : Params) (token : Option String) (s : System Params Stopper)
      → Reach (boot dir setup token) s
      → IsStarting s.phase
      → s.context.should_stop ≡ false
  boot-IsStarting dir setup token s r = (Reach-InSync (boot-InSync Stopper dir setup token) r).1
