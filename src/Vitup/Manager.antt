-- ===== src/Vitup/Manager.antt =====
-- vitup/src/manager/context.rs and rest.rs, and the loop of vitup/src/scenario/network.rs that runs a
-- backend for them: they share a context behind a mutex. A step is what happens between two
-- releases of the mutex; what building and shutting down a backend gives is part of the step.
pub mod Sync
pub mod Rest
pub mod Routes
use vit_testing.Prelude.{
  ℕ, String, Bool, true, false, Option, none, some, List, [], ◌∷◌, if◌then◌else◌,
}

pub data State : Type 0 where
  idle stopping starting running : State

-- `Params` stands for `VitStartParameters`, which the manager passes on, and `Stopper` for the channel.
pub record ControlContext (Params Stopper : Type 0) : Type 0 where
  pub server_stopper : Option Stopper
  pub setup : Params
  pub address : List ℕ × ℕ
  pub working_directory : String
  pub state : State
  pub should_stop : Bool
  pub should_start : Bool
  pub api_token : Option String

-- What a client is told: the request is taken, or it is the wrong state, with the state to wait for.
pub data Answer : Type 0 where
  start_event_received stop_event_received : Answer
  wrong_state : State → State → Answer

module _ {Params Stopper : Type 0} where
  unfoldable pub new : String → Params → Option String → ControlContext Params Stopper
  new working_dir setup api_token = record {
    server_stopper = none;
    setup = setup;
    address = (0 ∷ 0 ∷ 0 ∷ 0 ∷ [], 3030);
    working_directory = working_dir;
    state = idle;
    should_stop = false;
    should_start = false;
    api_token = api_token;
  }

  unfoldable pub set_server_stopper :
      Stopper → ControlContext Params Stopper → ControlContext Params Stopper
  set_server_stopper stopper c = record c { server_stopper = some stopper }

  unfoldable pub set_parameters :
      Params → ControlContext Params Stopper → ControlContext Params Stopper
  set_parameters setup c = record c { setup = setup }

  unfoldable pub set_state : State → ControlContext Params Stopper → ControlContext Params Stopper
  set_state state c = record c { state = state }

  unfoldable pub start : ControlContext Params Stopper → ControlContext Params Stopper
  start c = record c { should_start = true }

  unfoldable pub stop : ControlContext Params Stopper → ControlContext Params Stopper
  stop c = record c { should_stop = true }

  unfoldable pub clear_requests : ControlContext Params Stopper → ControlContext Params Stopper
  clear_requests c = record c { should_start = false; should_stop = false }

  start_from : State → ControlContext Params Stopper → Answer × ControlContext Params Stopper
  unfolding start
  start_from idle c = (start_event_received, start c)
  start_from state c = (wrong_state state idle, c)

  unfoldable pub start_default_handler :
      ControlContext Params Stopper → Answer × ControlContext Params Stopper
  unfolding start_from
  start_default_handler c = start_from c.state c

  -- The parameters are set whatever the state.
  unfoldable pub start_handler :
      Params → ControlContext Params Stopper → Answer × ControlContext Params Stopper
  unfolding set_parameters start_from
  start_handler setup c = start_from c.state (set_parameters setup c)

  stop_from : State → ControlContext Params Stopper → Answer × ControlContext Params Stopper
  unfolding stop
  stop_from running c = (stop_event_received, stop c)
  stop_from state c = (wrong_state state running, c)

  unfoldable pub stop_handler :
      ControlContext Params Stopper → Answer × ControlContext Params Stopper
  unfolding stop_from
  stop_handler c = stop_from c.state c

-- Where the loop of `service_mode` and of the `single_run` in it stands, with the parameters that it
-- has read.
pub data Phase (Params : Type 0) : Type 0 where
  waiting claimed : Phase Params
  configured cleared building built serving told_to_stop shutting_down down : Params → Phase Params
  failed : Phase Params

-- A step of the loop that can fail ends it.
unfoldable pub or_failed : {Params : Type 0} → Bool → Phase Params → Phase Params
or_failed true phase = phase
or_failed false phase = failed

pub record System (Params Stopper : Type 0) : Type 0 where
  pub context : ControlContext Params Stopper
  pub phase : Phase Params

module _ {Params Stopper : Type 0} where
  -- `request_to_start`
  unfoldable pub poll : ControlContext Params Stopper → Phase Params
  poll c = if c.should_start then claimed else waiting

  -- `request_to_stop`
  unfoldable pub poll_stop : Params → ControlContext Params Stopper → Phase Params
  poll_stop q c = if c.should_stop then told_to_stop q else serving q

  abbrev at : ControlContext Params Stopper → Phase Params → System Params Stopper
  at c phase = record { context = c; phase = phase }

  -- What the server and the loop can do next. A handler runs whatever the loop is at.
  pub data Step : System Params Stopper → System Params Stopper → Type 0 where
    serve_start :
        (q : Params) (c : ControlContext Params Stopper) (f : Phase Params)
        → Step (at c f) (at (start_handler q c).1 f)
    serve_start_default :
        (c : ControlContext Params Stopper) (f : Phase Params)
        → Step (at c f) (at (start_default_handler c).1 f)
    serve_stop :
        (c : ControlContext Params Stopper) (f : Phase Params)
        → Step (at c f) (at (stop_handler c).1 f)
    serve_stopper :
        (t : Stopper) (c : ControlContext Params Stopper) (f : Phase Params)
        → Step (at c f) (at (set_server_stopper t c) f)
    work_poll : (c : ControlContext Params Stopper) → Step (at c waiting) (at c (poll c))
    -- The old directory is removed, or is not.
    work_setup :
        (removed : Bool) (c : ControlContext Params Stopper)
        → Step (at c claimed) (at c (or_failed removed (configured c.setup)))
    work_clear :
        (q : Params) (c : ControlContext Params Stopper)
        → Step (at c (configured q)) (at (clear_requests c) (cleared q))
    work_starting :
        (q : Params) (c : ControlContext Params Stopper)
        → Step (at c (cleared q)) (at (set_state starting c) (building q))
    work_build :
        (builds : Bool) (q : Params) (c : ControlContext Params Stopper)
        → Step (at c (building q)) (at c (or_failed builds (built q)))
    work_running :
        (q : Params) (c : ControlContext Params Stopper)
        → Step (at c (built q)) (at (set_state running c) (serving q))
    work_poll_stop :
        (q : Params) (c : ControlContext Params Stopper)
        → Step (at c (serving q)) (at c (poll_stop q c))
    work_stopping :
        (q : Params) (c : ControlContext Params Stopper)
        → Step (at c (told_to_stop q)) (at (set_state stopping c) (shutting_down q))
    work_shutdown :
        (shuts : Bool) (q : Params) (c : ControlContext Params Stopper)
        → Step (at c (shutting_down q)) (at c (or_failed shuts (down q)))
    work_idle :
        (q : Params) (c : ControlContext Params Stopper)
        → Step (at c (down q)) (at (set_state idle c) waiting)

  pub data Reach (s : System Params Stopper) : System Params Stopper → Type 0 where
    here : Reach s s
    followed_by : {t u : System Params Stopper} → Reach s t → Step t u → Reach s u

  -- The service as `service_mode` starts it.
  unfoldable pub boot : String → Params → Option String → System Params Stopper
  unfolding new
  boot working_dir setup api_token = at (new working_dir setup api_token) waiting
