-- ===== src/Mock/Context.antt =====
-- vitup/src/mock/context.rs, logger.rs and config.rs.
use vit_testing.Prelude.{ℕ, String, Option, some, Bool, List, [], ◌∷◌, ◌++◌, map, Result, ok, err}
use vit_testing.Prelude.Int.{ℤ}
use vit_testing.Mock.Chain.{Chain}
use vit_testing.Mock.Run.{Run, returns, panics, ◌>>=◌}
use vit_testing.Mock.State
use vit_testing.Mock.State.{MockState, VitVersion, Backend}

pub record Configuration : Type 0 where
  pub port : ℕ
  pub token : Option String
  pub ideascale : Bool
  pub working_dir : String

-- A piece of a message that the mock formats.
pub data Part : Type 0 where
  text : String → Part
  int : ℤ → Part

abbrev pub Message : Type 0
Message = List Part

-- Timestamps are in nanoseconds.
pub record LogEntry : Type 0 where
  pub timestamp : ℕ
  pub message : Message

pub record Logger : Type 0 where
  pub entries : List LogEntry

pub record SocketAddr : Type 0 where
  pub ip : List ℕ
  pub port : ℕ

pub record Context (c : Chain) (Rest : Type 0) : Type 0 where
  pub config : Configuration
  pub address : SocketAddr
  pub state : MockState c Rest
  pub logger : Logger

-- `Logger::log`; `now` is what `SystemTime::now()` gave.
unfoldable pub push_log : ℕ → Message → Logger → Logger
push_log now message l = record {
  entries = l.entries ++ record { timestamp = now; message = message } ∷ [];
}

-- `Logger::logs`; the date's format is that of chrono.
unfoldable pub format_logs : (LogEntry → String) → Logger → List String
format_logs format l = map format l.entries

module _ {c : Chain} {Rest : Type 0} where
  -- `unwrap` of the new mock state.
  unwrap_state : Run (Result (State.Error c) (MockState c Rest)) → Run (MockState c Rest)
  unwrap_state m = m >>= λ r. elim r [ ok s ↦ returns s | err _ ↦ panics ]

  unfoldable pub new : Configuration → Bool → Option (Backend c Rest) → ℕ → Run (Context c Rest)
  unfolding unwrap_state
  new config removed built start = do
    state ← unwrap_state (State.new removed built start)
    returns (record {
      config = config;
      address = record { ip = 0 ∷ 0 ∷ 0 ∷ 0 ∷ []; port = config.port };
      state = state;
      logger = record { entries = [] };
    })

  unfoldable pub log : ℕ → Message → Context c Rest → Context c Rest
  unfolding push_log
  log now message x = record x { logger = push_log now message x.logger }

  unfoldable pub clear_logs : Context c Rest → Context c Rest
  clear_logs x = record x { logger = record { entries = [] } }

  unfoldable pub reset : Bool → Option (Backend c Rest) → ℕ → Context c Rest → Run (Context c Rest)
  unfolding unwrap_state
  reset removed built start x = do
    state ← unwrap_state (State.new removed built start)
    returns (record x { state = state })

  unfoldable pub set_api_token : String → Context c Rest → Context c Rest
  set_api_token api_token x = record x { config = record x.config { token = some api_token } }
