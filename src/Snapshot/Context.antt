-- ===== src/Snapshot/Context.antt =====
-- snapshot-trigger-service/src/context.rs and config/: the shared state of the service and its
-- configuration. The caller of a method holds the mutex.
use mathlib.Core.Logic.{ite}
use vit_testing.Prelude.{ℕ, String, Option, none, some, List, [], ◌∷◌, Result, ok, err}

-- What the uuid and chrono crates and the channel of the server give.
pub record Platform : Type 1 where
  pub Uuid : Type 0
  pub uuid_discrete : Discrete Uuid
  pub uuid_to_string : Uuid → String
  pub NaiveDateTime : Type 0
  pub ServerStopper : Type 0

pub record JobParameters : Type 0 where
  pub slot_no : Option ℕ  -- u64
  pub threshold : ℕ  -- u64

pub data NetworkType : Type 0 where
  mainnet : NetworkType
  testnet : ℕ → NetworkType

pub record VotingToolsParams : Type 0 where
  pub bin : Option String
  pub nix_branch : Option String
  pub network : NetworkType
  pub db : String
  pub db_user : String
  pub db_host : String
  pub scale : ℕ  -- u32

-- A path is the text that names it.
pub record Configuration : Type 0 where
  pub port : ℕ  -- u16
  pub voting_tools : VotingToolsParams
  pub result_dir : String
  pub token : Option String

pub record SocketAddr : Type 0 where
  pub ip : List ℕ
  pub port : ℕ

pub data Error : Type 0 where
  snaphot_in_progress snaphot_not_started no_request_to_start job_not_found no_job_run : Error

pub data State (p : Platform) : Type 0 where
  idle : State p
  request_to_start : p.Uuid → JobParameters → State p
  running : p.Uuid → p.NaiveDateTime → JobParameters → State p
  finished : p.Uuid → p.NaiveDateTime → p.NaiveDateTime → JobParameters → State p

pub record Context (p : Platform) : Type 0 where
  pub server_stopper : Option p.ServerStopper
  pub config : Configuration
  pub working_dir : String
  pub address : SocketAddr
  pub state : State p

module _ (p : Platform) where
  open p use {Uuid, uuid_discrete, NaiveDateTime, ServerStopper}

  unfoldable pub new : Configuration → String → Context p
  new config working_dir = record {
    server_stopper = none;
    config = config;
    working_dir = working_dir;
    address = record { ip = 0 ∷ 0 ∷ 0 ∷ 0 ∷ []; port = config.port };
    state = idle;
  }

  unfoldable pub set_server_stopper : ServerStopper → Context p → Context p
  set_server_stopper stopper c = record c { server_stopper = some stopper }

  -- `id` is what `Uuid::new_v4()` returned.
  new_run_from : State p → Uuid → JobParameters → Context p → Result Error Uuid × Context p
  new_run_from idle id parameters c = (ok id, record c { state = request_to_start id parameters })
  new_run_from (finished _ _ _ _) id parameters c =
      (ok id, record c { state = request_to_start id parameters })
  new_run_from _ id parameters c = (err snaphot_in_progress, c)

  unfoldable pub new_run : Uuid → JobParameters → Context p → Result Error Uuid × Context p
  unfolding new_run_from
  new_run id parameters c = new_run_from c.state id parameters c

  -- `now` is what `Utc::now()` returned.
  run_started_from : State p → NaiveDateTime → Context p → Result Error (Unit {0}) × Context p
  run_started_from (request_to_start id parameters) now c =
      (ok tt, record c { state = running id now parameters })
  run_started_from _ now c = (err no_request_to_start, c)

  unfoldable pub run_started : NaiveDateTime → Context p → Result Error (Unit {0}) × Context p
  unfolding run_started_from
  run_started now c = run_started_from c.state now c

  run_finished_from : State p → NaiveDateTime → Context p → Result Error (Unit {0}) × Context p
  run_finished_from (running id start parameters) now c =
      (ok tt, record c { state = finished id start now parameters })
  run_finished_from _ now c = (err snaphot_not_started, c)

  unfoldable pub run_finished : NaiveDateTime → Context p → Result Error (Unit {0}) × Context p
  unfolding run_finished_from
  run_finished now c = run_finished_from c.state now c

  status_from : State p → Uuid → Result Error (State p)
  status_from idle id = err no_job_run
  status_from (request_to_start job_id parameters) id = ok (request_to_start job_id parameters)
  status_from (running job_id start parameters) id =
      ite (uuid_discrete job_id id) (ok (running job_id start parameters)) (err job_not_found)
  status_from (finished job_id start end parameters) id =
      ite (uuid_discrete job_id id) (ok (finished job_id start end parameters)) (err job_not_found)

  unfoldable pub status_by_id : Uuid → Context p → Result Error (State p)
  unfolding status_from
  status_by_id id c = status_from c.state id

  unfoldable pub set_api_token : String → Context p → Context p
  set_api_token api_token c = record c { config = record c.config { token = some api_token } }
