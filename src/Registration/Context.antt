-- ===== src/Registration/Context.antt =====
-- registration-service/src/context.rs, request.rs, job/info.rs and config/: the shared state of
-- the service. The caller of a method holds the mutex, so a method is a function on the state.
pub mod Lifecycle
use vit_testing.Prelude.{ℕ, String, ◌≡◌, Option, none, some, List, [], ◌∷◌, Result, ok, err}
use mathlib.Core.Logic.{ite}

-- What the uuid and chrono crates and the channel of the server give.
pub record Platform : Type 1 where
  pub Uuid : Type 0
  pub uuid_discrete : Discrete Uuid
  pub NaiveDateTime : Type 0
  pub ServerStopper : Type 0

pub record Request : Type 0 where
  pub payment_skey : String
  pub payment_vkey : String
  pub stake_skey : String
  pub stake_vkey : String

pub record JobOutputInfo : Type 0 where
  pub slot_no : ℕ  -- u64
  pub funds : ℕ  -- u64

pub data NetworkType : Type 0 where
  mainnet : NetworkType
  testnet : ℕ → NetworkType

-- A path is the text that names it.
pub record Configuration : Type 0 where
  pub port : ℕ  -- u16
  pub result_dir : String
  pub jcli : String
  pub cardano_cli : String
  pub voter_registration : String
  pub vit_kedqr : String
  pub network : NetworkType
  pub token : Option String

pub record SocketAddr : Type 0 where
  pub ip : List ℕ
  pub port : ℕ

pub data Error : Type 0 where
  registration_in_progress registration_not_started no_request_to_start job_not_found no_job_run :
      Error

pub data State (p : Platform) : Type 0 where
  idle : State p
  request_to_start : p.Uuid → Request → State p
  running : p.Uuid → p.NaiveDateTime → Request → State p
  finished : p.Uuid → p.NaiveDateTime → p.NaiveDateTime → Request → JobOutputInfo → State p

pub record Context (p : Platform) : Type 0 where
  pub server_stopper : Option p.ServerStopper
  pub config : Configuration
  pub working_dir : String
  pub address : SocketAddr
  pub state : State p

module _ (p : Platform) where
  open p use {Uuid, uuid_discrete, NaiveDateTime, ServerStopper}

  unfoldable pub new : Configuration → String → Context p
  new config working_dir = record {
    server_stopper = none;
    config = config;
    working_dir = working_dir;
    address = record { ip = 0 ∷ 0 ∷ 0 ∷ 0 ∷ []; port = config.port };
    state = idle;
  }

  unfoldable pub set_server_stopper : ServerStopper → Context p → Context p
  set_server_stopper stopper c = record c { server_stopper = some stopper }

  -- `id` is what `Uuid::new_v4()` returned.
  new_run_from : State p → Uuid → Request → Context p → Result Error Uuid × Context p
  new_run_from idle id request c = (ok id, record c { state = request_to_start id request })
  new_run_from (finished _ _ _ _ _) id request c =
      (ok id, record c { state = request_to_start id request })
  new_run_from _ id request c = (err registration_in_progress, c)

  unfoldable pub new_run : Uuid → Request → Context p → Result Error Uuid × Context p
  unfolding new_run_from
  new_run id request c = new_run_from c.state id request c

  -- `now` is what `Utc::now()` returned.
  run_started_from : State p → NaiveDateTime → Context p → Result Error (Unit {0}) × Context p
  run_started_from (request_to_start id request) now c =
      (ok tt, record c { state = running id now request })
  run_started_from _ now c = (err no_request_to_start, c)

  unfoldable pub run_started : NaiveDateTime → Context p → Result Error (Unit {0}) × Context p
  unfolding run_started_from
  run_started now c = run_started_from c.state now c

  run_finished_from :
      State p → NaiveDateTime → JobOutputInfo → Context p → Result Error (Unit {0}) × Context p
  run_finished_from (running id start request) now info c =
      (ok tt, record c { state = finished id start now request info })
  run_finished_from _ now info c = (err registration_not_started, c)

  unfoldable pub run_finished :
      NaiveDateTime → JobOutputInfo → Context p → Result Error (Unit {0}) × Context p
  unfolding run_finished_from
  run_finished now info c = run_finished_from c.state now info c

  status_from : State p → Uuid → Result Error (State p)
  status_from idle id = err no_job_run
  status_from (request_to_start job_id request) id = ok (request_to_start job_id request)
  status_from (running job_id start request) id =
      ite (uuid_discrete job_id id) (ok (running job_id start request)) (err job_not_found)
  status_from (finished job_id start end request info) id =
      ite (uuid_discrete job_id id) (ok (finished job_id start end request info))
        (err job_not_found)

  unfoldable pub status_by_id : Uuid → Context p → Result Error (State p)
  unfolding status_from
  status_by_id id c = status_from c.state id

  unfoldable pub api_token : Context p → Option String
  api_token c = c.config.token

  unfoldable pub set_api_token : String → Context p → Context p
  set_api_token api_token c = record c { config = record c.config { token = some api_token } }
