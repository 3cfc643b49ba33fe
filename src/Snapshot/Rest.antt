-- ===== src/Snapshot/Rest.antt =====
-- snapshot-trigger-service/src/rest.rs: what a client gets for a request, and what becomes of the
-- context. Bodies are those that warp has parsed; the static directory is left out.
pub mod Access
pub mod Routes
use vit_testing.Prelude.{String, Bool, true, false, Option, none, some, Result, ok, err}
use vit_testing.Prelude.Text.{codes}
use vit_testing.Mock.Run.{Run, returns, ◌>>=◌}
use vit_testing.Tokens.{Tokens}
use vit_testing.Tokens.Filter.{TokenRejection, authorize, token_filter}
use vit_testing.Folders.{Walker}
use vit_testing.Snapshot.Files.{FolderDump, dump_json}
use vit_testing.Snapshot.Context.{
  Platform, JobParameters, Error, State, Context, new_run, status_by_id, set_server_stopper,
}

pub data Rejection (walker : Walker) : Type 0 where
  cannot_parse_uuid : Rejection walker
  token_error : TokenRejection → Rejection walker
  context_error : Error → Rejection walker
  root_folder_does_not_exist : walker.Error → Rejection walker

-- A request under `job` has the token of its header, if there is one; the id of a new job is what
-- `Uuid::new_v4()` gives to it.
pub data RestRequest (p : Platform) : Type 0 where
  health : RestRequest p
  list_files : Option String → RestRequest p
  job_status : Option String → String → RestRequest p
  job_new : Option String → p.Uuid → JobParameters → RestRequest p

-- What the client sees; the two errors are those of `report_invalid`, 400 and 500.
pub data Response (p : Platform) : Type 0 where
  empty bad_request internal_error : Response p
  job_id : p.Uuid → Response p
  status : Result Error (State p) → Response p
  listing : FolderDump → Response p

module _ (p : Platform) (tokens : Tokens) (walker : Walker)
    (parse_uuid : String → Option p.Uuid) where
  abbrev Answer : Type 0
  Answer = Result (Rejection walker) (Response p)

  unfoldable pub authorize_token : String → Context p → Result TokenRejection (Unit {0})
  unfolding authorize
  authorize_token token c = authorize tokens c.config.token token

  status_answer : Context p → Option p.Uuid → Answer
  status_answer c none = err cannot_parse_uuid
  status_answer c (some uuid) = ok (status (status_by_id p uuid c))

  unfoldable pub job_status_handler : String → Context p → Answer
  unfolding status_answer
  job_status_handler id c = status_answer c (parse_uuid id)

  new_answer : Result Error p.Uuid → Answer
  new_answer (ok id) = ok (job_id id)
  new_answer (err e) = err (context_error e)

  unfoldable pub job_new_handler : p.Uuid → JobParameters → Context p → Answer × Context p
  unfolding new_answer
  job_new_handler id params c = let (res, c') = new_run p id params c in (new_answer res, c')

  files_answer : Result walker.Error FolderDump → Answer
  files_answer (ok dump) = ok (listing dump)
  files_answer (err e) = err (root_folder_does_not_exist e)

  unfoldable pub files_handler : Context p → Run Answer
  unfolding files_answer
  files_handler c = do dump ← dump_json walker (codes c.working_dir); returns (files_answer dump)

  unfoldable pub report_invalid : Answer → Response p
  report_invalid (ok r) = r
  report_invalid (err (root_folder_does_not_exist e)) = bad_request
  report_invalid (err _) = internal_error

  -- A handler runs if the filter lets the request pass.
  filtered :
      Result TokenRejection (Unit {0})
      → Context p
      → Run (Answer × Context p)
      → Run (Response p × Context p)
  unfolding report_invalid
  filtered (err e) c handler = returns (report_invalid (err (token_error e)), c)
  filtered (ok _) c handler = do (answer, c') ← handler; returns (report_invalid answer, c')

  handle : RestRequest p → Context p → Run (Answer × Context p)
  unfolding files_handler job_status_handler job_new_handler
  handle health c = returns (ok empty, c)
  handle (list_files _) c = do answer ← files_handler c; returns (answer, c)
  handle (job_status _ id) c = returns (job_status_handler id c, c)
  handle (job_new _ id params) c = returns (job_new_handler id params c)

  -- The token of a request, where the filter is in front of it.
  unfoldable pub header_of : RestRequest p → Option (Option String)
  header_of health = none
  header_of (list_files header) = some header
  header_of (job_status header _) = some header
  header_of (job_new header _ _) = some header

  behind_filter : Bool → Option (Option String) → Context p → Result TokenRejection (Unit {0})
  unfolding token_filter
  behind_filter is_token_enabled none c = ok tt
  behind_filter is_token_enabled (some header) c =
      token_filter tokens is_token_enabled c.config.token header

  unfoldable pub serve : Bool → RestRequest p → Context p → Run (Response p × Context p)
  unfolding filtered handle header_of behind_filter
  serve is_token_enabled request c =
      filtered (behind_filter is_token_enabled (header_of request) c) c (handle request c)

  -- `start_rest_server` leaves its stopper in the context and looks whether a token is set.
  unfoldable pub start_rest_server : p.ServerStopper → Context p → Bool × Context p
  start_rest_server stopper c =
      let c' = set_server_stopper p stopper c in
      (elim c'.config.token [ none ↦ false | some _ ↦ true ], c')
