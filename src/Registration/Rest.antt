-- ===== src/Registration/Rest.antt =====
-- registration-service/src/rest.rs: what a client gets for a request, and what becomes of the
-- context. Bodies are those that warp has parsed; the lister of files is left out.
pub mod Access
use vit_testing.Prelude.{
  String, Bool, true, false, Option, none, some, Result, ok, err, if◌then◌else◌,
}
use vit_testing.Tokens.{Tokens}
use vit_testing.Registration.Context.{
  Platform, Request, Error, State, Context, new_run, status_by_id, api_token, set_server_stopper,
}

pub data Rejection : Type 0 where
  cannot_parse_uuid cannot_parse_token no_token_manager unauthorized_token missing_header :
      Rejection
  context_error : Error → Rejection

-- A request under `job` has the token of its header, if there is one; the id of a new job is what
-- `Uuid::new_v4()` gives to it.
pub data RestRequest (p : Platform) : Type 0 where
  health : RestRequest p
  job_new : Option String → p.Uuid → Request → RestRequest p
  job_status : Option String → String → RestRequest p

-- What the client sees; `internal_error` is the error 500 of `report_invalid`.
pub data Response (p : Platform) : Type 0 where
  empty internal_error : Response p
  job_id : p.Uuid → Response p
  status : Result Error (State p) → Response p

infixl 5 ◌>>=◌
abbrev ◌>>=◌ : {A B : Type 0} → Result Rejection A → (A → Result Rejection B) → Result Rejection B
ok a >>= f = f a
err e >>= f = err e

abbrev or_reject : {A : Type 0} → Rejection → Option A → Result Rejection A
or_reject e none = err e
or_reject e (some a) = ok a

module _ (p : Platform) (tokens : Tokens) (parse_uuid : String → Option p.Uuid) where
  check_manager : tokens.ApiToken → String → Result Rejection (Unit {0})
  check_manager given set = do
    manager ← or_reject no_token_manager (tokens.manager set)
    if tokens.is_token_valid manager given then ok tt else err unauthorized_token

  unfoldable pub authorize_token : String → Context p → Result Rejection (Unit {0})
  unfolding check_manager
  authorize_token token c = do
    given ← or_reject cannot_parse_token (tokens.from_string token)
    elim (api_token p c) [ none ↦ ok tt | some set ↦ check_manager given set ]

  -- The filter on the token, which is there if a token was set when the server started.
  unfoldable pub token_filter : Bool → Option String → Context p → Result Rejection (Unit {0})
  token_filter false header c = ok tt
  token_filter true none c = err missing_header
  token_filter true (some token) c = authorize_token token c

  unfoldable pub job_status_handler : String → Context p → Result Rejection (Response p)
  job_status_handler id c = do
    uuid ← or_reject cannot_parse_uuid (parse_uuid id)
    ok (status (status_by_id p uuid c))

  new_response : Result Error p.Uuid → Result Rejection (Response p)
  new_response (ok id) = ok (job_id id)
  new_response (err e) = err (context_error e)

  unfoldable pub job_new_handler :
      p.Uuid → Request → Context p → Result Rejection (Response p) × Context p
  unfolding new_response
  job_new_handler id request c = let (res, c') = new_run p id request c in (new_response res, c')

  abbrev report_invalid : Result Rejection (Response p) → Response p
  report_invalid (ok r) = r
  report_invalid (err _) = internal_error

  -- A handler runs if the filter lets the request pass.
  filtered :
      Result Rejection (Unit {0})
      → Result Rejection (Response p) × Context p
      → Context p
      → Response p × Context p
  filtered (ok _) (r, c') c = (report_invalid r, c')
  filtered (err _) out c = (internal_error, c)

  unfoldable pub serve : Bool → RestRequest p → Context p → Response p × Context p
  unfolding filtered job_new_handler job_status_handler
  serve is_token_enabled health c = (empty, c)
  serve is_token_enabled (job_new header id request) c =
      filtered (token_filter is_token_enabled header c) (job_new_handler id request c) c
  serve is_token_enabled (job_status header id) c =
      filtered (token_filter is_token_enabled header c) (job_status_handler id c, c) c

  -- `start_rest_server` leaves its stopper in the context and looks whether a token is set.
  unfoldable pub start_rest_server : p.ServerStopper → Context p → Bool × Context p
  start_rest_server stopper c =
      let c' = set_server_stopper p stopper c in
      (elim (api_token p c') [ none ↦ false | some _ ↦ true ], c')
