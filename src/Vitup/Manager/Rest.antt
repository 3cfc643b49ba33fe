-- ===== src/Vitup/Manager/Rest.antt =====
-- The requests of vitup/src/manager/rest.rs. Bodies are those that warp has parsed; the static directory
-- is left out.
use vit_testing.Prelude.{String, Bool, true, false, Option, none, some, Result, ok, err}
use vit_testing.Prelude.Text.{codes}
use vit_testing.Mock.Run.{Run, returns, ◌>>=◌}
use vit_testing.Tokens.{Tokens}
use vit_testing.Tokens.Filter.{TokenRejection, authorize, token_filter}
use vit_testing.Folders.{Walker}
use vit_testing.Vitup.Files.{FolderDump, dump_json}
use vit_testing.Vitup.Manager.{
  ControlContext, State, Answer, start_handler, start_default_handler, stop_handler,
  set_server_stopper,
}

-- A request under `control` has the token of its header, if there is one.
pub data RestRequest (Params : Type 0) : Type 0 where
  list_files status : RestRequest Params
  start_default : Option String → RestRequest Params
  start_custom : Option String → Params → RestRequest Params
  stop : Option String → RestRequest Params

pub data Response : Type 0 where
  bad_request internal_error : Response
  listing : FolderDump → Response
  shown : State → Response
  answer : Answer → Response

module _ (tokens : Tokens) (walker : Walker) (Params Stopper : Type 0) where
  abbrev Context : Type 0
  Context = ControlContext Params Stopper

  unfoldable pub authorize_token : String → Context → Result TokenRejection (Unit {0})
  unfolding authorize
  authorize_token token c = authorize tokens c.api_token token

  listed : Result walker.Error FolderDump → Response
  listed (ok dump) = listing dump
  listed (err e) = bad_request

  unfoldable pub file_lister_handler : Context → Run Response
  unfolding listed
  file_lister_handler c = do
    dump ← dump_json walker (codes c.working_directory)
    returns (listed dump)

  -- What a handler says is the answer, if the filter lets the request pass.
  filtered : Result TokenRejection (Unit {0}) → Answer × Context → Context → Response × Context
  filtered (ok _) (a, c') c = (answer a, c')
  filtered (err e) out c = (internal_error, c)

  unfoldable pub serve : Bool → RestRequest Params → Context → Run (Response × Context)
  unfolding file_lister_handler filtered token_filter
  serve is_token_enabled list_files c = do r ← file_lister_handler c; returns (r, c)
  serve is_token_enabled status c = returns (shown c.state, c)
  serve is_token_enabled (start_default header) c = returns (
      filtered (token_filter tokens is_token_enabled c.api_token header) (start_default_handler c)
        c)
  serve is_token_enabled (start_custom header setup) c =
      returns (
        filtered (token_filter tokens is_token_enabled c.api_token header) (start_handler setup c)
          c)
  serve is_token_enabled (stop header) c =
      returns
        (filtered (token_filter tokens is_token_enabled c.api_token header) (stop_handler c) c)

  -- `start_rest_server` leaves its stopper in the context and looks whether a token is set.
  unfoldable pub start_rest_server : Stopper → Context → Bool × Context
  start_rest_server stopper c =
      let c' = set_server_stopper stopper c in
      (elim c'.api_token [ none ↦ false | some _ ↦ true ], c')
