-- ===== src/Vitup/Manager/Routes.antt =====
-- The routes of `start_rest_server` in vitup/src/manager/rest.rs, but for the static directory: which
-- handler takes a request that comes in at the address of the manager.
pub mod Admin
use vit_testing.Prelude.{
  String, Bool, true, false, Option, none, some, List, [], ◌∷◌, ◌&&◌, if◌then◌else◌,
}
use vit_testing.Prelude.Text.{Text, codes, strip_prefix}
use vit_testing.Prelude.Text.Segments.{is_exactly, segments_of}
use vit_testing.Mock.Run.{Run, returns}
use vit_testing.Tokens.{Tokens}
use vit_testing.Folders.{Walker}
use vit_testing.Web.{Method, get, post, same_method, Request, Urls}
use vit_testing.Vitup.Manager.{ControlContext}
use vit_testing.Vitup.Manager.Rest.{
  RestRequest, list_files, status, start_default, start_custom, stop, Response, internal_error,
  serve,
}

pub data Route : Type 0 where
  to_list to_start_default to_start_custom to_stop to_status : Route

-- The paths in the order in which they are tried, with the method of each.
routes : List (Route × Method × List Text)
routes =
    (to_list, get, codes "files" ∷ codes "list" ∷ [])
    ∷ (to_start_default, post, codes "control" ∷ codes "start" ∷ codes "default" ∷ [])
    ∷ (to_start_custom, post, codes "control" ∷ codes "start" ∷ codes "custom" ∷ [])
    ∷ (to_stop, post, codes "control" ∷ codes "stop" ∷ [])
    ∷ (to_status, get, codes "status" ∷ [])
    ∷ []

first_taking : List (Route × Method × List Text) → Method → List Text → Option Route
unfolding same_method is_exactly
first_taking [] m segments = none
first_taking ((r, m', p) ∷ rest) m segments =
    if same_method m' m && is_exactly p segments then some r else first_taking rest m segments

unfoldable pub route : Method → Text → Option Route
unfolding routes first_taking segments_of
route m path = first_taking routes m (segments_of path)

-- The path of a URL of the manager, by its address.
path_of : Urls → Text → Request → Option Text
path_of urls address q = urls.path_at address q.url

routed : Method → Option Text → Option Route
unfolding route
routed m none = none
routed m (some path) = route m path

unfoldable pub route_url : Urls → Text → Request → Option Route
unfolding path_of routed
route_url urls address q = routed q.method (path_of urls address q)

-- `read_params` is the reader of JSON; `urls` finds the path of a URL.
module _ (urls : Urls) {Params : Type 0} (read_params : Text → Option Params) where
  with_params : Option String → Option Params → Option (RestRequest Params)
  with_params header none = none
  with_params header (some params) = some (start_custom header params)

  params_of : Option Text → Option Params
  params_of none = none
  params_of (some body) = read_params body

  rest_request : Option Route → Request → Option (RestRequest Params)
  unfolding with_params params_of
  rest_request none q = none
  rest_request (some to_list) q = some list_files
  rest_request (some to_start_default) q = some (start_default q.api_token)
  rest_request (some to_start_custom) q = with_params q.api_token (params_of q.body)
  rest_request (some to_stop) q = some (stop q.api_token)
  rest_request (some to_status) q = some status

  -- The request as its handler and the filter in front of it get it, if a route takes it.
  unfoldable pub receive : Text → Request → Option (RestRequest Params)
  unfolding route_url rest_request
  receive address q = rest_request (route_url urls address q) q

  module _ (tokens : Tokens) (walker : Walker) {Stopper : Type 0} where
    serve_received :
        Bool
        → Option (RestRequest Params)
        → ControlContext Params Stopper
        → Run (Response × ControlContext Params Stopper)
    unfolding serve
    serve_received is_token_enabled none c = returns (internal_error, c)
    serve_received is_token_enabled (some q) c =
        serve tokens walker Params Stopper is_token_enabled q c

    -- What no route takes is rejected, which `report_invalid` answers with the error 500.
    unfoldable pub serve_url :
        Bool
        → Text
        → Request
        → ControlContext Params Stopper
        → Run (Response × ControlContext Params Stopper)
    unfolding receive serve_received
    serve_url is_token_enabled address q c = serve_received is_token_enabled (receive address q) c
