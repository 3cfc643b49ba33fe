-- ===== src/Vitup/Manager/Routes/Admin.antt =====
-- What the manager of vitup makes of the requests of its own client, `VitupAdminRestClient` of
-- vitup/src/client/rest.rs.
use vit_testing.Prelude.{◌∷◌, String, true, Option, none, some, ◌≡◌, refl, ap, ◌∙◌, ◌++◌}
use vit_testing.Prelude.Text.{Text, codes}
use vit_testing.Mock.Run.{Run, returns}
use vit_testing.Tokens.{Tokens}
use vit_testing.Folders.{Walker}
use vit_testing.Web.{Urls, KeepsPaths, all_clean, Request}
use vit_testing.Vitup.Client.{
  VitupRest, list_files_request, start_custom_request, start_default_request, stop_request,
  status_request,
}
use vit_testing.Vitup.Manager.{ControlContext}
use vit_testing.Vitup.Manager.Rest.{
  RestRequest, status, start_default, stop, Response, internal_error, shown,
}
use vit_testing.Vitup.Manager.Routes.{
  route, routed, route_url, rest_request, with_params, receive, serve_received, serve_url,
}

module _ (urls : Urls) {Params : Type 0} (read_params : Text → Option Params) (address : Text)
    (keeps : KeepsPaths urls address) where
  -- A URL that begins with the address is routed by the path.
  receive-append :
      (q : Request) (p : Text)
      → all_clean p ≡ true
      → q.url ≡ address ++ (b'/' ∷ p)
      → receive urls read_params address q
        ≡ rest_request urls read_params (route q.method (b'/' ∷ p)) q
  unfolding receive route_url routed
  receive-append q p clean e =
      ap (λ u. rest_request urls read_params (routed q.method (urls.path_at address u)) q) e
      ∙ ap (λ o. rest_request urls read_params (routed q.method o) q) (keeps p clean)

  module _ (tokens : Tokens) (walker : Walker) {Stopper : Type 0} where
    abbrev served :
        (c : ControlContext Params Stopper)
        → Option (RestRequest Params)
        → Run (Response × ControlContext Params Stopper)
    served c r = serve_received urls read_params tokens walker true r c

    refused-default :
        (c : ControlContext Params Stopper)
        → served c (some (start_default none)) ≡ returns (internal_error, c)
    unfolding serve_received
    refused-default c = refl

    refused-stop :
        (c : ControlContext Params Stopper)
        → served c (some (stop none)) ≡ returns (internal_error, c)
    unfolding serve_received
    refused-stop c = refl

    refused-custom :
        (c : ControlContext Params Stopper) (o : Option Params)
        → served c (with_params urls read_params none o) ≡ returns (internal_error, c)
    unfolding serve_received with_params
    refused-custom c none = refl
    refused-custom c (some params) = refl

    shown-status :
        (c : ControlContext Params Stopper) → served c (some status) ≡ returns (shown c.state, c)
    unfolding serve_received
    shown-status c = refl

    -- Where reqwest asks the manager for plain paths as they stand behind its address: on a manager
    -- that filters by token, what its client sends to start or to stop a backend is
    -- answered with the error 500 and changes nothing, and so is its request for the files, whatever
    -- token the client has; the state of the manager is shown to it.
    pub serve_url-admin :
        (token : Option String) (params : Text) (c : ControlContext Params Stopper)
        → (let client : VitupRest = record { token = token; address = address } in
            let answered =
              λ (q : Request). serve_url urls read_params tokens walker true address q c in
            let refused : Run (Response × ControlContext Params Stopper) =
              returns (internal_error, c) in
            (answered (start_default_request client) ≡ refused)
            × (answered (start_custom_request client params) ≡ refused)
            × (answered (stop_request client) ≡ refused)
            × (answered (list_files_request client) ≡ refused)
            × (answered (status_request client) ≡ returns (shown c.state, c)))
    unfolding serve_url start_default_request start_custom_request stop_request list_files_request
        status_request route all_clean
    serve_url-admin token params c =
        let client : VitupRest = record { token = token; address = address } in
        (
          ap (served c) (
                receive-append (start_default_request client) (codes "control/start/default") refl
                  refl)
              ∙ refused-default c,
          ap (served c) (
                receive-append (start_custom_request client params) (codes "control/start/custom")
                  refl refl)
              ∙ refused-custom c (read_params params),
          ap (served c) (receive-append (stop_request client) (codes "control/stop") refl refl)
              ∙ refused-stop c,
          ap (served c)
              (receive-append (list_files_request client) (codes "api/files/list") refl refl),
          ap (served c) (receive-append (status_request client) (codes "status") refl refl)
              ∙ shown-status c,
        )
