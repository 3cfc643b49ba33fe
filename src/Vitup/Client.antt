-- ===== src/Vitup/Client.antt =====
-- vitup/src/client/rest.rs: what the clients of the mock and of the manager share, and the requests of
-- the latter. What is printed is left out.
pub mod Disruption
pub mod Admin
use vit_testing.Prelude.{
  ℕ, String, Bool, true, false, ◌==◌, Option, none, some, List, [], ◌∷◌, ◌++◌, Result, ok, err,
  map_err,
}
use vit_testing.Prelude.Text.{Text, codes}
use vit_testing.Prelude.Text.Decimal.{decimal}
use vit_testing.Web.{Method, get, post, Request, Web, ◌|>◌}

pub record VitupRest : Type 0 where
  pub token : Option String
  pub address : Text

unfoldable pub derive_with_port : VitupRest → Text → VitupRest
derive_with_port original port = record {
  token = original.token;
  address = original.address ++ (b':' ∷ port);
}

unfoldable pub new_with_token : String → Text → VitupRest
new_with_token token address = record { token = some token; address = address }

unfoldable pub new : Text → VitupRest
new address = record { token = none; address = address }

-- `{address}/{path}`
unfoldable pub path : VitupRest → Text → Text
path c p = c.address ++ (b'/' ∷ p)

-- The requests of the two clients: `post` and `get` send no token.
unfoldable pub post_request : VitupRest → Text → Request
unfolding path
post_request c local_path = record {
  method = post;
  url = path c local_path;
  api_token = none;
  body = none;
}

unfoldable pub get_request : VitupRest → Text → Request
unfolding path
get_request c local_path = record {
  method = get;
  url = path c local_path;
  api_token = none;
  body = none;
}

-- `derive_with_port` by the port of the manager.
unfoldable pub admin : VitupRest → VitupRest
unfolding derive_with_port
admin inner = derive_with_port inner (codes "3030")

-- The requests of `VitupAdminRestClient`; `params` are the parameters in JSON.
unfoldable pub list_files_request : VitupRest → Request
unfolding get_request
list_files_request c = get_request c (codes "api/files/list")

unfoldable pub start_custom_request : VitupRest → Text → Request
unfolding post_request
start_custom_request c params =
    let q = post_request c (codes "control/start/custom") in record q { body = some params }

unfoldable pub start_default_request : VitupRest → Request
unfolding post_request
start_default_request c = post_request c (codes "control/start/default")

unfoldable pub stop_request : VitupRest → Request
unfolding post_request
stop_request c = post_request c (codes "control/stop")

unfoldable pub status_request : VitupRest → Request
unfolding get_request
status_request c = get_request c (codes "status")

-- `SerdeError` and the readers are those of serde_json.
pub record Readers : Type 1 where
  pub SerdeError : Type 0
  pub FolderDump : Type 0
  pub State : Type 0
  pub read_files : Text → Result SerdeError FolderDump
  pub read_state : Text → Result SerdeError State
  pub read_logs : Text → Result SerdeError (List Text)

pub data Error (web : Web) (r : Readers) : Type 0 where
  reqwest_error : web.Error → Error web r
  serde_error : r.SerdeError → Error web r

module _ (web : Web) (r : Readers) (c : VitupRest) where
  abbrev pub Answer : Type 0 → Type 0
  Answer = Result (Error web r)

  unfoldable pub sent : Request → Answer web.Response
  sent q = map_err reqwest_error (web.send q)

  unfoldable pub text_of : Request → Answer Text
  unfolding sent ◌|>◌
  text_of q = sent q |> λ response. map_err reqwest_error (web.text response)

  unfoldable pub send_post : Text → Answer web.Response
  unfolding sent post_request
  send_post local_path = sent (post_request c local_path)

  unfoldable pub post_skip_response : Text → Answer (Unit {0})
  unfolding send_post ◌|>◌
  post_skip_response local_path = send_post local_path |> λ _. ok tt

  unfoldable pub send_get : Text → Answer Text
  unfolding text_of get_request
  send_get local_path = text_of (get_request c local_path)

  unfoldable pub read : {A : Type 0} → (Text → Result r.SerdeError A) → Text → Answer A
  read f text = map_err serde_error (f text)
