-- ===== src/Snapshot/Client.antt =====
-- snapshot-trigger-service/src/client/rest.rs. What is printed is left out.
pub mod Routes
use vit_testing.Prelude.{
  String, Bool, true, false, ◌==◌, Option, none, some, ◌∷◌, ◌++◌, Result, ok, err, map_err,
}
use vit_testing.Prelude.Text.{Text, codes}
use vit_testing.Web.{Method, get, post, Request, Web, ◌|>◌}

pub record SnapshotRestClient : Type 0 where
  pub token : Option String
  pub address : Text

unfoldable pub new_with_token : String → Text → SnapshotRestClient
new_with_token token address = record { token = some token; address = address }

unfoldable pub new : Text → SnapshotRestClient
new address = record { token = none; address = address }

-- `{address}/{path}`
unfoldable pub path : SnapshotRestClient → Text → Text
path c p = c.address ++ (b'/' ∷ p)

unfoldable pub set_header : SnapshotRestClient → Request → Request
set_header c q = record q { api_token = c.token }

unfoldable pub post_request : SnapshotRestClient → Text → Request
unfolding set_header path
post_request c local_path =
    set_header c (record { method = post; url = path c local_path; api_token = none; body = none })

unfoldable pub get_request : SnapshotRestClient → Text → Request
unfolding set_header path
get_request c local_path =
    set_header c (record { method = get; url = path c local_path; api_token = none; body = none })

unfoldable pub list_files_request : SnapshotRestClient → Request
unfolding get_request
list_files_request c = get_request c (codes "api/job/files/list")

-- The address is not put in front of the path; `params` are the parameters in JSON.
unfoldable pub job_new_request : SnapshotRestClient → Text → Request
unfolding set_header
job_new_request c params =
    set_header c
      (record { method = post; url = codes "api/job/new"; api_token = none; body = some params })

unfoldable pub job_status_request : SnapshotRestClient → Text → Request
unfolding post_request
job_status_request c id = post_request c (codes "api/job/status/" ++ id)

unfoldable pub health_request : SnapshotRestClient → Request
unfolding get_request
health_request c = get_request c (codes "api/health")

-- Of serde_json and serde_yaml: the readers; of the file system: what writing a text to a path gives.
pub record World : Type 1 where
  pub SerdeJsonError : Type 0
  pub SerdeYamlError : Type 0
  pub IoError : Type 0
  pub FolderDump : Type 0
  pub State : Type 0
  pub read_files : Text → Result SerdeJsonError FolderDump
  pub read_state : Text → Result SerdeYamlError State
  pub write : Text → Text → Result IoError (Unit {0})

pub data Error (web : Web) (w : World) : Type 0 where
  reqwest_error : web.Error → Error web w
  serde_json_error : w.SerdeJsonError → Error web w
  serde_yaml_error : w.SerdeYamlError → Error web w
  io_error : w.IoError → Error web w

module _ (web : Web) (w : World) (c : SnapshotRestClient) where
  abbrev Answer : Type 0 → Type 0
  Answer = Result (Error web w)

  sent : Request → Answer web.Response
  sent q = map_err reqwest_error (web.send q)

  text_of : Request → Answer Text
  unfolding sent ◌|>◌
  text_of q = sent q |> λ response. map_err reqwest_error (web.text response)

  unfoldable pub list_files : Answer w.FolderDump
  unfolding text_of list_files_request ◌|>◌
  list_files =
      text_of (list_files_request c) |> λ text. map_err serde_json_error (w.read_files text)

  unfoldable pub download : Text → Text → Answer (Unit {0})
  unfolding text_of get_request ◌|>◌
  download sub_location output =
      text_of (get_request c (codes "api/job/files/get/" ++ sub_location)) |> λ content.
      map_err io_error (w.write output content)

  unfoldable pub download_snapshot : Text → Text → Answer (Unit {0})
  unfolding download
  download_snapshot id output = download (id ++ codes "/status.yaml") output

  unfoldable pub download_job_status : Text → Text → Answer (Unit {0})
  unfolding download
  download_job_status id output = download (id ++ codes "/snapshot.json") output

  unfoldable pub job_new : Text → Answer Text
  unfolding text_of job_new_request
  job_new params = text_of (job_new_request c params)

  unfoldable pub job_status : Text → Answer w.State
  unfolding text_of job_status_request ◌|>◌
  job_status id = text_of (job_status_request c id) |> λ content.
      map_err serde_yaml_error (w.read_state content)

  is_ok : Answer web.Response → Bool
  is_ok (ok response) = web.status response == 200
  is_ok (err e) = false

  -- What the health check answers is the address of a second request.
  is_up_at : Answer Text → Bool
  unfolding sent is_ok
  is_up_at (ok url) =
      is_ok (sent (record { method = get; url = url; api_token = none; body = none }))
  is_up_at (err e) = false

  unfoldable pub is_up : Bool
  unfolding text_of health_request is_up_at
  is_up = is_up_at (text_of (health_request c))
