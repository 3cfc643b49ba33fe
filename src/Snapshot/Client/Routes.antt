-- ===== src/Snapshot/Client/Routes.antt =====
-- Where the client of snapshot-trigger-service arrives at its server.
use vit_testing.Prelude.{true, String, Option, none, some, ◌≡◌, refl, ◌++◌}
use vit_testing.Prelude.Text.{Text, codes, strip_prefix, split_on, contains, starts_with}
use vit_testing.Web.{Urls, KeepsPaths, RefusesRelative, all_clean}
use vit_testing.Snapshot.Client.{
  SnapshotRestClient, list_files_request, job_new_request, job_status_request, health_request,
}
use vit_testing.Snapshot.Rest.Routes.{
  to_health, to_files, route, route_url, route_url-append, route_url-relative,
}

-- Where reqwest asks the service for plain paths as they stand behind its address, and takes no text
-- without a scheme for a URL: the client reaches the health check and, with its token, the list of
-- files; no route takes its requests for a job or for the status of one, whatever the token, the
-- parameters and the id of plain characters.
pub route_url-client :
    (urls : Urls) (token : Option String) (address id params : Text)
    → KeepsPaths urls address
    → RefusesRelative urls address
    → all_clean id ≡ true
    → (let c : SnapshotRestClient = record { token = token; address = address } in
        (route_url urls address (health_request c) ≡ some to_health)
        × (route_url urls address (list_files_request c) ≡ some to_files)
        × ((list_files_request c).api_token ≡ token)
        × (route_url urls address (job_status_request c id) ≡ none)
        × (route_url urls address (job_new_request c params) ≡ none))
unfolding route split_on list_files_request job_new_request job_status_request health_request
    all_clean contains starts_with strip_prefix
route_url-client urls token address id params keeps refuses clean =
    let c : SnapshotRestClient = record { token = token; address = address } in
    (
      route_url-append urls address (codes "api/health") (health_request c) keeps refl refl,
      route_url-append urls address (codes "api/job/files/list") (list_files_request c) keeps refl
          refl,
      refl,
      route_url-append urls address (codes "api/job/status/" ++ id) (job_status_request c id) keeps
          clean refl,
      route_url-relative urls address (job_new_request c params)
          (refuses (codes "api/job/new") refl),
    )
