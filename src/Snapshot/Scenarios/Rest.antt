-- ===== src/Snapshot/Scenarios/Rest.antt =====
-- The filter of the snapshot service, applied to a request with the token that is set, and its routes,
-- applied to its own client.
use vit_testing.Prelude.{ℕ, Option, none, some, [], ◌≡◌, ◌⊎◌, refl, str_eq, String, if◌then◌else◌}
use vit_testing.Tokens.{Tokens}
use vit_testing.Tokens.Filter.{IsAuthorized, token_filter}
use vit_testing.Folders.{Walker}
use vit_testing.Snapshot.Context.{Context, request_to_start, new, new_run}
use vit_testing.Snapshot.Rest.{
  Response, job_new, job_id, internal_error, serve, header_of, job_new_handler,
}
use vit_testing.Snapshot.Rest.Access.{serve-IsAuthorized}
use vit_testing.Prelude.Text.{Text, codes}
use vit_testing.Web.{all_clean}
use vit_testing.Web.Prefix.{prefix_urls, prefix_urls-KeepsPaths, prefix_urls-RefusesRelative}
use vit_testing.Snapshot.Client.{
  SnapshotRestClient, health_request, list_files_request, job_status_request, job_new_request,
}
use vit_testing.Snapshot.Client.Routes.{route_url-client}
use vit_testing.Snapshot.Rest.Routes.{route_url, to_health, to_files}
use vit_testing.Snapshot.Scenarios.{platform, config, june, idle_context}

abbrev tokens : Tokens
tokens = record {
  ApiToken = String;
  ApiTokenManager = String;
  from_string = λ t. some t;
  manager = λ t. some t;
  is_token_valid = λ a b. str_eq a b;
}

abbrev empty_folder : Walker
empty_folder = record { Error = Unit; walk = λ root wanted. [] }

abbrev parse_uuid : String → Option ℕ
parse_uuid text = if str_eq text "seven" then some 7 else none

abbrev guarded : Context platform
guarded = record idle_context { config = record config { token = some "key" } }

abbrev requested : Context platform
requested = record guarded { state = request_to_start 7 june }

abbrev given_id : Response platform
given_id = job_id 7

serve-IsAuthorized_example :
    ((given_id ≡ internal_error) × (requested ≡ guarded)) ⊎ IsAuthorized tokens "key" (some "key")
unfolding serve token_filter header_of job_new_handler new_run new
serve-IsAuthorized_example =
    serve-IsAuthorized platform tokens empty_folder parse_uuid (job_new (some "key") 7 june) "key"
      guarded requested given_id (λ e. cc) refl refl

abbrev here : Text
here = codes "http://localhost:7070"

abbrev client : SnapshotRestClient
client = record { token = some "key"; address = here }

route_url-client_example :
    (route_url prefix_urls here (health_request client) ≡ some to_health)
    × (route_url prefix_urls here (list_files_request client) ≡ some to_files)
    × ((list_files_request client).api_token ≡ some "key")
    × (route_url prefix_urls here (job_status_request client (codes "7")) ≡ none)
    × (route_url prefix_urls here (job_new_request client (codes "{}")) ≡ none)
unfolding all_clean
route_url-client_example =
    route_url-client prefix_urls (some "key") here (codes "7") (codes "{}")
      (prefix_urls-KeepsPaths (codes "//localhost:7070")) (prefix_urls-RefusesRelative here) refl
