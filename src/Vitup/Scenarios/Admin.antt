-- ===== src/Vitup/Scenarios/Admin.antt =====
-- A manager with a token, and its own client with that token.
use vit_testing.Prelude.{ℕ, String, true, Option, some, [], ◌≡◌, str_eq}
use vit_testing.Prelude.Text.{Text, codes}
use vit_testing.Mock.Run.{returns}
use vit_testing.Tokens.{Tokens}
use vit_testing.Folders.{Walker}
use vit_testing.Web.Prefix.{prefix_urls, prefix_urls-KeepsPaths}
use vit_testing.Vitup.Client.{
  VitupRest, list_files_request, start_custom_request, start_default_request, stop_request,
  status_request,
}
use vit_testing.Vitup.Manager.{idle, ControlContext, new}
use vit_testing.Vitup.Manager.Rest.{internal_error, shown}
use vit_testing.Vitup.Manager.Routes.{serve_url}
use vit_testing.Vitup.Manager.Routes.Admin.{serve_url-admin}

abbrev tokens : Tokens
tokens = record {
  ApiToken = String;
  ApiTokenManager = String;
  from_string = λ t. some t;
  manager = λ t. some t;
  is_token_valid = λ a b. str_eq a b;
}

abbrev empty_folder : Walker
empty_folder = record { Error = Unit; walk = λ root wanted. [] }

abbrev guarded : ControlContext ℕ ℕ
guarded = new "data" 0 (some "key")

abbrev here : Text
here = codes "http://localhost:3030"

abbrev client : VitupRest
client = record { token = some "key"; address = here }

abbrev read_params : Text → Option ℕ
read_params text = some 1

serve_url-admin_example :
    (serve_url prefix_urls read_params tokens empty_folder true here
        (start_default_request client)
        guarded
      ≡ returns (internal_error, guarded))
    × (serve_url prefix_urls read_params tokens empty_folder true here
          (start_custom_request client (codes "{}"))
          guarded
        ≡ returns (internal_error, guarded))
    × (serve_url prefix_urls read_params tokens empty_folder true here (stop_request client) guarded
        ≡ returns (internal_error, guarded))
    × (serve_url prefix_urls read_params tokens empty_folder true here
          (list_files_request client)
          guarded
        ≡ returns (internal_error, guarded))
    × (serve_url prefix_urls read_params tokens empty_folder true here
          (status_request client)
          guarded
        ≡ returns (shown idle, guarded))
unfolding new
serve_url-admin_example =
    serve_url-admin prefix_urls read_params here (prefix_urls-KeepsPaths (codes "//localhost:3030"))
      tokens empty_folder (some "key") (codes "{}") guarded
