-- ===== src/Vitup/Client/Disruption.antt =====
-- The client of the mock in vitup/src/client/rest.rs, `VitupDisruptionRestClient`, around a `VitupRest`.
use vit_testing.Prelude.{ℕ, Bool, false, ◌==◌, List, ◌++◌, none, ok, err}
use vit_testing.Prelude.Text.{Text, codes}
use vit_testing.Prelude.Text.Decimal.{decimal}
use vit_testing.Web.{get, Web, ◌|>◌}
use vit_testing.Vitup.Client.{VitupRest, Readers, Answer, sent, read, send_get, post_skip_response}

module _ (web : Web) (r : Readers) (c : VitupRest) where
  unfoldable pub get_logs : Answer web r c (List Text)
  unfolding send_get read ◌|>◌
  get_logs = send_get web r c (codes "api/control/logs/get") |> read web r c r.read_logs

  unfoldable pub list_files : Answer web r c r.FolderDump
  unfolding send_get read ◌|>◌
  list_files = send_get web r c (codes "api/control/files/list") |> read web r c r.read_files

  unfoldable pub clear_logs : Answer web r c (Unit {0})
  unfolding post_skip_response
  clear_logs = post_skip_response web r c (codes "api/control/logs/clear")

  unfoldable pub reset : Answer web r c (Unit {0})
  unfolding post_skip_response
  reset = post_skip_response web r c (codes "api/control/command/reset")

  unfoldable pub make_unavailable : Answer web r c (Unit {0})
  unfolding post_skip_response
  make_unavailable = post_skip_response web r c (codes "api/control/available/false")

  unfoldable pub make_available : Answer web r c (Unit {0})
  unfolding post_skip_response
  make_available = post_skip_response web r c (codes "api/control/available/true")

  unfoldable pub reject_all_fragments : Answer web r c (Unit {0})
  unfolding post_skip_response
  reject_all_fragments = post_skip_response web r c (codes "api/control/command/fragments/reject")

  unfoldable pub hold_all_fragments : Answer web r c (Unit {0})
  unfolding post_skip_response
  hold_all_fragments = post_skip_response web r c (codes "api/control/command/fragments/pending")

  unfoldable pub accept_all_fragments : Answer web r c (Unit {0})
  unfolding post_skip_response
  accept_all_fragments = post_skip_response web r c (codes "api/control/command/fragments/accept")

  unfoldable pub reset_fragments_behavior : Answer web r c (Unit {0})
  unfolding post_skip_response
  reset_fragments_behavior =
      post_skip_response web r c (codes "api/control/command/fragments/reset")

  unfoldable pub set_fund_id : ℕ → Answer web r c (Unit {0})
  unfolding post_skip_response decimal
  set_fund_id fund_id =
      post_skip_response web r c (codes "api/control/command/fund/id/" ++ decimal fund_id)

  is_ok : Answer web r c web.Response → Bool
  is_ok (ok response) = web.status response == 200
  is_ok (err e) = false

  -- What the health check answers is the address of a second request.
  is_up_at : Answer web r c Text → Bool
  unfolding sent is_ok
  is_up_at (ok url) =
      is_ok (sent web r c (record { method = get; url = url; api_token = none; body = none }))
  is_up_at (err e) = false

  unfoldable pub is_up : Bool
  unfolding send_get is_up_at
  is_up = is_up_at (send_get web r c (codes "api/health"))
