-- ===== src/Vitup/Client/Admin.antt =====
-- The client of the manager in vitup/src/client/rest.rs, `VitupAdminRestClient`, around a `VitupRest`.
use vit_testing.Prelude.Text.{Text}
use vit_testing.Web.{Web, ◌|>◌}
use vit_testing.Vitup.Client.{
  VitupRest, Readers, Answer, text_of, read, list_files_request, start_custom_request,
  start_default_request, stop_request, status_request,
}

module _ (web : Web) (r : Readers) (c : VitupRest) where
  unfoldable pub list_files : Answer web r c r.FolderDump
  unfolding text_of list_files_request read ◌|>◌
  list_files = text_of web r c (list_files_request c) |> read web r c r.read_files

  unfoldable pub start_custom : Text → Answer web r c Text
  unfolding text_of start_custom_request
  start_custom params = text_of web r c (start_custom_request c params)

  unfoldable pub start_default : Answer web r c Text
  unfolding text_of start_default_request
  start_default = text_of web r c (start_default_request c)

  unfoldable pub stop : Answer web r c Text
  unfolding text_of stop_request
  stop = text_of web r c (stop_request c)

  unfoldable pub status : Answer web r c r.State
  unfolding text_of status_request read ◌|>◌
  status = text_of web r c (status_request c) |> read web r c r.read_state
