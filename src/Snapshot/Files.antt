-- ===== src/Snapshot/Files.antt =====
-- snapshot-trigger-service/src/file_lister.rs: the files of a folder, as texts without the folder's name.
use vit_testing.Prelude.{true, List, [], ◌∷◌, ◌++◌, Result}
use vit_testing.Prelude.Text.{Text, codes, replace}
use vit_testing.Mock.Run.{Run, returns}
use vit_testing.Folders.{Walker, push_files}

pub record FolderDump : Type 0 where
  pub content : List Text
  pub root : Text

unfoldable pub new : Text → FolderDump
new root = record { content = []; root = root }

unfoldable pub push : Text → FolderDump → FolderDump
unfolding replace
push item d = record d {
  content = d.content ++ replace (codes "\\") (codes "/") (replace d.root [] item) ∷ [];
}

unfoldable pub dump_json : (walker : Walker) → Text → Run (Result walker.Error FolderDump)
unfolding push new
dump_json walker root =
    push_files (λ path d. returns (push path d)) (walker.walk root (λ name. true)) (new root)
