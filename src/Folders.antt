-- ===== src/Folders.antt =====
-- Walking a folder, with the walkdir crate and the file system as a parameter: what the walk of a root gives, in
-- order, where the filter is on the names of entries.
pub mod Files
use vit_testing.Prelude.{Bool, true, false, Option, none, some, List, [], ◌∷◌, Result, ok, err}
use vit_testing.Prelude.Text.{Text}
use vit_testing.Mock.Run.{Run, returns, panics, ◌>>=◌, unwrap}

-- An entry, with whether it is a folder, if that can be told.
pub record Entry : Type 0 where
  pub path : Text
  pub is_dir : Option Bool

pub record Walker : Type 1 where
  pub Error : Type 0
  pub walk : Text → (Text → Bool) → List (Result Error Entry)

module _ {Dump : Type 0} (push : Text → Dump → Run Dump) where
  push_unless_dir : Bool → Text → Dump → Run Dump
  push_unless_dir true path dump = returns dump
  push_unless_dir false path dump = push path dump

  -- The loop of `dump_json`: the first error of the walk ends it, and a folder is passed over.
  unfoldable pub push_files :
      {Error : Type 0} → List (Result Error Entry) → Dump → Run (Result Error Dump)
  unfolding push_unless_dir
  push_files [] dump = returns (ok dump)
  push_files (err e ∷ entries) dump = returns (err e)
  push_files (ok entry ∷ entries) dump = do
    is_dir ← unwrap entry.is_dir
    dump' ← push_unless_dir is_dir entry.path dump
    push_files entries dump'

add_file : Text → Option Bool → Option (List Text) → Option (List Text)
add_file path (some true) paths = paths
add_file path (some false) (some paths) = some (path ∷ paths)
add_file path (some false) none = none
add_file path none paths = none

-- The paths of the files among entries that are all given and can all be told.
unfoldable pub files_of : {Error : Type 0} → List (Result Error Entry) → Option (List Text)
unfolding add_file
files_of [] = some []
files_of (err e ∷ entries) = none
files_of (ok entry ∷ entries) = add_file entry.path entry.is_dir (files_of entries)
