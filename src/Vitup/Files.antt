-- ===== src/Vitup/Files.antt =====
-- vitup/src/manager/file_lister.rs: the files of a backend under five headings.
pub mod Headings
pub mod Listing
use vit_testing.Prelude.{
  ℕ, Bool, true, false, not, Option, none, some, List, [], ◌∷◌, ◌++◌, Result, ◌||◌, if◌then◌else◌,
}
use vit_testing.Prelude.Text.{Text, codes, contains, replace, starts_with, text_eq}
use vit_testing.Prelude.Text.Paths.{file_name}
use vit_testing.Mock.Run.{Run, returns, ◌>>=◌, unwrap}
use vit_testing.Folders.{Walker, push_files}

-- The keys of the map.
pub data Heading : Type 0 where
  qr_codes private_keys private_data blockchain network : Heading

unfoldable pub same : Heading → Heading → Bool
same qr_codes qr_codes = true
same private_keys private_keys = true
same private_data private_data = true
same blockchain blockchain = true
same network network = true
same _ _ = false

pub record FolderDump : Type 0 where
  pub content : Heading → List Text
  pub root : Text

unfoldable pub new : Text → FolderDump
new root = record { content = λ h. []; root = root }

-- The five functions that push under a heading: all headings are in the map.
unfoldable pub push : Heading → Text → FolderDump → FolderDump
unfolding same
push h value d = record d {
  content = λ h'. if same h h' then d.content h' ++ value ∷ [] else d.content h';
}

is_blockchain_item : Text → Bool
is_blockchain_item path = text_eq (codes "block0.bin") path || text_eq (codes "genesis.yaml") path

unfoldable pub heading_of : Text → Heading
unfolding is_blockchain_item contains starts_with text_eq
heading_of path =
    if contains (codes "qr-codes") path
    then qr_codes
    else (if starts_with (codes "wallet") path || text_eq path (codes "committee")
        then private_keys
        else (if is_blockchain_item path
            then blockchain
            else (if contains (codes "committees") path then private_data else network)))

-- With slashes, and without the name of the root in front.
unfoldable pub relative : Text → Text → Text
unfolding replace
relative root_name input =
    replace (codes "./" ++ (root_name ++ codes "/")) [] (replace (codes "\\") (codes "/") input)

unfoldable pub push_path : Text → FolderDump → Run FolderDump
unfolding push heading_of relative
push_path input d = do
  root_name ← unwrap (file_name d.root)
  let path = relative root_name input
  returns (push (heading_of path) path d)

unfoldable pub is_storage : Text → Bool
is_storage name = contains (codes "storage.db") name

unfoldable pub dump_json : (walker : Walker) → Text → Run (Result walker.Error FolderDump)
unfolding is_storage push_path new
dump_json walker root =
    push_files push_path (walker.walk root (λ name. not (is_storage name))) (new root)
