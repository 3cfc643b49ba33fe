-- ===== src/Vitup/Scenarios/Files.antt =====
-- The listing of a backend's folder, applied to a folder with a code, a key and block 0.
use vit_testing.Prelude.{filter, Bool, true, false, some, List, [], ◌∷◌, ◌≡◌, refl, Result, ok}
use vit_testing.Prelude.Text.{Text, codes, split_on, contains, starts_with, strip_prefix}
use vit_testing.Mock.Run.{returns}
use vit_testing.Folders.{Entry, Walker, files_of}
use vit_testing.Prelude.Text.Paths.{file_name, last, is_component, is_parent}
use vit_testing.Vitup.Files.{Heading, FolderDump, dump_json}
use vit_testing.Vitup.Files.Listing.{is_listed, dump_json-is_listed}

abbrev entry : Bool → Text → Result (Unit {0}) Entry
entry is_dir path = ok (record { path = path; is_dir = some is_dir })

abbrev walker : Walker
walker = record {
  Error = Unit;
  walk = λ root wanted.
      entry true (codes "./data")
      ∷ (entry false (codes "./data/qr-codes/a_1234.png")
          ∷ (entry false (codes "./data/wallet_1")
              ∷ (entry false (codes "./data/block0.bin") ∷ [])));
}

abbrev below : List Text
below = codes "qr-codes/a_1234.png" ∷ codes "wallet_1" ∷ codes "block0.bin" ∷ []

dump_json-is_listed_example :
    (d : FolderDump) × (dump_json walker (codes "./data") ≡ returns (ok d))
    × ((h : Heading) → d.content h ≡ filter (is_listed h) below)
unfolding file_name files_of last split_on is_component is_parent contains starts_with strip_prefix
dump_json-is_listed_example =
    dump_json-is_listed walker (codes "./data") (codes "data") below refl
      ((refl, refl), ((refl, refl), ((refl, refl), tt))) refl
