-- ===== src/Vitup/Files/Headings.antt =====
-- Where vitup/src/manager/file_lister.rs lists a file.
use mathlib.Core.List.{append_assoc, append-nil}
use vit_testing.Prelude.{
  Bool, true, false, not, ◌≡◌, refl, sym, ap, ◌∙◌, some, List, [], ◌∷◌, ◌++◌, map, filter, ok,
  if◌then◌else◌,
}
use vit_testing.Prelude.Text.{Text}
use vit_testing.Prelude.Text.Paths.{file_name}
use vit_testing.Mock.Run.{returns, ◌>>=◌}
use vit_testing.Folders.{Walker, files_of}
use vit_testing.Folders.Files.{push_each, push_files-push_each}
use vit_testing.Vitup.Files.{
  Heading, same, FolderDump, new, push, heading_of, relative, push_path, is_storage, dump_json,
}

-- The paths under a heading.
abbrev pub under : Heading → List Text → List Text
under h = filter (λ path. same (heading_of path) h)

append-if :
    (b : Bool) (xs ys : List Text) → (if b then xs ++ ys else xs) ≡ xs ++ (if b then ys else [])
append-if true xs ys = refl
append-if false xs ys = sym (append-nil xs)

if-append :
    (b : Bool) (x : Text) (xs : List Text)
    → (if b then x ∷ [] else []) ++ xs ≡ (if b then x ∷ xs else xs)
if-append true x xs = refl
if-append false x xs = refl

push-content :
    (g h : Heading) (value : Text) (d : FolderDump)
    → (push g value d).content h ≡ d.content h ++ (if same g h then value ∷ [] else [])
unfolding push
push-content g h value d = append-if (same g h) (d.content h) (value ∷ [])

push-root : (g : Heading) (value : Text) (d : FolderDump) → (push g value d).root ≡ d.root
unfolding push
push-root g value d = refl

push_path-eq-returns :
    (r path : Text) (d : FolderDump)
    → file_name d.root ≡ some r
    → push_path path d ≡ returns (push (heading_of (relative r path)) (relative r path) d)
unfolding push_path
push_path-eq-returns r path d e = rw e

push_each-under :
    (r : Text) (paths : List Text) (d : FolderDump)
    → file_name d.root ≡ some r
    → (d' : FolderDump) × (push_each push_path paths d ≡ returns d')
      × ((h : Heading) → d'.content h ≡ d.content h ++ under h (map (relative r) paths))
unfolding push_each
push_each-under r [] d e = (d, refl, λ h. sym (append-nil (d.content h)))
push_each-under r (path ∷ paths) d e =
    let value = relative r path in
    let g = heading_of value in
    let (d', run, content) =
      push_each-under r paths (push g value d) (ap file_name (push-root g value d) ∙ e) in
    (
      d',
      ap (λ m. m >>= push_each push_path paths) (push_path-eq-returns r path d e) ∙ run,
      λ h.
          content h
          ∙ (ap (λ x. x ++ under h (map (relative r) paths)) (push-content g h value d)
              ∙ (append_assoc (d.content h) _ _
                  ∙ ap (λ x. d.content h ++ x) (if-append (same g h) value _))),
    )

-- Where every entry of the walk can be told and the root has a name, the files of the walk that is not
-- taken into storage.db are listed, each once: under a heading are those whose path has that heading,
-- in the order of the walk.
pub dump_json-under :
    (walker : Walker) (root r : Text) (files : List Text)
    → file_name root ≡ some r
    → files_of (walker.walk root (λ name. not (is_storage name))) ≡ some files
    → (d : FolderDump) × (dump_json walker root ≡ returns (ok d))
      × ((h : Heading) → d.content h ≡ under h (map (relative r) files))
unfolding dump_json new
dump_json-under walker root r files e f =
    let (d, run, content) = push_each-under r files (new root) e in
    (
      d,
      push_files-push_each walker.Error push_path _ files (new root) f
          ∙ ap (λ m. m >>= λ x. returns (ok x)) run,
      content,
    )
