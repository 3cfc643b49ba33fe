-- ===== src/Folders/Files.antt =====
-- The loop over a walk, set against a loop over its files.
use vit_testing.Prelude.{
  Bool, true, false, ◌≡◌, refl, ap, ◌∙◌, Option, none, some, List, [], ◌∷◌, Result, ok, err,
}
use vit_testing.Prelude.Text.{Text}
use mathlib.Core.Option.{some-injective}
use vit_testing.Mock.Run.{Run, returns, panics, running, unwrap, ◌>>=◌}
use vit_testing.Folders.{Entry, push_unless_dir, push_files, add_file, files_of}

-- Each path in turn.
unfoldable pub push_each : {Dump : Type 0} → (Text → Dump → Run Dump) → List Text → Dump → Run Dump
push_each push [] dump = returns dump
push_each push (path ∷ paths) dump = do dump' ← push path dump; push_each push paths dump'

module _ (Error : Type 0) {Dump : Type 0} (push : Text → Dump → Run Dump) where
  abbrev fine : Run Dump → Run (Result Error Dump)
  fine m = m >>= λ d. returns (ok d)

  then-fine :
      (m : Run Dump) (go : Dump → Run (Result Error Dump)) (f : Dump → Run Dump)
      → ((d : Dump) → go d ≡ fine (f d))
      → (m >>= go) ≡ fine (m >>= f)
  then-fine (returns d) go f h = h d
  then-fine panics go f h = refl
  then-fine running go f h = refl

  step-fine :
      (path : Text) (flag : Option Bool) (rest : Option (List Text))
      (go : Dump → Run (Result Error Dump)) (files : List Text) (d : Dump)
      → add_file path flag rest ≡ some files
      → ((fs : List Text) (d : Dump) → rest ≡ some fs → go d ≡ fine (push_each push fs d))
      → (unwrap flag >>= λ b. push_unless_dir push b path d >>= go) ≡ fine (push_each push files d)
  unfolding push_unless_dir add_file push_each
  step-fine path none rest go files d h ih = cc
  step-fine path (some true) rest go files d h ih = ih files d h
  step-fine path (some false) none go files d h ih = cc
  step-fine path (some false) (some fs) go files d h ih =
      then-fine (push path d) go (push_each push fs) (λ d'. ih fs d' refl)
      ∙ ap (λ xs. fine (push_each push xs d)) (some-injective _ _ h)

  -- The loop is one over the files alone.
  pub push_files-push_each :
      (entries : List (Result Error Entry)) (files : List Text) (d : Dump)
      → files_of entries ≡ some files
      → push_files push entries d ≡ (push_each push files d >>= λ dump. returns (ok dump))
  unfolding push_files files_of push_each
  push_files-push_each [] files d h = ap (λ xs. fine (push_each push xs d)) (some-injective _ _ h)
  push_files-push_each (err e ∷ entries) files d h = cc
  push_files-push_each (ok entry ∷ entries) files d h =
      step-fine entry.path entry.is_dir (files_of entries) (push_files push entries) files d h
        (push_files-push_each entries)
