-- ===== src/Prelude/Text/Paths.antt =====
-- The names of files in paths, as Rust's `std::path` reads them on Unix.
pub mod Laws
use Prim.Native.Nat.{ℕ}
use mathlib.Core.Bool.{Bool, true, false, not}
use mathlib.Core.Option.{Option, none, some}
use mathlib.Core.List.{List, [], ◌∷◌}
use vit_testing.Prelude.Lists.{filter}
use vit_testing.Prelude.Tests.{◌==◌, if◌then◌else◌}
use vit_testing.Prelude.Text.{Text, split_on}

-- Neither empty nor the current directory.
unfoldable pub is_component : Text → Bool
is_component [] = false
is_component (c ∷ []) = not (c == b'.')
is_component (c ∷ d ∷ s) = true

unfoldable pub is_parent : Text → Bool
is_parent (c ∷ d ∷ []) = if c == b'.' then d == b'.' else false
is_parent _ = false

unfoldable pub last {ℓ} : {A : Type ℓ} → List A → Option A
last [] = none
last (x ∷ []) = some x
last (x ∷ y ∷ xs) = last (y ∷ xs)

unless_parent : Option Text → Option Text
unless_parent none = none
unless_parent (some name) = if is_parent name then none else some name

-- `path.file_name()`: the last component, unless it is the parent directory.
unfoldable pub file_name : Text → Option Text
unfolding unless_parent
file_name path = unless_parent (last (filter is_component (split_on b'/' path)))

-- What is before the last dot, if there is one.
unfoldable pub before_last_dot : Text → Option Text
before_last_dot [] = none
before_last_dot (c ∷ s) = elim (before_last_dot s) [
  | some b ↦ some (c ∷ b)
  | none ↦ if c == b'.' then some [] else none
]

stem_or : Text → Option Text → Text
stem_or name (some (c ∷ b)) = c ∷ b
stem_or name _ = name

stem_of : Option Text → Option Text
unfolding stem_or
stem_of none = none
stem_of (some name) = some (stem_or name (before_last_dot name))

-- `path.file_stem()`: a name with no dot but its first character is the whole stem.
unfoldable pub file_stem : Text → Option Text
unfolding stem_of
file_stem path = stem_of (file_name path)
