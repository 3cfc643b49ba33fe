-- ===== src/Prelude/Text/Segments.antt =====
-- The segments of the path of a URL, and the tests of the filters of warp on them.
use mathlib.Core.Bool.{Bool, true, false, ◌&&◌}
use mathlib.Core.List.{List, [], ◌∷◌}
use vit_testing.Prelude.Text.{Text, text_eq, split_on}

unfoldable pub begins_with : List Text → List Text → Bool
unfolding text_eq
begins_with [] segments = true
begins_with (p ∷ ps) [] = false
begins_with (p ∷ ps) (s ∷ segments) = text_eq p s && begins_with ps segments

-- A slash at the end of a path makes no difference.
unfoldable pub is_exactly : List Text → List Text → Bool
unfolding text_eq
is_exactly [] [] = true
is_exactly [] ([] ∷ []) = true
is_exactly [] (s ∷ segments) = false
is_exactly (p ∷ ps) [] = false
is_exactly (p ∷ ps) (s ∷ segments) = text_eq p s && is_exactly ps segments

-- What is between the slashes of a path, from the first.
unfoldable pub segments_of : Text → List Text
unfolding split_on
segments_of [] = []
segments_of (c ∷ path) = split_on b'/' path
