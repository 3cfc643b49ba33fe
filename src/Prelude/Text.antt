-- ===== src/Prelude/Text.antt =====
-- Rust's `str` as the list of its code points, and the methods of `str` that the services use.
pub mod Laws
pub mod Decimal
pub mod Paths
pub mod Segments
pub mod Replace
use Prim.Native.Char.{code}
use Prim.Native.String.{String}
use Prim.Native.Nat.{ℕ, zero, suc, ◌+◌, ◌-◌, ◌*◌, ◌^◌, ◌≤◌, ◌<◌}
use mathlib.Core.Bool.{Bool, true, false, ◌&&◌, ◌||◌}
use mathlib.Core.Option.{Option, none, some}
use mathlib.Core.List.{List, [], ◌∷◌, ◌++◌}
use vit_testing.Prelude.Lists.{length}
use vit_testing.Prelude.Tests.{leb, ltb, ◌==◌, if◌then◌else◌}

abbrev pub Text : Type 0
Text = List ℕ

abbrev pub codes : String → Text
codes String.[] = []
codes (String.◌∷◌ c s) = code c ∷ codes s

-- `s == t`
unfoldable pub text_eq : Text → Text → Bool
text_eq [] [] = true
text_eq [] (d ∷ t) = false
text_eq (c ∷ s) [] = false
text_eq (c ∷ s) (d ∷ t) = (c == d) && text_eq s t

-- What follows the pattern, if the text starts with it.
unfoldable pub strip_prefix : Text → Text → Option Text
strip_prefix [] s = some s
strip_prefix (p ∷ ps) [] = none
strip_prefix (p ∷ ps) (c ∷ s) = if p == c then strip_prefix ps s else none

is_some {ℓ} : {A : Type ℓ} → Option A → Bool
is_some none = false
is_some (some _) = true

unfoldable pub starts_with : Text → Text → Bool
unfolding strip_prefix is_some
starts_with p s = is_some (strip_prefix p s)

-- `s.contains(p)`
unfoldable pub contains : Text → Text → Bool
unfolding starts_with
contains p [] = starts_with p []
contains p (c ∷ s) = starts_with p (c ∷ s) || contains p s

-- `char::is_whitespace`: the property White_Space of Unicode.
unfoldable pub is_whitespace : ℕ → Bool
is_whitespace c =
    (leb 9 c && leb c 13)
    || (c == 32)
    || (c == 0x85)
    || (c == 0xa0)
    || (c == 0x1680)
    || (leb 0x2000 c && leb c 0x200a)
    || (c == 0x2028)
    || (c == 0x2029)
    || (c == 0x202f)
    || (c == 0x205f)
    || (c == 0x3000)

flush : Text → List Text → List Text
flush [] ws = ws
flush (c ∷ w) ws = (c ∷ w) ∷ ws

-- The words of a text, the first of which begins with what has been read of it.
split_from : Text → Text → List Text
split_from w [] = flush w []
split_from w (c ∷ s) =
    let after = split_from [] s in
    let longer = split_from (w ++ c ∷ []) s in if is_whitespace c then flush w after else longer

-- `s.split_whitespace()`
unfoldable pub split_whitespace : Text → List Text
unfolding split_from flush is_whitespace
split_whitespace s = split_from [] s

unfoldable pub is_digit : ℕ → Bool
is_digit c = leb b'0' c && leb c b'9'

abbrev pub u64_mod : ℕ
u64_mod = 2 ^ 64

-- `checked_mul` by ten, then `checked_add` of the digit.
scan_u64 : ℕ → Text → Option ℕ
scan_u64 acc [] = some acc
scan_u64 acc (c ∷ s) =
    let rest = scan_u64 (acc * 10 + (c - b'0')) s in
    if is_digit c
    then if ltb (acc * 10) u64_mod && ltb (acc * 10 + (c - b'0')) u64_mod then rest else none
    else none

-- Digits, at least one.
scan_digits : Text → Option ℕ
scan_digits [] = none
scan_digits (c ∷ s) = scan_u64 0 (c ∷ s)

-- `s.parse::<u64>().ok()`
unfoldable pub parse_u64 : Text → Option ℕ
unfolding scan_digits scan_u64 is_digit
parse_u64 [] = none
parse_u64 (c ∷ s) = if c == b'+' then scan_digits s else scan_digits (c ∷ s)

-- `s.replace(from, to)` for a pattern that is not empty: `skip` characters of a match are left.
replace_from : ℕ → Text → Text → Text → Text
replace_from skip from to [] = []
replace_from (suc k) from to (c ∷ s) = replace_from k from to s
replace_from zero [] to (c ∷ s) = to ++ (c ∷ replace_from zero [] to s)
replace_from zero (p ∷ ps) to (c ∷ s) =
    let after = replace_from (length ps) (p ∷ ps) to s in
    let onward = replace_from zero (p ∷ ps) to s in
    if starts_with (p ∷ ps) (c ∷ s) then to ++ after else c ∷ onward

-- The empty pattern matches before each character and at the end.
unfoldable pub replace : Text → Text → Text → Text
unfolding replace_from starts_with
replace [] to s = replace_from zero [] to s ++ to
replace (p ∷ ps) to s = replace_from zero (p ∷ ps) to s

-- `s.split(c)`: always one piece more than separators.
split_on_from : Text → ℕ → Text → List Text
split_on_from w sep [] = w ∷ []
split_on_from w sep (c ∷ s) =
    let after = split_on_from [] sep s in
    let longer = split_on_from (w ++ c ∷ []) sep s in if c == sep then w ∷ after else longer

unfoldable pub split_on : ℕ → Text → List Text
unfolding split_on_from
split_on sep s = split_on_from [] sep s
