-- ===== src/Prelude/Text/Laws.antt =====
-- What the methods of `str` do on texts of the shapes that the services read.
use Prim.Native.Nat.{ℕ, ◌+◌, ◌-◌, ◌*◌, ◌≤◌, ◌<◌}
use mathlib.Core.Path.{◌≡◌, refl, ◌∙◌}
use mathlib.Core.Bool.{true, false}
use mathlib.Core.Option.{none, some}
use mathlib.Core.List.{[], ◌∷◌, ◌++◌, append_assoc, append-nil}
use native.Mathlib.Omega.{arith}
use vit_testing.Prelude.Lists.{All}
use vit_testing.Prelude.Tests.{ltb, if◌then◌else◌}
use vit_testing.Prelude.Text.{
  Text, is_whitespace, split_from, flush, split_whitespace, is_digit, scan_u64, parse_u64, u64_mod,
  starts_with, strip_prefix, contains,
}

-- A text with no whitespace.
abbrev pub IsWord : Text → Type 0
IsWord = All (λ c. is_whitespace c ≡ false)

abbrev pub IsDigits : Text → Type 0
IsDigits = All (λ c. is_digit c ≡ true)

-- The number that decimal digits stand for, after those that made `acc`.
unfoldable pub value_from : ℕ → Text → ℕ
value_from acc [] = acc
value_from acc (c ∷ s) = value_from (acc * 10 + (c - b'0')) s

pub le-value_from : (acc : ℕ) (s : Text) → acc ≤ value_from acc s
unfolding value_from
le-value_from acc [] = omega arith
le-value_from acc (c ∷ s) = omega (arith, le-value_from (acc * 10 + (c - b'0')) s)

scan_u64-value :
    (acc : ℕ) (s : Text)
    → IsDigits s
    → value_from acc s < u64_mod
    → scan_u64 acc s ≡ some (value_from acc s)
unfolding value_from scan_u64
scan_u64-value acc [] d h = refl
scan_u64-value acc (c ∷ s) d h =
    ground (
      arith,
      scan_u64-value (acc * 10 + (c - b'0')) s d.1 h,
      le-value_from (acc * 10 + (c - b'0')) s,
    )

scan_u64-overflow :
    (acc : ℕ) (s : Text)
    → IsDigits s
    → acc < u64_mod
    → u64_mod ≤ value_from acc s
    → scan_u64 acc s ≡ none
unfolding value_from scan_u64
scan_u64-overflow acc [] d a h = absurd (omega arith)
scan_u64-overflow acc (c ∷ s) d a h =
    ground (arith, scan_u64-overflow (acc * 10 + (c - b'0')) s d.1)

-- Digits that stand for a 64-bit number are read as that number, and others are refused.
pub parse_u64-value :
    (c : ℕ) (s : Text)
    → IsDigits (c ∷ s)
    → parse_u64 (c ∷ s)
      ≡ (if ltb (value_from 0 (c ∷ s)) u64_mod then some (value_from 0 (c ∷ s)) else none)
unfolding parse_u64
parse_u64-value c s d =
    ground (arith, scan_u64-value 0 (c ∷ s) d, scan_u64-overflow 0 (c ∷ s) d, d.0)

split_from-word :
    (w v : Text) (c : ℕ) (s : Text)
    → IsWord v
    → is_whitespace c ≡ true
    → split_from w (v ++ (c ∷ s)) ≡ flush (w ++ v) (split_from [] s)
unfolding split_from
split_from-word w [] c s h b = rw (b, append-nil)
split_from-word w (d ∷ v) c s h b =
    rw h.0 (split_from-word (w ++ d ∷ []) v c s h.1 b ∙ rw append_assoc)

split_from-last : (w v : Text) → IsWord v → split_from w v ≡ flush (w ++ v) []
unfolding split_from
split_from-last w [] h = rw append-nil
split_from-last w (d ∷ v) h = rw h.0 (split_from-last (w ++ d ∷ []) v h.1 ∙ rw append_assoc)

split_from-blanks :
    (b s : Text) → All (λ c. is_whitespace c ≡ true) b → split_from [] (b ++ s) ≡ split_from [] s
unfolding split_from flush
split_from-blanks [] s h = refl
split_from-blanks (c ∷ b) s h = rw h.0 (split_from-blanks b s h.1)

-- The first word of a text, behind blanks and before whitespace.
pub split_whitespace-word :
    (b : Text) (c : ℕ) (w : Text) (d : ℕ) (s : Text)
    → All (λ x. is_whitespace x ≡ true) b
    → IsWord (c ∷ w)
    → is_whitespace d ≡ true
    → split_whitespace (b ++ ((c ∷ w) ++ (d ∷ s))) ≡ (c ∷ w) ∷ split_whitespace s
unfolding split_whitespace
split_whitespace-word b c w d s hb hw hd =
    split_from-blanks b ((c ∷ w) ++ (d ∷ s)) hb ∙ split_from-word [] (c ∷ w) d s hw hd

-- The last word of a text.
pub split_whitespace-last :
    (b : Text) (c : ℕ) (w : Text)
    → All (λ x. is_whitespace x ≡ true) b
    → IsWord (c ∷ w)
    → split_whitespace (b ++ (c ∷ w)) ≡ (c ∷ w) ∷ []
unfolding split_whitespace
split_whitespace-last b c w hb hw = split_from-blanks b (c ∷ w) hb ∙ split_from-last [] (c ∷ w) hw

digit-not_blank : (c : ℕ) → is_digit c ≡ true → is_whitespace c ≡ false
unfolding is_digit is_whitespace
digit-not_blank c h = ground arith

pub IsDigits-IsWord : (s : Text) → IsDigits s → IsWord s
IsDigits-IsWord [] h = tt
IsDigits-IsWord (c ∷ s) h = (digit-not_blank c h.0, IsDigits-IsWord s h.1)

pub strip_prefix-append : (p s : Text) → strip_prefix p (p ++ s) ≡ some s
unfolding strip_prefix
strip_prefix-append [] s = refl
strip_prefix-append (c ∷ p) s = ground (arith, strip_prefix-append p s)

pub contains-append : (p s : Text) → contains p (p ++ s) ≡ true
unfolding contains starts_with strip_prefix
contains-append [] [] = refl
contains-append [] (c ∷ s) = refl
contains-append (d ∷ p) s = ground (arith, strip_prefix-append p s)
