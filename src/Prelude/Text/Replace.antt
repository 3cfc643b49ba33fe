-- ===== src/Prelude/Text/Replace.antt =====
-- What `replace` does where the pattern is at the front alone, or nowhere.
use mathlib.Core.Path.{◌≡◌, refl, ap, ◌∙◌}
use mathlib.Core.Bool.{true, false}
use mathlib.Core.List.{[], ◌∷◌, ◌++◌}
use Prim.Native.Nat.{ℕ, zero}
use native.Mathlib.Omega.{arith}
use vit_testing.Prelude.Lists.{length}
use vit_testing.Prelude.Text.{Text, text_eq, contains, starts_with, replace, replace_from, is_some}
use vit_testing.Prelude.Text.Laws.{strip_prefix-append}

replace_from-none :
    (p : ℕ) (ps to s : Text) → contains (p ∷ ps) s ≡ false → replace_from zero (p ∷ ps) to s ≡ s
unfolding replace_from contains
replace_from-none p ps to [] h = refl
replace_from-none p ps to (c ∷ s) h = ground (arith, replace_from-none p ps to s)

pub replace-none :
    (p : ℕ) (ps to s : Text) → contains (p ∷ ps) s ≡ false → replace (p ∷ ps) to s ≡ s
unfolding replace
replace-none p ps to s h = replace_from-none p ps to s h

replace_from-skip :
    (w pattern to s : Text)
    → replace_from (length w) pattern to (w ++ s) ≡ replace_from zero pattern to s
unfolding replace_from
replace_from-skip [] pattern to s = refl
replace_from-skip (c ∷ w) pattern to s = replace_from-skip w pattern to s

starts_with-append : (p s : Text) → starts_with p (p ++ s) ≡ true
unfolding starts_with is_some
starts_with-append p s = ap is_some (strip_prefix-append p s)

-- A pattern at the front is taken away, and is not found in the rest.
pub replace-front :
    (p : ℕ) (ps s : Text) → contains (p ∷ ps) s ≡ false → replace (p ∷ ps) [] ((p ∷ ps) ++ s) ≡ s
unfolding replace replace_from
replace-front p ps s h =
    rw (starts_with-append (p ∷ ps) s)
      (replace_from-skip ps (p ∷ ps) [] s ∙ replace_from-none p ps [] s h)

pub text_eq-eq : (s t : Text) → text_eq s t ≡ true → s ≡ t
unfolding text_eq
text_eq-eq [] [] h = refl
text_eq-eq [] (d ∷ t) h = cc
text_eq-eq (c ∷ s) [] h = cc
text_eq-eq (c ∷ s) (d ∷ t) h = ground (arith, text_eq-eq s t)
