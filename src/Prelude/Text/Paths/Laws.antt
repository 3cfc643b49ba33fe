-- ===== src/Prelude/Text/Paths/Laws.antt =====
-- The stems of file names that end with an extension.
use Prim.Native.Nat.{ℕ, ◌≤◌}
use mathlib.Core.Path.{◌≡◌, refl, sym, ap, ◌∙◌}
use mathlib.Core.Logic.{inl, inr}
use mathlib.Core.Bool.{true, false}
use mathlib.Core.Option.{none, some}
use mathlib.Core.List.{List, [], ◌∷◌, ◌++◌, append_assoc, append-nil}
use native.Mathlib.Omega.{arith}
use vit_testing.Prelude.Lists.{All, filter, length, length-append}
use vit_testing.Prelude.Tests.{◌==◌, Bool-cases}
use vit_testing.Prelude.Text.{Text, split_on, split_on_from}
use vit_testing.Prelude.Text.Paths.{
  is_component, is_parent, last, file_name, before_last_dot, stem_or, stem_of, file_stem,
}

-- The character is not in the text.
abbrev pub Lacks : ℕ → Text → Type 0
Lacks sep = All (λ c. (c == sep) ≡ false)

split_on_from-Lacks : (w s : Text) (sep : ℕ) → Lacks sep s → split_on_from w sep s ≡ (w ++ s) ∷ []
unfolding split_on_from
split_on_from-Lacks w [] sep h = rw append-nil
split_on_from-Lacks w (c ∷ s) sep h =
    rw h.0 (split_on_from-Lacks (w ++ c ∷ []) s sep h.1 ∙ rw append_assoc)

-- The last piece ends with what the text ends with, from its last separator on.
split_on_from-last :
    (w p s : Text) (sep : ℕ)
    → Lacks sep s
    → (front : List Text) × (q : Text) × (split_on_from w sep (p ++ s) ≡ front ++ (q ++ s) ∷ [])
unfolding split_on_from
split_on_from-last w [] s sep h = ([], w, split_on_from-Lacks w s sep h)
split_on_from-last w (c ∷ p) s sep h = elim (Bool-cases (c == sep)) [
  | inl e ↦
      let (front, q, r) = split_on_from-last [] p s sep h in
      (w ∷ front, q, rw e (ap (λ t. w ∷ t) r))
  | inr e ↦ let (front, q, r) = split_on_from-last (w ++ c ∷ []) p s sep h in (front, q, rw e r)
]

last-cons : (x : Text) (ys : List Text) (y : Text) → last ys ≡ some y → last (x ∷ ys) ≡ some y
unfolding last
last-cons x [] y h = cc
last-cons x (z ∷ zs) y h = h

filter-last :
    (xs : List Text) (y : Text)
    → is_component y ≡ true
    → last (filter is_component (xs ++ y ∷ [])) ≡ some y
unfolding last
filter-last [] y h = rw h
filter-last (x ∷ xs) y h =
    let rest = filter is_component (xs ++ y ∷ []) in
    let r = filter-last xs y h in
    elim (Bool-cases (is_component x)) [ inl e ↦ rw e (last-cons x rest y r) | inr e ↦ rw e r ]

-- A name of three characters or more is a component.
long-is_component : (y : Text) → 2 ≤ length y → is_component y ≡ true
unfolding is_component
long-is_component [] h = absurd (omega arith)
long-is_component (c ∷ []) h = absurd (omega arith)
long-is_component (c ∷ d ∷ s) h = refl

long-is_parent : (y : Text) → 3 ≤ length y → is_parent y ≡ false
unfolding is_parent
long-is_parent [] h = refl
long-is_parent (c ∷ []) h = refl
long-is_parent (c ∷ d ∷ []) h = absurd (omega arith)
long-is_parent (c ∷ d ∷ e ∷ s) h = refl

pub file_name-append :
    (p s : Text) → Lacks b'/' s → 3 ≤ length s → (q : Text) × (file_name (p ++ s) ≡ some (q ++ s))
unfolding file_name split_on
file_name-append p s h l =
    let (front, q, e) = split_on_from-last [] p s b'/' h in
    let n = length-append q s in
    (
      q,
      rw (
        e,
        filter-last front (q ++ s) (long-is_component (q ++ s) (omega (arith, n))),
        long-is_parent (q ++ s) (omega (arith, n)),
      ),
    )

before_last_dot-Lacks : (s : Text) → Lacks b'.' s → before_last_dot s ≡ none
unfolding before_last_dot
before_last_dot-Lacks [] h = refl
before_last_dot-Lacks (c ∷ s) h = rw (before_last_dot-Lacks s h.1, h.0)

before_last_dot-append : (a s : Text) → Lacks b'.' s → before_last_dot (a ++ (b'.' ∷ s)) ≡ some a
unfolding before_last_dot
before_last_dot-append [] s h = rw (before_last_dot-Lacks s h)
before_last_dot-append (c ∷ a) s h = rw (before_last_dot-append a s h)

stem_or-some : (name b : Text) → 1 ≤ length b → stem_or name (some b) ≡ b
unfolding stem_or
stem_or-some name [] h = absurd (omega arith)
stem_or-some name (c ∷ b) h = refl

file_stem-eq-some :
    (path name b : Text)
    → file_name path ≡ some name
    → before_last_dot name ≡ some b
    → 1 ≤ length b
    → file_stem path ≡ some b
unfolding file_stem stem_of
file_stem-eq-some path name b f e h =
    ap stem_of f ∙ (ap (λ o. some (stem_or name o)) e ∙ ap some (stem_or-some name b h))

-- The stem of a file name in a path ends with what is between the last separator and the last dot.
pub file_stem-append :
    (p s e : Text)
    → Lacks b'/' (s ++ (b'.' ∷ e))
    → Lacks b'.' e
    → 1 ≤ length s
    → 1 ≤ length e
    → (q : Text) × (file_stem (p ++ (s ++ (b'.' ∷ e))) ≡ some (q ++ s))
file_stem-append p s e h d l m =
    let (q, f) =
      file_name-append p (s ++ (b'.' ∷ e)) h (omega (arith, length-append s (b'.' ∷ e))) in
    let b =
      ap before_last_dot (sym (append_assoc q s (b'.' ∷ e)))
      ∙ before_last_dot-append (q ++ s) e d in
    let long : 1 ≤ length (q ++ s) = omega (arith, length-append q s) in
    (q, file_stem-eq-some _ _ (q ++ s) f b long)
