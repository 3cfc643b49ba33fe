-- ===== src/Iapyx/Qr/Pin.antt =====
-- The pin that iapyx/src/qr/mod.rs reads from the name of a file.
use mathlib.Core.List.{reverse, reverse_aux, reverse-append, reverse-reverse, append_assoc}
use Prim.Native.Nat.{min}
use vit_testing.Prelude.{
  ℕ, zero, suc, ◌+◌, ◌≡◌, ◌↔◌, refl, sym, ap, ◌∙◌, List, [], ◌∷◌, ◌++◌, length, take, Result, ok,
  length-append, length-take, All-append, arith,
}
use vit_testing.Prelude.Text.{Text, codes}
use vit_testing.Prelude.Text.Paths.Laws.{Lacks, file_stem-append}
use vit_testing.Iapyx.Qr.{read_from_file_name, Images, pin_of_stem, get_pin, last_four}

module _ {ℓ} {A : Type ℓ} where
  length-reverse_aux : (xs ys : List A) → length (reverse_aux xs ys) ≡ length xs + length ys
  length-reverse_aux [] ys = omega arith
  length-reverse_aux (x ∷ xs) ys = omega (arith, length-reverse_aux xs (x ∷ ys))

  length-reverse : (xs : List A) → length (reverse xs) ≡ length xs
  length-reverse xs = omega (arith, length-reverse_aux xs [])

  take-length : (xs ys : List A) (n : ℕ) → length xs ≡ n → take n (xs ++ ys) ≡ xs
  take-length [] ys zero h = refl
  take-length [] ys (suc n) h = absurd (omega arith)
  take-length (x ∷ xs) ys zero h = absurd (omega arith)
  take-length (x ∷ xs) ys (suc n) h = ap (λ r. x ∷ r) (take-length xs ys n (omega arith))

last_four-append : (q s : Text) → length s ≡ 4 → last_four (q ++ s) ≡ s
unfolding last_four
last_four-append q s h =
    ap (λ r. reverse (take 4 r)) (reverse-append q s)
    ∙ (ap reverse (take-length (reverse s) (reverse q) 4 (length-reverse s ∙ h))
        ∙ reverse-reverse s)

length-last_four : (s : Text) → length (last_four s) ≡ min 4 (length s)
unfolding last_four
length-last_four s =
    length-reverse (take 4 (reverse s))
    ∙ (length-take 4 (reverse s) ∙ ap (min 4) (length-reverse s))

-- A file `<anything>_<pin>.png`, with a pin that has no slash.
abbrev pub with_pin : Text → Text → Text
with_pin front pin = front ++ (b'_' ∷ (pin ++ codes ".png"))

ok-injective : (E A : Type 0) (a b : A) → ◌≡◌ {A = Result E A} (ok a) (ok b) → a ≡ b
ok-injective E A a b h = cc

-- The pin of a file whose name ends with an underscore, the pin and the extension is read back exactly
-- if it has four characters, whatever the path before it is. The pin has no slash.
pub get_pin_iff :
    (images : Images) (front pin : Text)
    → Lacks b'/' pin
    → (get_pin images read_from_file_name (with_pin front pin) ≡ ok pin) ↔ (length pin ≡ 4)
unfolding get_pin pin_of_stem
get_pin_iff images front pin h =
    let dots : Lacks b'/' (codes ".png") = (refl, (refl, (refl, (refl, tt)))) in
    let (q, e) =
      file_stem-append front (b'_' ∷ pin) (codes "png")
        (refl, All-append _ pin (codes ".png") h dots) (refl, (refl, (refl, tt))) (omega arith)
        (omega arith) in
    let stem = q ++ (b'_' ∷ pin) in
    let r : get_pin images read_from_file_name (with_pin front pin) ≡ ok (last_four stem) =
      ap (pin_of_stem images (with_pin front pin)) e in
    let short : (last_four stem ≡ pin → length pin ≡ 4) =
      λ g. omega (arith, ap length g, length-last_four stem, length-append q (b'_' ∷ pin)) in
    (
      λ g. short (ok-injective _ _ _ pin (sym r ∙ g)),
      λ l.
          r
          ∙ ap ok (
              ap last_four (sym (append_assoc q (b'_' ∷ []) pin))
              ∙ last_four-append (q ++ b'_' ∷ []) pin l),
    )
