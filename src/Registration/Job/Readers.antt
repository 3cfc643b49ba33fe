-- ===== src/Registration/Job/Readers.antt =====
-- The readers of registration-service/src/job/mod.rs on the output that their comments describe.
use vit_testing.Prelude.{
  ℕ, ◌≡◌, refl, ◌∙◌, ap, some, none, false, true, List, [], ◌∷◌, ◌++◌, Result, ok, err, All, find,
  ltb, if◌then◌else◌, arith,
}
use vit_testing.Prelude.Text.{Text, codes, contains, is_whitespace, u64_mod, split_whitespace}
use vit_testing.Prelude.Text.Laws.{
  IsWord, IsDigits, IsDigits-IsWord, value_from, parse_u64-value, split_whitespace-word,
  split_whitespace-last, contains-append,
}
use vit_testing.Registration.Job.{
  get_slot_no, get_funds, cannot_parse_voter_registration_output, cannot_parse_cardano_cli_output,
  third_number, Error,
}

abbrev IsBlank : Text → Type 0
IsBlank = All (λ c. is_whitespace c ≡ true)

-- A word behind blanks.
pub record Cell : Type 0 where
  pub before : Text
  pub first : ℕ
  pub rest : Text
  pub blank : IsBlank before
  pub word : IsWord (first ∷ rest)

-- A line of two words and a number, a space behind each word and blanks before each.
abbrev pub row : Cell → Cell → Text → ℕ → Text → Text
row x y b d ds =
    x.before
    ++ ((x.first ∷ x.rest) ++ (32 ∷ (y.before ++ ((y.first ∷ y.rest) ++ (32 ∷ (b ++ (d ∷ ds)))))))

-- A number that fits 64 bits, or the error.
abbrev pub fitting : Error → ℕ → Result Error ℕ
fitting e n = if ltb n u64_mod then ok n else err e

space_blank : is_whitespace 32 ≡ true
unfolding is_whitespace
space_blank = refl

split_whitespace-row :
    (x y : Cell) (b : Text) (d : ℕ) (ds : Text)
    → IsBlank b
    → IsDigits (d ∷ ds)
    → split_whitespace (row x y b d ds) ≡ (x.first ∷ x.rest) ∷ (y.first ∷ y.rest) ∷ (d ∷ ds) ∷ []
split_whitespace-row x y b d ds hb hd =
    split_whitespace-word x.before x.first x.rest 32 _ x.blank x.word space_blank
    ∙ ap (λ r. (x.first ∷ x.rest) ∷ r)
        (split_whitespace-word y.before y.first y.rest 32 _ y.blank y.word space_blank
          ∙ ap (λ r. (y.first ∷ y.rest) ∷ r)
              (split_whitespace-last b d ds hb (IsDigits-IsWord (d ∷ ds) hd)))

third_number-row :
    (e : Error) (x y : Cell) (b : Text) (d : ℕ) (ds : Text)
    → IsBlank b
    → IsDigits (d ∷ ds)
    → third_number e (row x y b d ds) ≡ fitting e (value_from 0 (d ∷ ds))
unfolding third_number
third_number-row e x y b d ds hb hd =
    rw (split_whitespace-row x y b d ds hb hd) (ground (arith, parse_u64-value d ds hd))

-- If the third line of the table is two words, each behind blanks and before a space, then blanks
-- and digits, those digits are read as the funds, whatever the other lines are; a number of more
-- than 64 bits is an error.
pub get_funds-row :
    (first second : Text) (x y : Cell) (b : Text) (d : ℕ) (ds : Text) (rest : List Text)
    → IsBlank b
    → IsDigits (d ∷ ds)
    → get_funds (first ∷ second ∷ row x y b d ds ∷ rest)
      ≡ fitting
          (cannot_parse_cardano_cli_output (first ∷ second ∷ row x y b d ds ∷ rest))
          (value_from 0 (d ∷ ds))
unfolding get_funds
get_funds-row first second x y b d ds rest hb hd =
    third_number-row (cannot_parse_cardano_cli_output (first ∷ second ∷ row x y b d ds ∷ rest)) x y
      b d ds hb hd

abbrev slot_registered : Text
slot_registered = codes "Slot registered"

slot_cell : Cell
slot_cell = record {
  before = [];
  first = b'S';
  rest = codes "lot";
  blank = tt;
  word = unfold is_whitespace in (refl, (refl, (refl, (refl, tt))));
}

registered_cell : Cell
registered_cell = record {
  before = [];
  first = b'r';
  rest = codes "egistered:";
  blank = tt;
  word =
      unfold is_whitespace in
      (refl, (refl, (refl, (refl, (refl, (refl, (refl, (refl, (refl, (refl, (refl, tt)))))))))));
}

abbrev Silent : List Text → Type 0
Silent = All (λ l. contains slot_registered l ≡ false)

find-behind :
    (ls : List Text) (l : Text) (rest : List Text)
    → Silent ls
    → contains slot_registered l ≡ true
    → find (contains slot_registered) (ls ++ (l ∷ rest)) ≡ some l
find-behind [] l rest h f = rw f
find-behind (k ∷ ls) l rest h f = rw h.0 (find-behind ls l rest h.1 f)

find-Silent : (ls : List Text) → Silent ls → find (contains slot_registered) ls ≡ none
find-Silent [] h = refl
find-Silent (k ∷ ls) h = rw h.0 (find-Silent ls h.1)

-- The line that reports a slot: the words, a space, blanks and the digits.
abbrev pub slot_line : Text → ℕ → Text → Text
slot_line b d ds = codes "Slot registered:" ++ (32 ∷ (b ++ (d ∷ ds)))

-- Of an output in which the first line that contains `Slot registered` is `Slot registered:`, a
-- space, blanks and digits, those digits are read as the slot, whatever the other lines are; a
-- number of more than 64 bits is an error.
pub get_slot_no-line :
    (ls : List Text) (b : Text) (d : ℕ) (ds : Text) (rest : List Text)
    → Silent ls
    → IsBlank b
    → IsDigits (d ∷ ds)
    → get_slot_no (ls ++ (slot_line b d ds ∷ rest))
      ≡ fitting
          (cannot_parse_voter_registration_output (ls ++ (slot_line b d ds ∷ rest)))
          (value_from 0 (d ∷ ds))
unfolding get_slot_no slot_cell registered_cell
get_slot_no-line ls b d ds rest h hb hd =
    rw
      (find-behind ls (slot_line b d ds) rest h
        (contains-append slot_registered (b':' ∷ 32 ∷ (b ++ (d ∷ ds)))))
      (third_number-row (cannot_parse_voter_registration_output (ls ++ (slot_line b d ds ∷ rest)))
        slot_cell registered_cell b d ds hb hd)

-- An output with no such line is an error that carries the output.
get_slot_no-Silent :
    (ls : List Text) → Silent ls → get_slot_no ls ≡ err (cannot_parse_voter_registration_output ls)
unfolding get_slot_no
get_slot_no-Silent ls h = rw (find-Silent ls h)
