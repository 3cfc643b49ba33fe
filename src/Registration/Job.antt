-- ===== src/Registration/Job.antt =====
-- registration-service/src/job/mod.rs and utils.rs: the job that registers a voter by running the
-- tools, and the readers of the tools' output.
pub mod Readers
pub mod Script
pub mod Builder
use vit_testing.Prelude.{
  ℕ, zero, suc, String, Option, none, some, List, [], ◌∷◌, ◌++◌, Result, ok, err, get_elem?, find,
}
use vit_testing.Prelude.Text.{Text, codes, contains, split_whitespace, parse_u64}
use vit_testing.Registration.Context.{Request, JobOutputInfo, NetworkType, mainnet, testnet}

pub data Error : Type 0 where
  io_error serialization_error : Error
  cannot_parse_voter_registration_output : List Text → Error
  cannot_parse_cardano_cli_output : List Text → Error

-- `ok_or_else`
abbrev ok_or {ℓ} : {A : Type ℓ} {E : Type ℓ} → E → Option A → Result E A
ok_or e none = err e
ok_or e (some a) = ok a

infixl 5 ◌>>=◌
abbrev pub ◌>>=◌ : {E A B : Type 0} → Result E A → (A → Result E B) → Result E B
ok a >>= f = f a
err e >>= f = err e

-- `split_whitespace().nth(2)`, parsed.
third_number : Error → Text → Result Error ℕ
third_number e line = do
  word ← ok_or e (get_elem? (split_whitespace line) 2)
  ok_or e (parse_u64 word)

unfoldable pub get_funds : List Text → Result Error ℕ
unfolding third_number
get_funds output =
    let e = cannot_parse_cardano_cli_output output in
    do line ← ok_or e (get_elem? output 2); third_number e line

unfoldable pub get_slot_no : List Text → Result Error ℕ
unfolding third_number
get_slot_no output =
    let e = cannot_parse_voter_registration_output output in
    do line ← ok_or e (find (contains (codes "Slot registered")) output); third_number e line
