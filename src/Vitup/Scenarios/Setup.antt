-- ===== src/Vitup/Scenarios/Setup.antt =====
-- The theorems on the setup of a backend, each applied to a small one.
use vit_testing.Prelude.{
  ℕ, ◌+◌, ◌≡◌, ◌≢◌, refl, sym, ap, ◌∙◌, inl, map, Option, String, true, false, none, some, List, [],
  ◌∷◌, length, All, ok, arith,
}
use mathlib.Core.Option.{some-injective}
use vit_testing.Prelude.Int.{ℤ, pos, negsuc}
use vit_testing.Prelude.Text.{Text, codes, starts_with, is_digit}
use vit_testing.Prelude.Text.Decimal.{decimal}
use vit_testing.Mock.Run.{returns}
use vit_testing.Iapyx.Qr.{Images}
use vit_testing.Vitup.Initials.{
  Initial, zero_funds, zero_funds_pin, Template, named, zero_funds_count,
}
use vit_testing.Vitup.Setup as Setup
use vit_testing.Vitup.Setup.{
  Crates, QuickVitBackendSettingsBuilder, default_parameters, upload_parameters, initials,
}
use vit_testing.Vitup.Setup.Periods.{ValidVotePlanParameters}
use vit_testing.Vitup.Setup.Periods.Laws.{adjusted, recalculate-vote_plan_parameters}
use vit_testing.Vitup.Setup.Periods.Stability.{vote_start_timestamp-alone}
use vit_testing.Vitup.Setup.Plans.{VotePlanDef, build_vote_plans, proposals}
use vit_testing.Vitup.Setup.Plans.Partition.{flatten, IsChunk, build_vote_plans-IsPartition}
use vit_testing.Vitup.Setup.Qr.{World, QrFile, dump_qrs, voters, pin_to_bytes}
use vit_testing.Vitup.Setup.Qr.Readable.{IsReadable, coded_zero_funds, dump_qrs-IsReadable}

-- Times are seconds, and no text is a time.
from_seconds : ℤ → Option ℕ
from_seconds (pos n) = some n
from_seconds (negsuc n) = none

abbrev crates : Crates
crates = record {
  DateTime = ℕ;
  parse_from_str = λ _ _. none;
  from_timestamp = from_seconds;
  timestamp = pos;
  CommitteeId = ℕ;
  Key = ℕ;
  to_base32 = λ _. some "key";
}

abbrev no_keys : Text → Option ℕ
no_keys _ = none

abbrev builder : QuickVitBackendSettingsBuilder crates
builder = Setup.new crates

recalculate-vote_plan_parameters_example :
    (v : ValidVotePlanParameters ℕ) × (adjusted crates 1000 2000 (7 ∷ []) no_keys builder
      ≡ returns v)
    × (v.vote_plans ≡ 7 ∷ [])
    × (v.voting_start ≡ pos 1600)
    × (v.voting_tally_start ≡ pos 2200)
    × (v.voting_tally_end ≡ pos 2800)
    × (v.next_fund_start_time ≡ pos 13800)
    × (v.voting_power_threshold ≡ pos 8000000000)
unfolding Setup.new from_seconds
recalculate-vote_plan_parameters_example =
    recalculate-vote_plan_parameters crates 1000000 1000 2000 (7 ∷ []) no_keys builder
      (λ n h. (n, refl, refl)) (omega arith) refl refl (inl refl) (omega arith)
      (omega arith, omega arith, omega arith, omega arith, omega arith)

abbrev started : QuickVitBackendSettingsBuilder crates
started = record builder {
  parameters = record builder.parameters { vote_start_timestamp = some 5 };
}

abbrev some_parameters : ValidVotePlanParameters ℕ
some_parameters = record {
  vote_plans = [];
  fund_name = [];
  voting_power_threshold = pos 0;
  challenges_count = 0;
  voting_start = pos 5;
  voting_tally_start = pos 6;
  voting_tally_end = pos 7;
  next_fund_start_time = pos 8;
  registration_snapshot_time = none;
  fund_id = pos 1;
  calculate_challenges_total_funds = false;
  vote_encryption_key = none;
}

vote_start_timestamp-alone_example :
    adjusted crates 1000 2000 [] no_keys started ≢ returns some_parameters
unfolding Setup.new
vote_start_timestamp-alone_example =
    vote_start_timestamp-alone crates 1000 2000 [] no_keys started 5 refl (inl refl) some_parameters

abbrev numbers : ℕ → ℕ
numbers n = n

abbrev plans_of : QuickVitBackendSettingsBuilder crates → List (VotePlanDef ℕ)
plans_of = build_vote_plans crates numbers

build_vote_plans-IsPartition_example :
    (flatten (map (λ p. p.proposals) (plans_of builder)) ≡ proposals numbers 100)
    × (length (flatten (map (λ p. p.proposals) (plans_of builder))) ≡ 100)
    × All IsChunk (map (λ p. p.proposals) (plans_of builder))
    × (length (map (λ p. p.proposals) (plans_of builder)) ≡ 1)
unfolding Setup.new
build_vote_plans-IsPartition_example = build_vote_plans-IsPartition crates numbers builder

abbrev alice : List Template
alice = record { alias = named "alice"; value = 5; pin = "1234" } ∷ []

abbrev world : World
world = record {
  wallets =
      (codes "wallet_alice", codes "wallet_alice")
      ∷ (codes "committee_1", codes "committee_1")
      ∷ [];
  has_wallet = λ _. true;
  creates_folder = true;
  saves_image = λ _. true;
}

abbrev with_zero_funds : QuickVitBackendSettingsBuilder crates
with_zero_funds = record builder {
  parameters = record builder.parameters { initials = some (zero_funds 1 "0000" ∷ []) };
}

abbrev files : List QrFile
files =
    record { name = codes "wallet_alice_1234.png"; pin = 1 ∷ 2 ∷ 3 ∷ 4 ∷ [] }
    ∷ record { name = codes "zero_funds_1_0000.png"; pin = 0 ∷ 0 ∷ 0 ∷ 0 ∷ [] }
    ∷ []

abbrev images : Images
images = record {
  Image = ℕ;
  SecretKey = ℕ;
  ImageError = ℕ;
  KeyQrCodeError = ℕ;
  open_image = λ path. ok 0;
  decode = λ image pin. ok (7 ∷ []);
}

zero_pin :
    (is : List Initial) (pin : String)
    → with_zero_funds.parameters.initials ≡ some is
    → zero_funds_pin is ≡ some pin
    → length (codes pin) ≡ 4
unfolding zero_funds_pin
zero_pin is pin h e =
    let p : some "0000" ≡ some pin = ap zero_funds_pin (some-injective _ _ h) ∙ e in
    ap (λ s. length (codes s)) (sym (some-injective _ _ p))

dump_qrs-IsReadable_example :
    All (IsReadable images (codes "qr-codes/")) files
    × (length files
        ≡ length (voters world.wallets) + coded_zero_funds with_zero_funds.parameters.initials)
unfolding dump_qrs Setup.new starts_with pin_to_bytes is_digit zero_funds_count zero_funds_pin
    decimal
dump_qrs-IsReadable_example =
    dump_qrs-IsReadable images (codes "qr-codes/") crates world alice with_zero_funds files
      (refl, tt) zero_pin refl
