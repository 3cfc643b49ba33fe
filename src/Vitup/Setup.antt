-- ===== src/Vitup/Setup.antt =====
-- vitup/src/setup/start/quick/builder.rs and vitup/src/config/env.rs: the settings of a quick backend,
-- and what is built of them. Arithmetic that overflows panics, as it does in a debug build.
pub mod Periods
pub mod Plans
pub mod Network
pub mod Qr
use vit_testing.Prelude.{
  ℕ, ◌+◌, ◌-◌, ◌*◌, ◌^◌, String, Bool, true, false, Option, none, some, List, [], ◌∷◌, ltb,
  if◌then◌else◌,
}
use vit_testing.Prelude.Int.{ℤ, pos, negsuc}
use vit_testing.Prelude.Text.{Text, codes}
use vit_testing.Iapyx.Proxy.{Protocol, http}
use vit_testing.Mock.Run.{Run, returns, panics, ◌>>=◌, unwrap, checked}
use vit_testing.Vitup.Initials.{Initial, new_above_threshold}

-- What the builder uses of other crates: `NaiveDateTime` of chrono, whose `from_timestamp` panics where
-- it gives none here; the ids of committees; and the keys for encrypting votes, in base 32 where they
-- can be written so.
pub record Crates : Type 1 where
  pub DateTime : Type 0
  pub parse_from_str : String → String → Option DateTime
  pub from_timestamp : ℤ → Option DateTime
  pub timestamp : DateTime → ℤ
  pub CommitteeId : Type 0
  pub Key : Type 0
  pub to_base32 : Key → Option String

pub record VitStartParameters (crates : Crates) : Type 0 where
  pub initials : Option (List Initial)
  pub protocol : Protocol
  pub vote_start : ℕ
  pub vote_tally : ℕ
  pub tally_end : ℕ
  pub vote_start_timestamp : Option crates.DateTime
  pub tally_start_timestamp : Option crates.DateTime
  pub tally_end_timestamp : Option crates.DateTime
  pub next_vote_start_time : Option crates.DateTime
  pub refresh_time : Option crates.DateTime
  pub proposals : ℕ
  pub challenges : ℕ
  pub slot_duration : ℕ
  pub slots_per_epoch : ℕ
  pub voting_power : ℕ
  pub fund_name : Text
  pub fund_id : ℤ
  pub private : Bool
  pub version : String

-- `LinearFee::new(constant, coefficient, certificate)`
pub record LinearFee : Type 0 where
  pub constant : ℕ
  pub coefficient : ℕ
  pub certificate : ℕ

pub record QuickVitBackendSettingsBuilder (crates : Crates) : Type 0 where
  pub parameters : VitStartParameters crates
  pub committe_wallet : Text
  pub external_committees : List crates.CommitteeId
  pub fees : LinearFee
  pub title : String
  pub skip_qr_generation : Bool

-- `a - b` on u64 in a debug build.
unfoldable pub checked_sub : ℕ → ℕ → Run ℕ
checked_sub a b = if ltb a b then panics else returns (a - b)

-- `n as i64`
unfoldable pub as_i64 : ℕ → ℤ
as_i64 n = if ltb n (2 ^ 63) then pos n else negsuc (2 ^ 64 - 1 - n)

abbrev pub format : String
format = "%Y-%m-%d %H:%M:%S"

module _ (crates : Crates) where
  unfoldable pub default_parameters : VitStartParameters crates
  default_parameters = record {
    initials = none;
    protocol = http;
    vote_start = 1;
    vote_tally = 2;
    tally_end = 3;
    vote_start_timestamp = none;
    tally_start_timestamp = none;
    tally_end_timestamp = none;
    next_vote_start_time = none;
    refresh_time = none;
    proposals = 100;
    challenges = 4;
    slot_duration = 20;
    slots_per_epoch = 30;
    voting_power = 8000;
    fund_name = codes "fund_3";
    fund_id = pos 1;
    private = false;
    version = "2.0";
  }

  -- In seconds. `slots_per_epoch - 1` is on u32.
  unfoldable pub calculate_vote_duration : VitStartParameters crates → Run ℕ
  unfolding checked_sub
  calculate_vote_duration p = do
    epochs ← checked_sub p.vote_tally p.vote_start
    seconds ← checked (epochs * p.slot_duration)
    slots ← checked_sub p.slots_per_epoch 1
    checked (seconds * slots)

module _ (crates : Crates) where
  abbrev Builder : Type 0
  Builder = QuickVitBackendSettingsBuilder crates

  unfoldable pub new : Builder
  unfolding default_parameters
  new = record {
    parameters = default_parameters crates;
    committe_wallet = codes "committee_1";
    external_committees = [];
    fees = record { constant = 0; coefficient = 0; certificate = 0 };
    title = "vit_backend";
    skip_qr_generation = false;
  }

  unfoldable pub fees : LinearFee → Builder → Builder
  fees f b = record b { fees = f }

  unfoldable pub set_external_committees : List crates.CommitteeId → Builder → Builder
  set_external_committees cs b = record b { external_committees = cs }

  unfoldable pub skip_qr_generation : Builder → Builder
  skip_qr_generation b = record b { skip_qr_generation = true }

  unfoldable pub upload_parameters : VitStartParameters crates → Builder → Builder
  upload_parameters p b = record b { parameters = p }

  -- A change of the parameters alone.
  abbrev pub adjust : (VitStartParameters crates → VitStartParameters crates) → Builder → Builder
  adjust f b = record b { parameters = f b.parameters }

  unfoldable pub with_protocol : Protocol → Builder → Builder
  with_protocol protocol = adjust (λ p. record p { protocol = protocol })

  unfoldable pub initials : List Initial → Builder → Builder
  initials is = adjust (λ p. record p { initials = some is })

  unfoldable pub initials_count : ℕ → String → Builder → Builder
  unfolding initials new_above_threshold
  initials_count n pin = initials (new_above_threshold n pin)

  unfoldable pub vote_start_epoch : ℕ → Builder → Builder
  vote_start_epoch n = adjust (λ p. record p { vote_start = n })

  unfoldable pub tally_start_epoch : ℕ → Builder → Builder
  tally_start_epoch n = adjust (λ p. record p { vote_tally = n })

  unfoldable pub tally_end_epoch : ℕ → Builder → Builder
  tally_end_epoch n = adjust (λ p. record p { tally_end = n })

  unfoldable pub slot_duration_in_seconds : ℕ → Builder → Builder
  slot_duration_in_seconds n = adjust (λ p. record p { slot_duration = n })

  unfoldable pub slots_in_epoch_count : ℕ → Builder → Builder
  slots_in_epoch_count n = adjust (λ p. record p { slots_per_epoch = n })

  unfoldable pub version : String → Builder → Builder
  version v = adjust (λ p. record p { version = v })

  unfoldable pub proposals_count : ℕ → Builder → Builder
  proposals_count n = adjust (λ p. record p { proposals = n })

  unfoldable pub voting_power : ℕ → Builder → Builder
  voting_power n = adjust (λ p. record p { voting_power = n })

  unfoldable pub private : Bool → Builder → Builder
  private v = adjust (λ p. record p { private = v })

  -- `parse_from_str(&timestamp, FORMAT).unwrap()`, where a timestamp is given.
  parse_timestamp : (crates.DateTime → Builder → Builder) → Option String → Builder → Run Builder
  parse_timestamp set none b = returns b
  parse_timestamp set (some timestamp) b = do
    t ← unwrap (crates.parse_from_str timestamp format)
    returns (set t b)

  unfoldable pub next_vote_timestamp : Option String → Builder → Run Builder
  unfolding parse_timestamp
  next_vote_timestamp =
      parse_timestamp (λ t. adjust (λ p. record p { next_vote_start_time = some t }))

  unfoldable pub refresh_timestamp : Option String → Builder → Run Builder
  unfolding parse_timestamp
  refresh_timestamp = parse_timestamp (λ t. adjust (λ p. record p { refresh_time = some t }))

  unfoldable pub vote_start_timestamp : Option String → Builder → Run Builder
  unfolding parse_timestamp
  vote_start_timestamp =
      parse_timestamp (λ t. adjust (λ p. record p { vote_start_timestamp = some t }))

  unfoldable pub tally_start_timestamp : Option String → Builder → Run Builder
  unfolding parse_timestamp
  tally_start_timestamp =
      parse_timestamp (λ t. adjust (λ p. record p { tally_start_timestamp = some t }))

  unfoldable pub tally_end_timestamp : Option String → Builder → Run Builder
  unfolding parse_timestamp
  tally_end_timestamp =
      parse_timestamp (λ t. adjust (λ p. record p { tally_end_timestamp = some t }))
