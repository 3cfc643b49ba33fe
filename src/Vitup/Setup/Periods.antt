-- ===== src/Vitup/Setup/Periods.antt =====
-- When voting and tallying begin and end.
pub mod Laws
pub mod Stability
use vit_testing.Prelude.{ℕ, ◌+◌, ◌*◌, String, Bool, true, false, Option, none, some, List}
use vit_testing.Prelude.Int.{ℤ}
use vit_testing.Prelude.Text.{Text}
use vit_testing.Mock.Run.{Run, returns, panics, ◌>>=◌, unwrap, checked}
use vit_testing.Vitup.Setup.{Crates, VitStartParameters, QuickVitBackendSettingsBuilder, as_i64}

-- `ValidVotePlanParameters` of the vit-servicing-station crates, as it is filled here: the snapshot
-- time and the key only where they are set.
pub record ValidVotePlanParameters (Plan : Type 0) : Type 0 where
  pub vote_plans : List Plan
  pub fund_name : Text
  pub voting_power_threshold : ℤ
  pub challenges_count : ℕ
  pub voting_start : ℤ
  pub voting_tally_start : ℤ
  pub voting_tally_end : ℤ
  pub next_fund_start_time : ℤ
  pub registration_snapshot_time : Option ℤ
  pub fund_id : ℤ
  pub calculate_challenges_total_funds : Bool
  pub vote_encryption_key : Option String

module _ (crates : Crates) where
  abbrev Builder : Type 0
  Builder = QuickVitBackendSettingsBuilder crates

  -- `slot_duration as u64 * slots_per_epoch as u64`
  unfoldable pub epoch_duration : VitStartParameters crates → Run ℕ
  epoch_duration p = checked (p.slot_duration * p.slots_per_epoch)

  -- The beginning of an epoch, from the given second.
  unfoldable pub epoch_timestamp : ℕ → ℕ → ℕ → Run crates.DateTime
  unfolding as_i64
  epoch_timestamp date duration epoch = do
    offset ← checked (duration * epoch)
    seconds ← checked (date + offset)
    unwrap (crates.from_timestamp (as_i64 seconds))

  set_voting_periods : ℕ → ℕ → Option crates.DateTime → Builder → Run Builder
  unfolding epoch_timestamp
  set_voting_periods date duration (some _) b = returns b
  set_voting_periods date duration none b = do
    let p = b.parameters
    vote_start ← epoch_timestamp date duration p.vote_start
    tally_start ← epoch_timestamp date duration p.vote_tally
    tally_end ← epoch_timestamp date duration p.tally_end
    returns (record b {
      parameters = record p {
        vote_start_timestamp = some vote_start;
        tally_start_timestamp = some tally_start;
        tally_end_timestamp = some tally_end;
      };
    })

  set_next_vote : ℕ → ℕ → Option crates.DateTime → Builder → Run Builder
  unfolding as_i64
  set_next_vote now duration (some _) b = returns b
  set_next_vote now duration none b = do
    let p = b.parameters
    offset ← checked (duration * p.tally_end)
    later ← checked (now + offset)
    seconds ← checked (later + 10000)
    t ← unwrap (crates.from_timestamp (as_i64 seconds))
    returns (record b { parameters = record p { next_vote_start_time = some t } })

  -- `now` is what the clock shows.
  unfoldable pub recalculate_voting_periods_if_needed : ℕ → ℕ → Builder → Run Builder
  unfolding epoch_duration set_voting_periods set_next_vote
  recalculate_voting_periods_if_needed block0_date now b = do
    duration ← epoch_duration b.parameters
    b' ← set_voting_periods block0_date duration b.parameters.vote_start_timestamp b
    set_next_vote now duration b'.parameters.next_vote_start_time b'

  -- The key that private votes are encrypted with.
  encryption_key : (Text → Option crates.Key) → Bool → Text → Run (Option String)
  encryption_key private_vote_plans false fund_name = returns none
  encryption_key private_vote_plans true fund_name = do
    key ← unwrap (private_vote_plans fund_name)
    text ← unwrap (crates.to_base32 key)
    returns (some text)

  snapshot_time : Option crates.DateTime → Option ℤ
  snapshot_time none = none
  snapshot_time (some t) = some (crates.timestamp t)

  -- `private_vote_plans` are those of the settings, by the name of the plan.
  unfoldable pub vote_plan_parameters :
      {Plan : Type 0}
      → List Plan
      → (Text → Option crates.Key)
      → Builder
      → Run (ValidVotePlanParameters Plan)
  unfolding encryption_key snapshot_time as_i64
  vote_plan_parameters vote_plans private_vote_plans b = do
    let p = b.parameters
    threshold ← checked (p.voting_power * 1000000)
    voting_start ← unwrap p.vote_start_timestamp
    tally_start ← unwrap p.tally_start_timestamp
    tally_end ← unwrap p.tally_end_timestamp
    next_start ← unwrap p.next_vote_start_time
    key ← encryption_key private_vote_plans p.private p.fund_name
    returns (record {
      vote_plans = vote_plans;
      fund_name = p.fund_name;
      voting_power_threshold = as_i64 threshold;
      challenges_count = p.challenges;
      voting_start = crates.timestamp voting_start;
      voting_tally_start = crates.timestamp tally_start;
      voting_tally_end = crates.timestamp tally_end;
      next_fund_start_time = crates.timestamp next_start;
      registration_snapshot_time = snapshot_time p.refresh_time;
      fund_id = p.fund_id;
      calculate_challenges_total_funds = false;
      vote_encryption_key = key;
    })
