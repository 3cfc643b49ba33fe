-- ===== src/Vitup/Setup/Periods/Laws.antt =====
-- What the voting periods of vitup/src/setup/start/quick/builder.rs come to.
use vit_testing.Prelude.{
  ℕ, ◌+◌, ◌*◌, ◌^◌, ◌≤◌, ◌<◌, String, false, ◌≡◌, ◌⊎◌, inl, inr, refl, ap, ◌∙◌, Option, none, some,
  List, lt→ltb, Bool-cases, arith,
}
use vit_testing.Prelude.Int.{pos}
use vit_testing.Prelude.Text.{Text}
use vit_testing.Mock.Run.{Run, returns, ◌>>=◌, unwrap, checked-eq-returns}
use vit_testing.Vitup.Setup.{Crates, VitStartParameters, QuickVitBackendSettingsBuilder, as_i64}
use vit_testing.Vitup.Setup.Periods.{
  ValidVotePlanParameters, epoch_duration, epoch_timestamp, set_voting_periods, set_next_vote,
  snapshot_time, recalculate_voting_periods_if_needed, encryption_key, vote_plan_parameters,
}

-- Seconds up to the limit are turned into times and back.
abbrev pub CountsTo : Crates → ℕ → Type 0
CountsTo crates limit =
    (n : ℕ)
    → n ≤ limit
    → (t : crates.DateTime) × (crates.from_timestamp (pos n) ≡ some t)
      × (crates.timestamp t ≡ pos n)

as_i64-pos : (n : ℕ) → n < 2 ^ 63 → as_i64 n ≡ pos n
unfolding as_i64
as_i64-pos n h = rw (lt→ltb n (2 ^ 63) h)

module _ (crates : Crates) (limit : ℕ) (counts : CountsTo crates limit)
    (small : limit < 2 ^ 63) where
  from_timestamp-eq-some :
      (n : ℕ)
      → n ≤ limit
      → (t : crates.DateTime) × (unwrap (crates.from_timestamp (as_i64 n)) ≡ returns t)
        × (crates.timestamp t ≡ pos n)
  from_timestamp-eq-some n h =
      let (t, e, s) = counts n h in (t, rw (as_i64-pos n (omega arith), e), s)

  epoch_timestamp-eq-returns :
      (date duration epoch : ℕ)
      → date + duration * epoch ≤ limit
      → (t : crates.DateTime) × (epoch_timestamp crates date duration epoch ≡ returns t)
        × (crates.timestamp t ≡ pos (date + duration * epoch))
  unfolding epoch_timestamp
  epoch_timestamp-eq-returns date duration epoch h =
      let (t, e, s) = from_timestamp-eq-some (date + duration * epoch) h in
      (
        t,
        rw (
          checked-eq-returns (duration * epoch) (omega arith),
          checked-eq-returns (date + duration * epoch) (omega arith),
          e,
        ),
        s,
      )

-- The votes are public, or there is a key for the fund that can be written out.
abbrev pub HasKey :
    (crates : Crates) → (Text → Option crates.Key) → VitStartParameters crates → Type 0
HasKey crates keys p =
    (p.private ≡ false)
    ⊎ ((k : crates.Key) × (text : String) × (keys p.fund_name ≡ some k)
        × (crates.to_base32 k ≡ some text))

module _ (crates : Crates) where
  abbrev Builder : Type 0
  Builder = QuickVitBackendSettingsBuilder crates

  -- Both at once, as `build` does them.
  abbrev pub adjusted :
      {Plan : Type 0}
      → ℕ
      → ℕ
      → List Plan
      → (Text → Option crates.Key)
      → Builder
      → Run (ValidVotePlanParameters Plan)
  adjusted date now plans keys b = do
    b' ← recalculate_voting_periods_if_needed crates date now b
    vote_plan_parameters crates plans keys b'

  encryption_key-eq-returns :
      (keys : Text → Option crates.Key) (p : VitStartParameters crates)
      → HasKey crates keys p
      → (k : Option String) × (encryption_key crates keys p.private p.fund_name ≡ returns k)
  unfolding encryption_key
  encryption_key-eq-returns keys p (inl e) = (none, rw e)
  encryption_key-eq-returns keys p (inr (k, text, e, f)) = elim (Bool-cases p.private) [
    | inl h ↦ (some text, rw (h, e, f))
    | inr h ↦ (none, rw h)
  ]

  -- With the four times, the parameters can be made.
  vote_plan_parameters-eq-returns :
      {Plan : Type 0} (plans : List Plan) (keys : Text → Option crates.Key) (b : Builder)
      (t₁ t₂ t₃ t₄ : crates.DateTime)
      → HasKey crates keys b.parameters
      → b.parameters.voting_power * 1000000 < 2 ^ 63
      → (v : ValidVotePlanParameters Plan) × (vote_plan_parameters crates plans keys (record b {
        parameters = record b.parameters {
          vote_start_timestamp = some t₁;
          tally_start_timestamp = some t₂;
          tally_end_timestamp = some t₃;
          next_vote_start_time = some t₄;
        };
      })
          ≡ returns v)
        × (v.vote_plans ≡ plans)
        × (v.voting_start ≡ crates.timestamp t₁)
        × (v.voting_tally_start ≡ crates.timestamp t₂)
        × (v.voting_tally_end ≡ crates.timestamp t₃)
        × (v.next_fund_start_time ≡ crates.timestamp t₄)
        × (v.voting_power_threshold ≡ pos (b.parameters.voting_power * 1000000))
  unfolding vote_plan_parameters snapshot_time
  vote_plan_parameters-eq-returns plans keys b t₁ t₂ t₃ t₄ key power =
      let p = b.parameters in
      let (k, e) = encryption_key-eq-returns keys p key in
      (
        record {
          vote_plans = plans;
          fund_name = p.fund_name;
          voting_power_threshold = as_i64 (p.voting_power * 1000000);
          challenges_count = p.challenges;
          voting_start = crates.timestamp t₁;
          voting_tally_start = crates.timestamp t₂;
          voting_tally_end = crates.timestamp t₃;
          next_fund_start_time = crates.timestamp t₄;
          registration_snapshot_time = snapshot_time crates p.refresh_time;
          fund_id = p.fund_id;
          calculate_challenges_total_funds = false;
          vote_encryption_key = k;
        },
        rw (checked-eq-returns (p.voting_power * 1000000) (omega arith), e),
        refl,
        refl,
        refl,
        refl,
        refl,
        as_i64-pos (p.voting_power * 1000000) power,
      )

-- The sums for the beginnings of the epochs and of the next vote stay within the limit.
abbrev pub IsWithin : (crates : Crates) → ℕ → ℕ → ℕ → VitStartParameters crates → Type 0
IsWithin crates limit date now p =
    let duration = p.slot_duration * p.slots_per_epoch in
    (duration < 2 ^ 64)
    × (date + duration * p.vote_start ≤ limit)
    × (date + duration * p.vote_tally ≤ limit)
    × (date + duration * p.tally_end ≤ limit)
    × (now + duration * p.tally_end + 10000 ≤ limit)

module _ (crates : Crates) where
  -- The builder with the four times.
  abbrev timed :
      (t₁ t₂ t₃ t₄ : crates.DateTime)
      → QuickVitBackendSettingsBuilder crates
      → QuickVitBackendSettingsBuilder crates
  timed t₁ t₂ t₃ t₄ b = record b {
    parameters = record b.parameters {
      vote_start_timestamp = some t₁;
      tally_start_timestamp = some t₂;
      tally_end_timestamp = some t₃;
      next_vote_start_time = some t₄;
    };
  }

  recalculate-timed :
      (date now duration : ℕ) (b : QuickVitBackendSettingsBuilder crates)
      (t₁ t₂ t₃ t₄ : crates.DateTime)
      → b.parameters.vote_start_timestamp ≡ none
      → b.parameters.next_vote_start_time ≡ none
      → epoch_duration crates b.parameters ≡ returns duration
      → epoch_timestamp crates date duration b.parameters.vote_start ≡ returns t₁
      → epoch_timestamp crates date duration b.parameters.vote_tally ≡ returns t₂
      → epoch_timestamp crates date duration b.parameters.tally_end ≡ returns t₃
      → now + duration * b.parameters.tally_end + 10000 < 2 ^ 63
      → unwrap (crates.from_timestamp (as_i64 (now + duration * b.parameters.tally_end + 10000)))
        ≡ returns t₄
      → recalculate_voting_periods_if_needed crates date now b ≡ returns (timed t₁ t₂ t₃ t₄ b)
  unfolding recalculate_voting_periods_if_needed set_voting_periods set_next_vote
  recalculate-timed date now duration b t₁ t₂ t₃ t₄ e₁ e₂ d f₁ f₂ f₃ small f₄ =
      let offset = duration * b.parameters.tally_end in
      rw (
        d,
        e₁,
        f₁,
        f₂,
        f₃,
        e₂,
        checked-eq-returns offset (omega arith),
        checked-eq-returns (now + offset) (omega arith),
        checked-eq-returns (now + offset + 10000) (omega arith),
        f₄,
      )

pub recalculate-vote_plan_parameters :
    (crates : Crates) (limit date now : ℕ) {Plan : Type 0} (plans : List Plan)
    (keys : Text → Option crates.Key) (b : QuickVitBackendSettingsBuilder crates)
    → CountsTo crates limit
    → limit < 2 ^ 63
    → b.parameters.vote_start_timestamp ≡ none
    → b.parameters.next_vote_start_time ≡ none
    → HasKey crates keys b.parameters
    → b.parameters.voting_power * 1000000 < 2 ^ 63
    → IsWithin crates limit date now b.parameters
    → (let p = b.parameters in
        let duration = p.slot_duration * p.slots_per_epoch in
        (v : ValidVotePlanParameters Plan) × (adjusted crates date now plans keys b ≡ returns v)
        × (v.vote_plans ≡ plans)
        × (v.voting_start ≡ pos (date + duration * p.vote_start))
        × (v.voting_tally_start ≡ pos (date + duration * p.vote_tally))
        × (v.voting_tally_end ≡ pos (date + duration * p.tally_end))
        × (v.next_fund_start_time ≡ pos (now + duration * p.tally_end + 10000))
        × (v.voting_power_threshold ≡ pos (p.voting_power * 1000000)))
unfolding epoch_duration
recalculate-vote_plan_parameters crates limit date now plans keys b counts small e₁ e₂ key power
      (d, h₁, h₂, h₃, h₄) =
    let p = b.parameters in
    let duration = p.slot_duration * p.slots_per_epoch in
    let begin = epoch_timestamp-eq-returns crates limit counts small date duration in
    let (t₁, f₁, s₁) = begin p.vote_start h₁ in
    let (t₂, f₂, s₂) = begin p.vote_tally h₂ in
    let (t₃, f₃, s₃) = begin p.tally_end h₃ in
    let (t₄, f₄, s₄) =
      from_timestamp-eq-some crates limit counts small (now + duration * p.tally_end + 10000) h₄ in
    let (v, e, r₀, r₁, r₂, r₃, r₄, r₅) =
      vote_plan_parameters-eq-returns crates plans keys b t₁ t₂ t₃ t₄ key power in
    let timing =
      recalculate-timed crates date now duration b t₁ t₂ t₃ t₄ e₁ e₂ (checked-eq-returns duration d)
        f₁ f₂ f₃ (omega arith) f₄ in
    (
      v,
      ap (λ m. m >>= vote_plan_parameters crates plans keys) timing ∙ e,
      r₀,
      r₁ ∙ s₁,
      r₂ ∙ s₂,
      r₃ ∙ s₃,
      r₄ ∙ s₄,
      r₅,
    )
