-- ===== src/Vitup/Setup/Periods/Stability.antt =====
-- What a recalculation of the voting periods leaves as it is.
use vit_testing.Prelude.{
  ℕ, ◌+◌, ◌*◌, ◌≡◌, ◌≢◌, ◌⊎◌, inl, inr, refl, sym, ap, ◌∙◌, Option, none, some, List,
}
use vit_testing.Prelude.Text.{Text}
use vit_testing.Mock.Run.{
  returns, returns-injective, unwrap, checked, >>=-eq-returns, unwrap-eq-returns,
}
use vit_testing.Vitup.Setup.{Crates, QuickVitBackendSettingsBuilder, as_i64}
use vit_testing.Vitup.Setup.Periods.{
  ValidVotePlanParameters, epoch_duration, epoch_timestamp, set_voting_periods, set_next_vote,
  recalculate_voting_periods_if_needed, vote_plan_parameters,
}
use vit_testing.Vitup.Setup.Periods.Laws.{adjusted}

module _ (crates : Crates) where
  set_voting_periods-sets :
      (date duration : ℕ) (o : Option crates.DateTime)
      (b b' : QuickVitBackendSettingsBuilder crates)
      → b.parameters.vote_start_timestamp ≡ o
      → set_voting_periods crates date duration o b ≡ returns b'
      → (t : crates.DateTime) × (b'.parameters.vote_start_timestamp ≡ some t)
        × (epoch_duration crates b'.parameters ≡ epoch_duration crates b.parameters)
  unfolding set_voting_periods epoch_duration
  set_voting_periods-sets date duration (some t) b b' e h =
      let i = returns-injective b b' h in
      (
        t,
        sym (ap (λ x. x.parameters.vote_start_timestamp) i) ∙ e,
        sym (ap (λ x. epoch_duration crates x.parameters) i),
      )
  set_voting_periods-sets date duration none b b' e h =
      let (t₁, _, h₁) = >>=-eq-returns (epoch_timestamp crates date duration _) _ h in
      let (t₂, _, h₂) = >>=-eq-returns (epoch_timestamp crates date duration _) _ h₁ in
      let (t₃, _, h₃) = >>=-eq-returns (epoch_timestamp crates date duration _) _ h₂ in
      let i = returns-injective _ b' h₃ in
      (
        t₁,
        sym (ap (λ x. x.parameters.vote_start_timestamp) i),
        sym (ap (λ x. epoch_duration crates x.parameters) i),
      )

  set_next_vote-sets :
      (now duration : ℕ) (o : Option crates.DateTime) (b b' : QuickVitBackendSettingsBuilder crates)
      → b.parameters.next_vote_start_time ≡ o
      → set_next_vote crates now duration o b ≡ returns b'
      → (t : crates.DateTime) × (b'.parameters.next_vote_start_time ≡ some t)
        × (b'.parameters.vote_start_timestamp ≡ b.parameters.vote_start_timestamp)
        × (b'.parameters.tally_start_timestamp ≡ b.parameters.tally_start_timestamp)
        × (b'.parameters.tally_end_timestamp ≡ b.parameters.tally_end_timestamp)
        × (epoch_duration crates b'.parameters ≡ epoch_duration crates b.parameters)
  unfolding set_next_vote epoch_duration
  set_next_vote-sets now duration (some t) b b' e h =
      let i = returns-injective b b' h in
      (
        t,
        sym (ap (λ x. x.parameters.next_vote_start_time) i) ∙ e,
        sym (ap (λ x. x.parameters.vote_start_timestamp) i),
        sym (ap (λ x. x.parameters.tally_start_timestamp) i),
        sym (ap (λ x. x.parameters.tally_end_timestamp) i),
        sym (ap (λ x. epoch_duration crates x.parameters) i),
      )
  set_next_vote-sets now duration none b b' e h =
      let (offset, _, h₁) = >>=-eq-returns (checked (duration * b.parameters.tally_end)) _ h in
      let (later, _, h₂) = >>=-eq-returns (checked (now + offset)) _ h₁ in
      let (seconds, _, h₃) = >>=-eq-returns (checked (later + 10000)) _ h₂ in
      let (t, _, h₄) = >>=-eq-returns (unwrap (crates.from_timestamp (as_i64 seconds))) _ h₃ in
      let i = returns-injective _ b' h₄ in
      (
        t,
        sym (ap (λ x. x.parameters.next_vote_start_time) i),
        sym (ap (λ x. x.parameters.vote_start_timestamp) i),
        sym (ap (λ x. x.parameters.tally_start_timestamp) i),
        sym (ap (λ x. x.parameters.tally_end_timestamp) i),
        sym (ap (λ x. epoch_duration crates x.parameters) i),
      )

-- What has been recalculated is not recalculated again, whatever the dates are then.
recalculate-idempotent :
    (crates : Crates) (date now later_date later : ℕ) (b b' : QuickVitBackendSettingsBuilder crates)
    → recalculate_voting_periods_if_needed crates date now b ≡ returns b'
    → recalculate_voting_periods_if_needed crates later_date later b' ≡ returns b'
unfolding recalculate_voting_periods_if_needed set_voting_periods set_next_vote
recalculate-idempotent crates date now later_date later b b' h =
    let (duration, d, h₁) = >>=-eq-returns (epoch_duration crates b.parameters) _ h in
    let (b₁, s, h₂) = >>=-eq-returns (set_voting_periods crates date duration _ b) _ h₁ in
    let (t₁, e₁, d₁) = set_voting_periods-sets crates date duration _ b b₁ refl s in
    let (t₂, e₂, e₃, _, _, d₂) = set_next_vote-sets crates now duration _ b₁ b' refl h₂ in
    rw (d₂ ∙ (d₁ ∙ d), e₃ ∙ e₁, e₂)

module _ (crates : Crates) where
  -- Parameters that are made take the times of the tally from the builder.
  vote_plan_parameters-times :
      {Plan : Type 0} (plans : List Plan) (keys : Text → Option crates.Key)
      (b : QuickVitBackendSettingsBuilder crates) (v : ValidVotePlanParameters Plan)
      → vote_plan_parameters crates plans keys b ≡ returns v
      → (t₂ t₃ : crates.DateTime) × (b.parameters.tally_start_timestamp ≡ some t₂)
        × (b.parameters.tally_end_timestamp ≡ some t₃)
  unfolding vote_plan_parameters
  vote_plan_parameters-times plans keys b v h =
      let p = b.parameters in
      let (_, _, h₁) = >>=-eq-returns (checked (p.voting_power * 1000000)) _ h in
      let (_, _, h₂) = >>=-eq-returns (unwrap p.vote_start_timestamp) _ h₁ in
      let (t₂, e₂, h₃) = >>=-eq-returns (unwrap p.tally_start_timestamp) _ h₂ in
      let (t₃, e₃, _) = >>=-eq-returns (unwrap p.tally_end_timestamp) _ h₃ in
      (
        t₂,
        t₃,
        unwrap-eq-returns p.tally_start_timestamp t₂ e₂,
        unwrap-eq-returns p.tally_end_timestamp t₃ e₃,
      )

  set_voting_periods-given :
      (date duration : ℕ) (o : Option crates.DateTime) (b : QuickVitBackendSettingsBuilder crates)
      (t : crates.DateTime)
      → o ≡ some t
      → set_voting_periods crates date duration o b ≡ returns b
  unfolding set_voting_periods
  set_voting_periods-given date duration o b t e = rw e

  -- With the start of the vote given, the times of the tally stay as they are.
  recalculate-tally :
      (date now : ℕ) (b b' : QuickVitBackendSettingsBuilder crates) (t : crates.DateTime)
      → b.parameters.vote_start_timestamp ≡ some t
      → recalculate_voting_periods_if_needed crates date now b ≡ returns b'
      → (b'.parameters.tally_start_timestamp ≡ b.parameters.tally_start_timestamp)
        × (b'.parameters.tally_end_timestamp ≡ b.parameters.tally_end_timestamp)
  unfolding recalculate_voting_periods_if_needed
  recalculate-tally date now b b' t e h =
      let (duration, _, h₁) = >>=-eq-returns (epoch_duration crates b.parameters) _ h in
      let (b₁, s, h₂) =
        >>=-eq-returns (set_voting_periods crates date duration b.parameters.vote_start_timestamp b)
          _ h₁ in
      let (_, _, _, e₁, e₂, _) = set_next_vote-sets crates now duration _ b₁ b' refl h₂ in
      let i = returns-injective b b₁ (sym (set_voting_periods-given date duration _ b t e) ∙ s) in
      (
        e₁ ∙ sym (ap (λ x. x.parameters.tally_start_timestamp) i),
        e₂ ∙ sym (ap (λ x. x.parameters.tally_end_timestamp) i),
      )

-- Where the start of the vote is given as a time, and the start or the end of the tally is not, no
-- parameters of vote plans are made.
pub vote_start_timestamp-alone :
    (crates : Crates) (date now : ℕ) {Plan : Type 0} (plans : List Plan)
    (keys : Text → Option crates.Key) (b : QuickVitBackendSettingsBuilder crates)
    (t : crates.DateTime)
    → b.parameters.vote_start_timestamp ≡ some t
    → (b.parameters.tally_start_timestamp ≡ none) ⊎ (b.parameters.tally_end_timestamp ≡ none)
    → (v : ValidVotePlanParameters Plan) → adjusted crates date now plans keys b ≢ returns v
vote_start_timestamp-alone crates date now plans keys b t e missing v h =
    let (b', r, h₁) = >>=-eq-returns (recalculate_voting_periods_if_needed crates date now b) _ h in
    let (t₂, t₃, e₂, e₃) = vote_plan_parameters-times crates plans keys b' v h₁ in
    let (f₂, f₃) = recalculate-tally crates date now b b' t e r in
    elim missing [ inl n ↦ cc | inr n ↦ cc ]
