-- ===== src/Vitup/Setup/Plans.antt =====
-- The vote plans of vitup/src/setup/start/quick/builder.rs: the proposals in chunks of 255.
pub mod Partition
pub mod Names
use vit_testing.Prelude.{
  ℕ, zero, suc, ◌+◌, ◌%◌, ◌^◌, Bool, true, List, [], ◌∷◌, ◌++◌, length, take, drop,
}
use vit_testing.Prelude.Text.{Text}
use vit_testing.Prelude.Text.Decimal.{decimal}
use vit_testing.Vitup.Setup.{Crates, QuickVitBackendSettingsBuilder}

-- What the `ProposalDefBuilder` of chain-impl-mockchain is told.
pub record ProposalDef (ProposalId : Type 0) : Type 0 where
  pub id : ProposalId
  pub options : ℕ
  pub action_off_chain : Bool

-- What its `VotePlanDefBuilder` is told: whether the payload type is set to private, and the epochs in
-- which voting starts, the tally starts and it ends.
pub record VotePlanDef (ProposalId : Type 0) : Type 0 where
  pub name : Text
  pub owner : Text
  pub private : Bool
  pub vote_phases : ℕ × ℕ × ℕ
  pub proposals : List (ProposalDef ProposalId)

abbrev pub chunk_size : ℕ
chunk_size = 255

abbrev u32_mod : ℕ
u32_mod = 2 ^ 32

module _ {A : Type 0} where
  chunks_from : ℕ → List A → List (List A)
  chunks_from zero xs = []
  chunks_from (suc fuel) [] = []
  chunks_from (suc fuel) (x ∷ xs) =
      take chunk_size (x ∷ xs) ∷ chunks_from fuel (drop chunk_size (x ∷ xs))

  -- `xs.chunks(255)`: there are no more chunks than elements.
  unfoldable pub chunks : List A → List (List A)
  unfolding chunks_from
  chunks xs = chunks_from (length xs) xs

module _ {ProposalId : Type 0} (external_proposal_id : ℕ → ProposalId) where
  -- The proposals from the given call of `external_proposal_id` on.
  proposals_from : ℕ → ℕ → List (ProposalDef ProposalId)
  proposals_from call zero = []
  proposals_from call (suc n) =
      record { id = external_proposal_id call; options = 3; action_off_chain = true }
      ∷ proposals_from (suc call) n

  unfoldable pub proposals : ℕ → List (ProposalDef ProposalId)
  unfolding proposals_from
  proposals n = proposals_from 0 n

unfoldable pub vote_plan_name : Text → ℕ → Text
vote_plan_name fund_name zero = fund_name
vote_plan_name fund_name (suc i) = fund_name ++ (b'_' ∷ decimal (suc i))

module _ (crates : Crates) {ProposalId : Type 0} where
  unfoldable pub vote_plan :
      QuickVitBackendSettingsBuilder crates
      → ℕ
      → List (ProposalDef ProposalId)
      → VotePlanDef ProposalId
  vote_plan b index ps =
      let p = b.parameters in
      record {
        name = vote_plan_name p.fund_name index;
        owner = b.committe_wallet;
        private = p.private;
        vote_phases = (p.vote_start % u32_mod, p.vote_tally % u32_mod, p.tally_end % u32_mod);
        proposals = ps;
      }

  unfoldable pub vote_plans_from :
      QuickVitBackendSettingsBuilder crates
      → ℕ
      → List (List (ProposalDef ProposalId))
      → List (VotePlanDef ProposalId)
  unfolding vote_plan
  vote_plans_from b index [] = []
  vote_plans_from b index (c ∷ cs) = vote_plan b index c ∷ vote_plans_from b (suc index) cs

  unfoldable pub build_vote_plans :
      (ℕ → ProposalId) → QuickVitBackendSettingsBuilder crates → List (VotePlanDef ProposalId)
  unfolding proposals chunks vote_plans_from
  build_vote_plans external_proposal_id b =
      vote_plans_from b 0 (chunks (proposals external_proposal_id b.parameters.proposals))
