-- ===== src/Mock/State/FundId.antt =====
-- What `set_fund_id` of vitup/src/mock/mock_state.rs leaves of the old ids.
use vit_testing.Prelude.{◌≡◌, refl, List, [], ◌∷◌, ◌++◌, map, All, ap, ◌∙◌}
use vit_testing.Prelude.Int.{ℤ}
use vit_testing.Mock.Chain.{Chain}
use vit_testing.Mock.Run.{Run, returns, ◌>>=◌}
use vit_testing.Mock.State.{
  Challenge, VotePlan, Fund, Proposal, Snapshot, MockState, set_challenge_fund, set_vote_plan_fund,
  set_proposal_fund, set_fund, set_last_fund, set_fund_id,
}

module _ {Rest : Type 0} where
  -- The whole station speaks of one fund: its last one has this id, and all that belongs to a fund
  -- belongs to it.
  pub record HasFund (id : ℤ) (s : Snapshot Rest) (before : List (Fund Rest)) (last : Fund Rest)
      : Type 0 where
    pub funds : s.funds ≡ before ++ last ∷ []
    pub last_id : last.id ≡ id
    pub last_challenges : All (λ x. x.fund_id ≡ id) last.challenges
    pub last_vote_plans : All (λ x. x.fund_id ≡ id) last.chain_vote_plans
    pub challenges : All (λ x. x.fund_id ≡ id) s.challenges
    pub proposals : All (λ x. x.fund_id ≡ id) s.proposals

  set_last_fund-append :
      (id : ℤ) (before : List (Fund Rest)) (last : Fund Rest)
      → set_last_fund id (before ++ last ∷ []) ≡ returns (before ++ set_fund id last ∷ [])
  unfolding set_last_fund
  set_last_fund-append id [] last = refl
  set_last_fund-append id (f ∷ []) last = refl
  set_last_fund-append id (f ∷ g ∷ fs) last = rw (set_last_fund-append id (g ∷ fs) last)

  All-challenges :
      (id : ℤ) (xs : List (Challenge Rest))
      → All (λ x. x.fund_id ≡ id) (map (set_challenge_fund id) xs)
  All-challenges id [] = tt
  All-challenges id (x ∷ xs) = (refl, All-challenges id xs)

  All-vote_plans :
      (id : ℤ) (xs : List (VotePlan Rest))
      → All (λ x. x.fund_id ≡ id) (map (set_vote_plan_fund id) xs)
  All-vote_plans id [] = tt
  All-vote_plans id (x ∷ xs) = (refl, All-vote_plans id xs)

  All-proposals :
      (id : ℤ) (xs : List (Proposal Rest))
      → All (λ x. x.fund_id ≡ id) (map (set_proposal_fund id) xs)
  All-proposals id [] = tt
  All-proposals id (x ∷ xs) = (refl, All-proposals id xs)

module _ {c : Chain} {Rest : Type 0} where
  -- With a fund to renumber, after `set_fund_id` the last fund has the new id and everything in it,
  -- every challenge and every proposal of the station names it, while the funds before it, the
  -- ledger, the version and the availability are as they were.
  pub set_fund_id-HasFund :
      (id : ℤ) (s : MockState c Rest) (before : List (Fund Rest)) (last : Fund Rest)
      → s.vit_state.funds ≡ before ++ last ∷ []
      → (v : Snapshot Rest) × (set_fund_id id s ≡ returns (record s { vit_state = v }))
        × HasFund id v before (set_fund id last)
  unfolding set_fund_id
  set_fund_id-HasFund id s before last h = (
    record {
      funds = before ++ set_fund id last ∷ [];
      challenges = map (set_challenge_fund id) s.vit_state.challenges;
      proposals = map (set_proposal_fund id) s.vit_state.proposals;
    },
    ap (λ m. m >>= renumber) (ap (set_last_fund id) h ∙ set_last_fund-append id before last),
    record {
      funds = refl;
      last_id = refl;
      last_challenges = All-challenges id last.challenges;
      last_vote_plans = All-vote_plans id last.chain_vote_plans;
      challenges = All-challenges id s.vit_state.challenges;
      proposals = All-proposals id s.vit_state.proposals;
    },
  )
    where
      renumber : List (Fund Rest) → Run (MockState c Rest)
      renumber funds = returns (record s {
        vit_state = record {
          funds = funds;
          challenges = map (set_challenge_fund id) s.vit_state.challenges;
          proposals = map (set_proposal_fund id) s.vit_state.proposals;
        };
      })
