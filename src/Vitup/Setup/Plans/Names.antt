-- ===== src/Vitup/Setup/Plans/Names.antt =====
-- The plans of vitup/src/setup/start/quick/builder.rs are told apart by their names.
use vit_testing.Prelude.{
  ℕ, zero, suc, ◌+◌, ◌≡◌, refl, sym, ap, ◌∙◌, some, List, [], ◌∷◌, ◌++◌, length, get_elem?,
  length-append, arith,
}
use mathlib.Core.Option.{some-injective}
use vit_testing.Prelude.Text.{Text}
use vit_testing.Prelude.Text.Decimal.{decimal, decimal-injective}
use vit_testing.Vitup.Setup.{Crates, QuickVitBackendSettingsBuilder}
use vit_testing.Vitup.Setup.Plans.{
  ProposalDef, VotePlanDef, vote_plan_name, vote_plan, vote_plans_from, build_vote_plans,
}

append-cancel : (p s t : Text) → p ++ s ≡ p ++ t → s ≡ t
append-cancel [] s t h = h
append-cancel (c ∷ p) s t h = append-cancel p s t cc

pub vote_plan_name-injective :
    (fund : Text) (i j : ℕ) → vote_plan_name fund i ≡ vote_plan_name fund j → i ≡ j
unfolding vote_plan_name
vote_plan_name-injective fund zero zero h = refl
vote_plan_name-injective fund zero (suc j) h =
    absurd (omega (arith, ap length h, length-append fund (b'_' ∷ decimal (suc j))))
vote_plan_name-injective fund (suc i) zero h =
    absurd (omega (arith, ap length h, length-append fund (b'_' ∷ decimal (suc i))))
vote_plan_name-injective fund (suc i) (suc j) h =
    let e = append-cancel fund (b'_' ∷ decimal (suc i)) (b'_' ∷ decimal (suc j)) h in
    decimal-injective (suc i) (suc j) cc

module _ (crates : Crates) {ProposalId : Type 0} (b : QuickVitBackendSettingsBuilder crates) where
  get_elem?-name :
      (index : ℕ) (cs : List (List (ProposalDef ProposalId))) (i j : ℕ) (p : VotePlanDef ProposalId)
      → get_elem? (vote_plans_from crates b index cs) i ≡ some p
      → j ≡ index + i
      → p.name ≡ vote_plan_name b.parameters.fund_name j
  unfolding vote_plans_from vote_plan
  get_elem?-name index [] i j p h e = cc
  get_elem?-name index (c ∷ cs) zero j p h e =
      sym (ap (λ x. x.name) (some-injective _ _ h))
      ∙ ap (vote_plan_name b.parameters.fund_name) (omega (arith, e))
  get_elem?-name index (c ∷ cs) (suc i) j p h e =
      get_elem?-name (suc index) cs i j p h (omega arith)

-- Two of the vote plans with the same name are the same plan.
build_vote_plans-name_injective :
    (crates : Crates) {ProposalId : Type 0} (ids : ℕ → ProposalId)
    (b : QuickVitBackendSettingsBuilder crates) (i j : ℕ) (p q : VotePlanDef ProposalId)
    → get_elem? (build_vote_plans crates ids b) i ≡ some p
    → get_elem? (build_vote_plans crates ids b) j ≡ some q
    → p.name ≡ q.name
    → i ≡ j
unfolding build_vote_plans
build_vote_plans-name_injective crates ids b i j p q hi hj e =
    vote_plan_name-injective b.parameters.fund_name i j (
      sym (get_elem?-name crates b 0 _ i i p hi (omega arith))
      ∙ (e ∙ get_elem?-name crates b 0 _ j j q hj (omega arith)))
