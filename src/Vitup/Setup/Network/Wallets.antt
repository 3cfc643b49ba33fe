-- ===== src/Vitup/Setup/Network/Wallets.antt =====
-- The blockchain that vitup/src/setup/start/quick/builder.rs sets up: its wallets and committee.
use vit_testing.Prelude.{
  ℕ, suc, ◌<◌, ◌≡◌, inl, inr, refl, some, List, [], ◌∷◌, get_elem?, All, ltb, ltb→lt, Bool-cases,
  arith,
}
use mathlib.Core.Path.{subst}
use vit_testing.Mock.Run.{returns, returns-injective, >>=-eq-returns}
use vit_testing.Vitup.Initials.{Template}
use vit_testing.Vitup.Setup.{Crates, QuickVitBackendSettingsBuilder}
use vit_testing.Vitup.Setup.Plans.{ProposalDef, vote_plan, vote_plans_from, build_vote_plans}
use vit_testing.Vitup.Setup.Network.{
  WalletTemplate, Blockchain, Jormungandr, committee_template, add_wallets, valid, blockchain_of,
}

module _ (crates : Crates) {ProposalId : Type 0} (b : QuickVitBackendSettingsBuilder crates) where
  vote_plans_from-owner :
      (index : ℕ) (cs : List (List (ProposalDef ProposalId)))
      → All (λ p. p.owner ≡ b.committe_wallet) (vote_plans_from crates b index cs)
  unfolding vote_plans_from vote_plan
  vote_plans_from-owner index [] = tt
  vote_plans_from-owner index (c ∷ cs) = (refl, vote_plans_from-owner (suc index) cs)

  build_vote_plans-owner :
      (ids : ℕ → ProposalId)
      → All (λ p. p.owner ≡ b.committe_wallet) (build_vote_plans crates ids b)
  unfolding build_vote_plans
  build_vote_plans-owner ids = vote_plans_from-owner 0 _

module _ (crates : Crates) {ProposalId : Type 0} (j : Jormungandr crates ProposalId) where
  add_wallets-funded : (ts : List Template) → All (λ w. 0 < w.value) (add_wallets crates j ts)
  unfolding add_wallets
  add_wallets-funded [] = tt
  add_wallets-funded (t ∷ ts) =
      let rest = add_wallets-funded ts in
      elim (Bool-cases (ltb 0 t.value)) [
        | inl e ↦ rw e (ltb→lt 0 t.value e, rest)
        | inr e ↦ rw e rest
      ]

-- In a blockchain that is set up, every wallet has funds, the committee is the first wallet alone, and
-- it owns every vote plan.
blockchain_of-IsFunded :
    (crates : Crates) {ProposalId : Type 0} (j : Jormungandr crates ProposalId)
    (ids : ℕ → ProposalId) (ts : List Template) (b : QuickVitBackendSettingsBuilder crates)
    (c : Blockchain crates ProposalId)
    → blockchain_of crates j ids ts b ≡ returns c
    → All (λ w. 0 < w.value) c.wallets
      × ((w : WalletTemplate) × (get_elem? c.wallets 0 ≡ some w)
          × (c.committees ≡ w.alias ∷ [])
          × All (λ p. p.owner ≡ w.alias) c.vote_plans)
unfolding blockchain_of committee_template
blockchain_of-IsFunded crates j ids ts b c h =
    let p = b.parameters in
    let (slots, _, h₁) =
      >>=-eq-returns (valid crates j (j.is_slots_per_epoch p.slots_per_epoch) p.slots_per_epoch) _
        h in
    let (duration, _, h₂) =
      >>=-eq-returns (valid crates j (j.is_slot_duration p.slot_duration) p.slot_duration) _ h₁ in
    subst
      (λ x.
        All (λ w. 0 < w.value) x.wallets
        × ((w : WalletTemplate) × (get_elem? x.wallets 0 ≡ some w)
            × (x.committees ≡ w.alias ∷ [])
            × All (λ p. p.owner ≡ w.alias) x.vote_plans))
      (returns-injective _ c h₂)
      (
        (omega arith, add_wallets-funded crates j ts),
        (committee_template crates j b, refl, refl, build_vote_plans-owner crates b ids),
      )
