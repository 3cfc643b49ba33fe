-- ===== src/Vitup/Setup/Plans/Partition.antt =====
-- The plans of vitup/src/setup/start/quick/builder.rs hold each proposal once, in order.
use vit_testing.Prelude.{
  ℕ, zero, suc, ◌+◌, ◌/◌, ◌≤◌, ◌≡◌, refl, ap, ◌∙◌, List, [], ◌∷◌, ◌++◌, map, length, take, drop,
  All, length-take, length-drop, take-append-drop, arith,
}
use vit_testing.Vitup.Setup.{Crates, QuickVitBackendSettingsBuilder}
use vit_testing.Vitup.Setup.Plans.{
  ProposalDef, chunk_size, chunks_from, chunks, proposals_from, proposals, vote_plan,
  vote_plans_from, build_vote_plans,
}

unfoldable pub flatten {ℓ} : {A : Type ℓ} → List (List A) → List A
flatten [] = []
flatten (xs ∷ xss) = xs ++ flatten xss

-- One plan holds at most 255 proposals, and at least one.
abbrev pub IsChunk {ℓ} : {A : Type ℓ} → List A → Type 0
IsChunk xs = (1 ≤ length xs) × (length xs ≤ 255)

module _ {A : Type 0} where
  chunks_from-flatten :
      (fuel : ℕ) (xs : List A) → length xs ≤ fuel → flatten (chunks_from fuel xs) ≡ xs
  unfolding flatten chunks_from
  chunks_from-flatten zero [] h = refl
  chunks_from-flatten zero (x ∷ xs) h = absurd (omega arith)
  chunks_from-flatten (suc fuel) [] h = refl
  chunks_from-flatten (suc fuel) (x ∷ xs) h =
      ap (λ r. take chunk_size (x ∷ xs) ++ r)
        (chunks_from-flatten fuel (drop chunk_size (x ∷ xs))
          (omega (arith, length-drop chunk_size (x ∷ xs))))
      ∙ take-append-drop chunk_size (x ∷ xs)

  chunks_from-IsChunk : (fuel : ℕ) (xs : List A) → All IsChunk (chunks_from fuel xs)
  unfolding chunks_from
  chunks_from-IsChunk zero xs = tt
  chunks_from-IsChunk (suc fuel) [] = tt
  chunks_from-IsChunk (suc fuel) (x ∷ xs) =
      let l = length-take chunk_size (x ∷ xs) in
      ((omega (arith, l), omega (arith, l)), chunks_from-IsChunk fuel (drop chunk_size (x ∷ xs)))

  -- As few chunks as can be.
  length-chunks_from :
      (fuel : ℕ) (xs : List A)
      → length xs ≤ fuel
      → length (chunks_from fuel xs) ≡ (length xs + 254) / 255
  unfolding chunks_from
  length-chunks_from zero [] h = omega arith
  length-chunks_from zero (x ∷ xs) h = absurd (omega arith)
  length-chunks_from (suc fuel) [] h = omega arith
  length-chunks_from (suc fuel) (x ∷ xs) h =
      let l = length-drop chunk_size (x ∷ xs) in
      omega (arith, l, length-chunks_from fuel (drop chunk_size (x ∷ xs)) (omega (arith, l)))

module _ (crates : Crates) {ProposalId : Type 0} (b : QuickVitBackendSettingsBuilder crates) where
  vote_plans_from-proposals :
      (index : ℕ) (cs : List (List (ProposalDef ProposalId)))
      → map (λ p. p.proposals) (vote_plans_from crates b index cs) ≡ cs
  unfolding vote_plans_from vote_plan
  vote_plans_from-proposals index [] = refl
  vote_plans_from-proposals index (c ∷ cs) =
      ap (λ r. c ∷ r) (vote_plans_from-proposals (suc index) cs)

module _ {ProposalId : Type 0} (ids : ℕ → ProposalId) where
  length-proposals_from : (call n : ℕ) → length (proposals_from ids call n) ≡ n
  unfolding proposals_from
  length-proposals_from call zero = refl
  length-proposals_from call (suc n) = ap suc (length-proposals_from (suc call) n)

-- The vote plans hold the proposals one after another, each once: as many as the parameters say, in as
-- few plans of at most 255 as can be, none of which is empty.
pub build_vote_plans-IsPartition :
    (crates : Crates) {ProposalId : Type 0} (ids : ℕ → ProposalId)
    (b : QuickVitBackendSettingsBuilder crates)
    → (let plans = map (λ p. p.proposals) (build_vote_plans crates ids b) in
        (flatten plans ≡ proposals ids b.parameters.proposals)
        × (length (flatten plans) ≡ b.parameters.proposals)
        × All IsChunk plans
        × (length plans ≡ (b.parameters.proposals + 254) / 255))
unfolding build_vote_plans proposals chunks
build_vote_plans-IsPartition crates ids b =
    let ps = proposals_from ids 0 b.parameters.proposals in
    let l = length-proposals_from ids 0 b.parameters.proposals in
    let flat = chunks_from-flatten (length ps) ps (omega arith) in
    rw (vote_plans_from-proposals crates b 0 (chunks_from (length ps) ps)) (
      flat,
      ap length flat ∙ l,
      chunks_from-IsChunk (length ps) ps,
      length-chunks_from (length ps) ps (omega arith) ∙ ap (λ n. (n + 254) / 255) l,
    )
