-- ===== src/Iapyx/Load/Generators.antt =====
-- iapyx/src/load/request_generators: votes drawn at random.
pub mod Indices
use vit_testing.Prelude.{
  ℕ, zero, suc, ◌%◌, Bool, Option, none, some, List, [], ◌∷◌, length, get_elem?, Result, ok, err,
}
use vit_testing.Mock.Run.{Run, returns, panics, ◌>>=◌, unwrap}
use vit_testing.Iapyx.Wallet.{WalletCore}
use vit_testing.Iapyx.Backend.{NodeRest}
use vit_testing.Iapyx.Load.{
  MultiController, MultiControllerError, Outcome, vote, votes_batch, refresh_wallet, wallet_count,
}

-- `OsRng`, and what a proposal offers to choose from.
pub record Random (core : WalletCore) : Type 1 where
  pub Seed : Type 0
  pub next_u32 : Seed → ℕ × Seed
  pub options_of : core.Proposal → List ℕ
  pub choice : ℕ → core.Choice

module _ (core : WalletCore) (rest : NodeRest core) (random : Random core) where
  open core use {Proposal, Choice, FragmentId}
  open random use {Seed}

  pub record WalletRequestGen : Type 0 where
    pub seed : Seed
    pub multi_controller : MultiController core rest
    pub proposals : List Proposal
    pub options : List ℕ

  -- `proposals[0]`
  first_options : List Proposal → Run (List ℕ)
  first_options [] = panics
  first_options (p ∷ _) = returns (random.options_of p)

  -- The proposals are what the backend answers.
  unfoldable pub new :
      {E : Type 0}
      → Seed
      → MultiController core rest
      → Result E (List Proposal)
      → Run WalletRequestGen
  unfolding first_options
  new seed m (err e) = panics
  new seed m (ok proposals) = do
    options ← first_options proposals
    returns (record { seed = seed; multi_controller = m; proposals = proposals; options = options })

  -- `self.next_usize() % n`
  next_index : ℕ → Seed → Run (ℕ × Seed)
  next_index zero seed = panics
  next_index (suc n) seed =
      let (drawn, seed') = random.next_u32 seed in returns (drawn % suc n, seed')

  vote_after :
      ℕ
      → Proposal
      → Choice
      → Result (MultiControllerError core rest) (Unit {0}) × MultiController core rest
      → Outcome core rest FragmentId
  vote_after wallet_index proposal choice (err e, m) = returns (err e, m)
  vote_after wallet_index proposal choice (ok _, m) = vote core rest wallet_index proposal choice m

  unfoldable pub random_vote :
      WalletRequestGen → Run (Result (MultiControllerError core rest) FragmentId × WalletRequestGen)
  unfolding next_index vote_after
  random_vote g = do
    (proposal_index, seed₁) ← next_index (length g.proposals) g.seed
    (wallet_index, seed₂) ← next_index (wallet_count core rest g.multi_controller) seed₁
    proposal ← unwrap (get_elem? g.proposals proposal_index)
    (choice_index, seed₃) ← next_index (length g.options) seed₂
    option ← unwrap (get_elem? g.options choice_index)
    refreshed ← refresh_wallet core rest wallet_index g.multi_controller
    (sent, m) ← vote_after wallet_index proposal (random.choice option) refreshed
    returns (sent, record g { seed = seed₃; multi_controller = m })

  -- So many elements of a list, each drawn.
  draw_many : {A : Type 0} → ℕ → List A → Seed → Run (List A × Seed)
  unfolding next_index
  draw_many zero xs seed = returns ([], seed)
  draw_many (suc n) xs seed = do
    (index, seed') ← next_index (length xs) seed
    x ← unwrap (get_elem? xs index)
    (rest, seed'') ← draw_many n xs seed'
    returns (x ∷ rest, seed'')

  zip_choices : List Proposal → List ℕ → List (Proposal × Choice)
  zip_choices (p ∷ ps) (c ∷ cs) = (p, random.choice c) ∷ zip_choices ps cs
  zip_choices ps cs = []

  -- `random_votes` of `BatchWalletRequestGen`, which has a size and a version of the API besides.
  unfoldable pub random_votes :
      ℕ
      → Bool
      → WalletRequestGen
      → Run (Result (MultiControllerError core rest) (List FragmentId) × WalletRequestGen)
  unfolding next_index draw_many zip_choices
  random_votes batch_size use_v1 g = do
    (wallet_index, seed₁) ← next_index (wallet_count core rest g.multi_controller) g.seed
    (proposals, seed₂) ← draw_many batch_size g.proposals seed₁
    (choices, seed₃) ← draw_many batch_size g.options seed₂
    (sent, m) ←
        votes_batch core rest wallet_index use_v1 (zip_choices proposals choices) g.multi_controller
    returns (sent, record g { seed = seed₃; multi_controller = m })
