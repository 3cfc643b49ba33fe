-- ===== src/Iapyx/Load/Generators/Indices.antt =====
-- The indices that iapyx/src/load/request_generators draws.
use native.Mathlib.Nat.{mod-lt}
use vit_testing.Prelude.{
  ℕ, zero, suc, ◌%◌, ◌<◌, ◌≡◌, refl, ap, some, List, [], ◌∷◌, length, get_elem?, Result, ok, err,
  arith,
}
use vit_testing.Mock.Run.{returns}
use vit_testing.Iapyx.Wallet.{WalletCore, Wallet, WalletError, Bytes, id}
use vit_testing.Iapyx.Wallet as Wallet
use vit_testing.Iapyx.Backend.{NodeRest, BackendError, account_state}
use vit_testing.Iapyx.Load.{
  MultiController, MultiControllerError, put, send_vote, vote, refreshed, refresh_wallet,
  wallet_count,
}
use vit_testing.Iapyx.Load.Generators.{
  Random, WalletRequestGen, next_index, vote_after, random_vote,
}

module _ {A : Type 0} where
  get_elem?-eq-some : (xs : List A) (i : ℕ) → i < length xs → (x : A) × (get_elem? xs i ≡ some x)
  get_elem?-eq-some [] i h = absurd (omega arith)
  get_elem?-eq-some (x ∷ xs) zero h = (x, refl)
  get_elem?-eq-some (x ∷ xs) (suc i) h = get_elem?-eq-some xs i (omega arith)

  length-put : (i : ℕ) (x : A) (xs : List A) → length (put i x xs) ≡ length xs
  unfolding put
  length-put i x [] = refl
  length-put zero x (y ∷ ys) = refl
  length-put (suc i) x (y ∷ ys) = ap suc (length-put i x ys)

module _ (core : WalletCore) (rest : NodeRest core) where
  refreshed-length :
      (i : ℕ) (w : Wallet core) (m : MultiController core rest)
      (state : Result (BackendError core rest) (core.Value × ℕ))
      → length (refreshed core rest i w m state).1.wallets ≡ length m.wallets
  unfolding refreshed
  refreshed-length i w m (err e) = refl
  refreshed-length i w m (ok (value, counter)) = length-put i _ m.wallets

  refresh_wallet-eq-returns :
      (i : ℕ) (m : MultiController core rest)
      → i < length m.wallets
      → (r : Result (MultiControllerError core rest) (Unit {0})) × (m' : MultiController core rest)
        × (refresh_wallet core rest i m ≡ returns (r, m'))
        × (length m'.wallets ≡ length m.wallets)
  unfolding refresh_wallet
  refresh_wallet-eq-returns i m h =
      let (w, e) = get_elem?-eq-some m.wallets i h in
      let state = account_state core rest (id core w) m.node in
      let (r, m') = refreshed core rest i w m state in (r, m', rw e, refreshed-length i w m state)

  vote-eq-returns :
      (i : ℕ) (p : core.Proposal) (c : core.Choice) (m : MultiController core rest)
      → i < length m.wallets
      → (r : Result (MultiControllerError core rest) core.FragmentId × MultiController core rest)
        × (vote core rest i p c m ≡ returns r)
  unfolding vote
  vote-eq-returns i p c m h =
      let (w, e) = get_elem?-eq-some m.wallets i h in
      let (made, w') = Wallet.vote core m.settings p c w in
      (send_vote core rest (record m { wallets = put i w' m.wallets }) made, rw e)

module _ (core : WalletCore) (rest : NodeRest core) (random : Random core) where
  next_index-eq-returns :
      (n : ℕ) (seed : random.Seed)
      → 0 < n
      → (i : ℕ) × (seed' : random.Seed) × (next_index core rest random n seed ≡ returns (i, seed'))
        × (i < n)
  unfolding next_index
  next_index-eq-returns zero seed h = absurd (omega arith)
  next_index-eq-returns (suc n) seed h =
      let (drawn, seed') = random.next_u32 seed in
      (drawn % suc n, seed', refl, mod-lt drawn (omega arith))

  vote_after-eq-returns :
      (i : ℕ) (p : core.Proposal) (c : core.Choice)
      (r : Result (MultiControllerError core rest) (Unit {0})) (m : MultiController core rest)
      → i < length m.wallets
      → (out : Result (MultiControllerError core rest) core.FragmentId × MultiController core rest)
        × (vote_after core rest random i p c (r, m) ≡ returns out)
  unfolding vote_after
  vote_after-eq-returns i p c (err e) m h = ((err e, m), refl)
  vote_after-eq-returns i p c (ok _) m h = vote-eq-returns core rest i p c m h

-- With a proposal, an option and a wallet at least, a vote is drawn without panic: the wallet's state is
-- refreshed and the vote sent, or the error of either is given.
random_vote-eq-returns :
    (core : WalletCore) (rest : NodeRest core) (random : Random core)
    (g : WalletRequestGen core rest random)
    → 0 < length g.proposals
    → 0 < length g.options
    → 0 < wallet_count core rest g.multi_controller
    → (r : Result (MultiControllerError core rest) core.FragmentId
        × WalletRequestGen core rest random)
      × (random_vote core rest random g ≡ returns r)
unfolding random_vote wallet_count
random_vote-eq-returns core rest random g p o w =
    let next = next_index-eq-returns core rest random in
    let m = g.multi_controller in
    let (i, s₁, e₁, h₁) = next (length g.proposals) g.seed p in
    let (j, s₂, e₂, h₂) = next (length m.wallets) s₁ w in
    let (proposal, e₃) = get_elem?-eq-some g.proposals i h₁ in
    let (k, s₃, e₄, h₄) = next (length g.options) s₂ o in
    let (option, e₅) = get_elem?-eq-some g.options k h₄ in
    let (r, m', e₆, l) = refresh_wallet-eq-returns core rest j m h₂ in
    let (out, e₇) =
      vote_after-eq-returns core rest random j proposal (random.choice option) r m'
        (omega (arith, l)) in
    ((out.0, record g { seed = s₃; multi_controller = out.1 }), rw (e₁, e₂, e₃, e₄, e₅, e₆, e₇))
