-- ===== src/Iapyx/Load/Counters.antt =====
-- The counters of the votes that iapyx/src/load/multi_controller.rs makes in one batch.
use mathlib.Core.Path.{subst}
use mathlib.Core.List.{reverse}
use vit_testing.Prelude.{
  ℕ, Bool, suc, ◌≡◌, refl, ap, ◌∙◌, some, List, [], ◌∷◌, get_elem?, Result, ok, err, arith,
}
use vit_testing.Mock.Run.{returns, returns-injective, >>=-eq-returns, unwrap, unwrap-eq-returns}
use vit_testing.Iapyx.Wallet.{Bytes, WalletCore, Wallet, WalletError, set_state, id}
use vit_testing.Iapyx.Wallet as Wallet
use vit_testing.Iapyx.Backend.{NodeRest, BackendError, account_state, send_fragments_at_once}
use vit_testing.Iapyx.Load.{
  MultiController, from_backend, next_counter, made_or_panics, vote_each, vote_batch_from,
  send_batch, votes_batch,
}

module _ (core : WalletCore) (rest : NodeRest core) where
  open core use {Settings, Proposal, Choice, Value}

  -- The transaction is the vote, made by the wallet at the given counter.
  abbrev pub IsVoteAt : Settings → Value → ℕ → Proposal × Choice → Bytes → Type 0
  IsVoteAt settings value counter (p, c) tx =
      (w : Wallet core) × ((Wallet.vote core settings p c (set_state core value counter w)).0
        ≡ ok tx)

  -- Vote by vote, with counters that go up by one.
  abbrev pub AreVotesFrom : Settings → Value → ℕ → List (Proposal × Choice) → List Bytes → Type 0
  AreVotesFrom settings value counter [] [] = Unit
  AreVotesFrom settings value counter [] (tx ∷ txs) = ⊥
  AreVotesFrom settings value counter (v ∷ vs) [] = ⊥
  AreVotesFrom settings value counter (v ∷ vs) (tx ∷ txs) =
      IsVoteAt settings value counter v tx × AreVotesFrom settings value (suc counter) vs txs

  made_or_panics-eq-returns :
      (made : Result WalletError Bytes) (tx : Bytes)
      → made_or_panics core rest made ≡ returns tx
      → made ≡ ok tx
  unfolding made_or_panics
  made_or_panics-eq-returns (ok t) tx h = ap ok (returns-injective t tx h)
  made_or_panics-eq-returns (err e) tx h = cc

  next_counter-eq-returns : (n m : ℕ) → next_counter n ≡ returns m → m ≡ suc n
  unfolding next_counter
  next_counter-eq-returns n m h = ground arith

  -- A batch of transactions has the counters from the given one on.
  vote_each-AreVotesFrom :
      (settings : Settings) (value : Value) (counter : ℕ) (votes : List (Proposal × Choice))
      (w w' : Wallet core) (txs : List Bytes)
      → vote_each core rest settings value counter votes w ≡ returns (txs, w')
      → AreVotesFrom settings value counter votes txs
  unfolding vote_each
  vote_each-AreVotesFrom settings value counter [] w w' txs h =
      subst (AreVotesFrom settings value counter []) (ap (λ x. x.0) (returns-injective _ _ h)) tt
  vote_each-AreVotesFrom settings value counter ((p, c) ∷ votes) w w' txs h =
      let made = Wallet.vote core settings p c (set_state core value counter w) in
      let (tx, e, h₁) = >>=-eq-returns (made_or_panics core rest made.0) _ h in
      let (counter', f, h₂) = >>=-eq-returns (next_counter counter) _ h₁ in
      let ((rest_txs, w''), g, h₃) =
        >>=-eq-returns (vote_each core rest settings value counter' votes made.1) _ h₂ in
      let votes_rest =
        subst (λ n. AreVotesFrom settings value n votes rest_txs)
          (next_counter-eq-returns counter counter' f)
          (vote_each-AreVotesFrom settings value counter' votes made.1 w'' rest_txs g) in
      subst (AreVotesFrom settings value counter ((p, c) ∷ votes))
        (ap (λ x. x.0) (returns-injective (tx ∷ rest_txs, w'') (txs, w') h₃))
        ((w, made_or_panics-eq-returns made.0 tx e), votes_rest)

  from_backend-ok :
      {A : Type 0} (r : Result (BackendError core rest) A) (a : A)
      → from_backend core rest r ≡ ok a
      → r ≡ ok a
  unfolding from_backend
  from_backend-ok (ok b) a h = cc
  from_backend-ok (err e) a h = cc

  vote_batch_from-AreVotesFrom :
      (i : ℕ) (use_v1 : Bool) (votes : List (Proposal × Choice)) (w : Wallet core)
      (m m' : MultiController core rest) (ids : List core.FragmentId)
      (state : Result (BackendError core rest) (Value × ℕ))
      → vote_batch_from core rest i use_v1 votes w m state ≡ returns (ok ids, m')
      → (value : Value) × (counter : ℕ) × (state ≡ ok (value, counter))
        × (txs : List Bytes) × AreVotesFrom m.settings value counter (reverse votes) txs
        × (send_fragments_at_once core rest txs use_v1 m.node ≡ returns (ok ids, m'.node))
  unfolding vote_batch_from send_batch
  vote_batch_from-AreVotesFrom i use_v1 votes w m m' ids (err e) h = cc
  vote_batch_from-AreVotesFrom i use_v1 votes w m m' ids (ok (value, counter)) h =
      let ((txs, w'), g, h₁) =
        >>=-eq-returns (vote_each core rest m.settings value counter (reverse votes) w) _ h in
      let ((sent, node), s, h₂) =
        >>=-eq-returns (send_fragments_at_once core rest txs use_v1 m.node) _ h₁ in
      let e = returns-injective _ (ok ids, m') h₂ in
      let sent_ok = from_backend-ok sent ids (ap (λ x. x.0) e) in
      (
        value,
        counter,
        refl,
        txs,
        vote_each-AreVotesFrom m.settings value counter (reverse votes) w w' txs g,
        s
            ∙ (ap (λ r. returns (r, node)) sent_ok
                ∙ ap (λ n. returns (ok ids, n)) (ap (λ x. x.1.node) e)),
      )

-- Where a batch of votes is sent, the transactions that the node is sent are the votes from the last to
-- the first, made with the counter of the wallet's account and those that follow it, one each; what
-- the node answers is what the batch gives.
pub votes_batch-AreVotesFrom :
    (core : WalletCore) (rest : NodeRest core) (i : ℕ) (use_v1 : Bool)
    (votes : List (core.Proposal × core.Choice)) (m m' : MultiController core rest)
    (ids : List core.FragmentId)
    → votes_batch core rest i use_v1 votes m ≡ returns (ok ids, m')
    → (w : Wallet core) × (value : core.Value) × (counter : ℕ) × (txs : List Bytes) × (get_elem?
          m.wallets i
        ≡ some w)
      × (account_state core rest (id core w) m.node ≡ ok (value, counter))
      × AreVotesFrom core rest m.settings value counter (reverse votes) txs
      × (send_fragments_at_once core rest txs use_v1 m.node ≡ returns (ok ids, m'.node))
unfolding votes_batch
votes_batch-AreVotesFrom core rest i use_v1 votes m m' ids h =
    let (w, e, h₁) = >>=-eq-returns (unwrap (get_elem? m.wallets i)) _ h in
    let (value, counter, a, txs, v, s) =
      vote_batch_from-AreVotesFrom core rest i use_v1 votes w m m' ids
        (account_state core rest (id core w) m.node) h₁ in
    (w, value, counter, txs, unwrap-eq-returns _ w e, a, v, s)
