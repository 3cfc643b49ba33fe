-- ===== src/Iapyx/Load.antt =====
-- iapyx/src/load/multi_controller.rs and request_generators: many wallets that vote through a backend.
pub mod Counters
pub mod Generators
use mathlib.Core.List.{reverse}
use vit_testing.Prelude.{
  ℕ, zero, suc, ◌+◌, ◌^◌, Bool, Option, none, some, List, [], ◌∷◌, ◌++◌, length, get_elem?, Result,
  ok, err, ltb, map, if◌then◌else◌,
}
use vit_testing.Prelude.Text.{Text}
use vit_testing.Mock.Run.{Run, returns, panics, ◌>>=◌, unwrap}
use vit_testing.Iapyx.Wallet.{
  Bytes, WalletCore, Wallet, WalletError, confirm_all_transactions, confirm_transaction, id,
  set_state,
}
use vit_testing.Iapyx.Wallet as Wallet
use vit_testing.Iapyx.Backend.{
  NodeRest, BackendError, send_fragment, send_fragments_at_once, account_state, account_exists,
}

-- `xs[i] = x`
unfoldable pub put : {A : Type 0} → ℕ → A → List A → List A
put i x [] = []
put zero x (y ∷ ys) = x ∷ ys
put (suc i) x (y ∷ ys) = y ∷ put i x ys

-- `counter += 1` on u32 in a debug build.
next_counter : ℕ → Run ℕ
next_counter counter = if ltb (counter + 1) (2 ^ 32) then returns (counter + 1) else panics

module _ (core : WalletCore) (rest : NodeRest core) where
  open core use {Settings, Proposal, Choice, Value, FragmentId}
  open rest use {Node}

  pub record MultiController : Type 0 where
    pub wallets : List (Wallet core)
    pub settings : Settings
    pub node : Node

  pub data MultiControllerError : Type 0 where
    wallet_error : WalletError → MultiControllerError
    backend_error : BackendError core rest → MultiControllerError

  abbrev pub Outcome : Type 0 → Type 0
  Outcome A = Run (Result MultiControllerError A × MultiController)

  from_backend : {A : Type 0} → Result (BackendError core rest) A → Result MultiControllerError A
  from_backend (ok a) = ok a
  from_backend (err e) = err (backend_error e)

  -- A vote that the wallet has made is sent; the wallet is as it leaves it.
  send_vote :
      MultiController
      → Result WalletError Bytes
      → Result MultiControllerError FragmentId × MultiController
  unfolding from_backend
  send_vote m (err e) = (err (wallet_error e), m)
  send_vote m (ok tx) =
      let (sent, node) = send_fragment core rest tx m.node in
      (from_backend sent, record m { node = node })

  unfoldable pub vote : ℕ → Proposal → Choice → MultiController → Outcome FragmentId
  unfolding put send_vote
  vote wallet_index proposal choice m = do
    wallet ← unwrap (get_elem? m.wallets wallet_index)
    let (made, wallet') = Wallet.vote core m.settings proposal choice wallet
    returns (send_vote (record m { wallets = put wallet_index wallet' m.wallets }) made)

  made_or_panics : Result WalletError Bytes → Run Bytes
  made_or_panics (ok tx) = returns tx
  made_or_panics (err e) = panics

  -- Each vote is made with the counter that the one before it leaves.
  unfoldable pub vote_each :
      Settings → Value → ℕ → List (Proposal × Choice) → Wallet core → Run (List Bytes × Wallet core)
  unfolding made_or_panics next_counter
  vote_each settings value counter [] wallet = returns ([], wallet)
  vote_each settings value counter ((p, c) ∷ votes) wallet = do
    let (made, wallet') = Wallet.vote core settings p c (set_state core value counter wallet)
    tx ← made_or_panics made
    counter' ← next_counter counter
    (txs, wallet'') ← vote_each settings value counter' votes wallet'
    returns (tx ∷ txs, wallet'')

  send_batch : MultiController → Bool → List Bytes → Outcome (List FragmentId)
  unfolding from_backend
  send_batch m use_v1 txs = do
    (sent, node) ← send_fragments_at_once core rest txs use_v1 m.node
    returns (from_backend sent, record m { node = node })

  vote_batch_from :
      ℕ
      → Bool
      → List (Proposal × Choice)
      → Wallet core
      → MultiController
      → Result (BackendError core rest) (Value × ℕ)
      → Outcome (List FragmentId)
  unfolding put vote_each send_batch
  vote_batch_from i use_v1 votes wallet m (err e) = returns (err (backend_error e), m)
  vote_batch_from i use_v1 votes wallet m (ok (value, counter)) = do
    (txs, wallet') ← vote_each m.settings value counter (reverse votes) wallet
    send_batch (record m { wallets = put i wallet' m.wallets }) use_v1 txs

  -- `map` and `rev` are lazy: the votes are made from the last to the first, which is also the order in
  -- which they are sent.
  unfoldable pub votes_batch :
      ℕ → Bool → List (Proposal × Choice) → MultiController → Outcome (List FragmentId)
  unfolding vote_batch_from
  votes_batch wallet_index use_v1 votes m = do
    wallet ← unwrap (get_elem? m.wallets wallet_index)
    vote_batch_from wallet_index use_v1 votes wallet m
        (account_state core rest (id core wallet) m.node)

  unfoldable pub confirm_all : MultiController → MultiController
  confirm_all m = record m { wallets = map (confirm_all_transactions core) m.wallets }

  unfoldable pub confirm : FragmentId → MultiController → MultiController
  confirm i m = record m { wallets = map (confirm_transaction core i) m.wallets }

  refreshed :
      ℕ
      → Wallet core
      → MultiController
      → Result (BackendError core rest) (Value × ℕ)
      → Result MultiControllerError (Unit {0}) × MultiController
  unfolding put
  refreshed i wallet m (err e) = (err (backend_error e), m)
  refreshed i wallet m (ok (value, counter)) =
      (ok tt, record m { wallets = put i (set_state core value counter wallet) m.wallets })

  unfoldable pub refresh_wallet : ℕ → MultiController → Outcome (Unit {0})
  unfolding refreshed
  refresh_wallet wallet_index m = do
    wallet ← unwrap (get_elem? m.wallets wallet_index)
    returns (refreshed wallet_index wallet m (account_state core rest (id core wallet) m.node))

  unfoldable pub wallet_count : MultiController → ℕ
  wallet_count m = length m.wallets

  unfoldable pub is_converted : ℕ → MultiController → Outcome Bool
  unfolding from_backend
  is_converted wallet_index m = do
    wallet ← unwrap (get_elem? m.wallets wallet_index)
    returns (from_backend (account_exists core rest (id core wallet) m.node), m)
