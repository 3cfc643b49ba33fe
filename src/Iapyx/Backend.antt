-- ===== src/Iapyx/Backend.antt =====
-- iapyx/src/backend/mod.rs and node/rest.rs: the backend that a wallet talks to. A call that changes the
-- node gives the node after it.
pub mod Sending
use vit_testing.Prelude.{
  ℕ, Bool, true, false, not, Option, none, some, List, [], ◌∷◌, Result, ok, err, map_err,
  if◌then◌else◌,
}
use vit_testing.Prelude.Text.{Text}
use vit_testing.Mock.Run.{Run, returns, ◌>>=◌, unwrap}
use vit_testing.Iapyx.Wallet.{Bytes, WalletCore}

-- The REST client of a node, and the client of the explorer, from jormungandr's crates; the texts of
-- keys and ids are left out, and so is logging.
pub record NodeRest (core : WalletCore) : Type 1 where
  pub Node : Type 0
  pub NodeError : Type 0
  pub FragmentLog : Type 0
  pub VotePlanStatus : Type 0
  pub send_raw_fragment : Bytes → Node → Result NodeError (Unit {0}) × Node
  pub send_raw_fragments : List Bytes → Node → Result NodeError (Unit {0}) × Node
  pub send_fragment_batch : List core.Fragment → Node → Result NodeError (Unit {0}) × Node
  pub fragment_logs : Node → Result NodeError (List (core.FragmentId × FragmentLog))
  pub account_state : core.AccountId → Node → Result NodeError (core.Value × ℕ)
  pub account_state_raw : core.AccountId → Node → Result NodeError Text
  pub vote_plan_statuses : Node → Result NodeError (List VotePlanStatus)
  pub transaction_is_ok : core.FragmentId → Node → Bool

module _ (core : WalletCore) (rest : NodeRest core) where
  open core use {Fragment, FragmentId, AccountId}
  open rest use {Node, NodeError}

  -- The errors of what talks to the node.
  pub data BackendError : Type 0 where
    node_connection_error : NodeError → BackendError
    io_error : BackendError

  deserialize_all : List Bytes → Run (List Fragment)
  deserialize_all [] = returns []
  deserialize_all (tx ∷ txs) = do
    fragment ← unwrap (core.deserialize tx)
    fragments ← deserialize_all txs
    returns (fragment ∷ fragments)

  ids_of : List Fragment → List FragmentId
  ids_of [] = []
  ids_of (f ∷ fs) = core.fragment_id f ∷ ids_of fs

  -- `send_fragments` of the client of the node.
  unfoldable pub send_to_node : List Bytes → Bool → Node → Run (Result NodeError (Unit {0}) × Node)
  unfolding deserialize_all
  send_to_node bodies true node = do
    fragments ← deserialize_all bodies
    returns (rest.send_fragment_batch fragments node)
  send_to_node bodies false node = returns (rest.send_raw_fragments bodies node)

  id_or_error : Option Fragment → Result BackendError FragmentId
  id_or_error none = err io_error
  id_or_error (some f) = ok (core.fragment_id f)

  after_one : Bytes → Result NodeError (Unit {0}) → Result BackendError FragmentId
  unfolding id_or_error
  after_one transaction (ok _) = id_or_error (core.deserialize transaction)
  after_one transaction (err e) = err (node_connection_error e)

  unfoldable pub send_fragment : Bytes → Node → Result BackendError FragmentId × Node
  unfolding after_one
  send_fragment transaction node =
      let (sent, node') = rest.send_raw_fragment transaction node in
      (after_one transaction sent, node')

  sent_then :
      Result NodeError (Unit {0}) × Node
      → (Node → Result NodeError (Unit {0}) × Node)
      → Result NodeError (Unit {0}) × Node
  sent_then (err e, node) f = (err e, node)
  sent_then (ok _, node) f = f node

  -- The loop of `send_fragments`: it ends at the first that is not taken.
  send_each : List Bytes → Node → Result NodeError (Unit {0}) × Node
  unfolding sent_then
  send_each [] node = (ok tt, node)
  send_each (tx ∷ txs) node = sent_then (rest.send_raw_fragment tx node) (send_each txs)

  answer_ids :
      List Bytes
      → Result NodeError (Unit {0}) × Node
      → Run (Result BackendError (List FragmentId) × Node)
  unfolding deserialize_all ids_of
  answer_ids txs (err e, node) = returns (err (node_connection_error e), node)
  answer_ids txs (ok _, node) = do
    fragments ← deserialize_all txs
    returns (ok (ids_of fragments), node)

  unfoldable pub send_fragments :
      List Bytes → Node → Run (Result BackendError (List FragmentId) × Node)
  unfolding send_each answer_ids
  send_fragments txs node = answer_ids txs (send_each txs node)

  unfoldable pub send_fragments_at_once :
      List Bytes → Bool → Node → Run (Result BackendError (List FragmentId) × Node)
  unfolding send_to_node answer_ids
  send_fragments_at_once txs use_v1 node = do
    sent ← send_to_node txs use_v1 node
    answer_ids txs sent

  unfoldable pub fragment_logs : Node → Result BackendError (List (FragmentId × rest.FragmentLog))
  fragment_logs node = map_err node_connection_error (rest.fragment_logs node)

  -- The value of the account and its counter.
  unfoldable pub account_state : AccountId → Node → Result BackendError (core.Value × ℕ)
  account_state i node = map_err node_connection_error (rest.account_state i node)

  is_not_empty : Result NodeError Text → Result BackendError Bool
  is_not_empty (err e) = err (node_connection_error e)
  is_not_empty (ok []) = ok false
  is_not_empty (ok (_ ∷ _)) = ok true

  unfoldable pub account_exists : AccountId → Node → Result BackendError Bool
  unfolding is_not_empty
  account_exists i node = is_not_empty (rest.account_state_raw i node)

  unfoldable pub vote_plan_statuses : Node → Result BackendError (List rest.VotePlanStatus)
  vote_plan_statuses node = map_err node_connection_error (rest.vote_plan_statuses node)

  unfoldable pub are_fragments_in_blockchain : List FragmentId → Node → Bool
  are_fragments_in_blockchain [] node = true
  are_fragments_in_blockchain (i ∷ is) node =
      if rest.transaction_is_ok i node then are_fragments_in_blockchain is node else false
