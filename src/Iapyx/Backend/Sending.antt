-- ===== src/Iapyx/Backend/Sending.antt =====
-- `send_fragments` of iapyx/src/backend/mod.rs, set against `send_fragment`.
use vit_testing.Prelude.{◌≡◌, refl, ap, some, List, [], ◌∷◌, Result, ok, err, All}
use vit_testing.Mock.Run.{returns, returns-injective, >>=-eq-returns}
use vit_testing.Iapyx.Wallet.{Bytes, WalletCore}
use vit_testing.Iapyx.Backend.{
  NodeRest, BackendError, deserialize_all, ids_of, after_one, send_fragment, sent_then, send_each,
  answer_ids, send_fragments,
}

module _ (core : WalletCore) (rest : NodeRest core) where
  open rest use {Node, NodeError}

  abbrev Answer : Type 0 → Type 0
  Answer A = Result (BackendError core rest) A × Node

  unfoldable pub with_id :
      core.FragmentId → Answer (List core.FragmentId) → Answer (List core.FragmentId)
  with_id i (ok is, node) = (ok (i ∷ is), node)
  with_id i (err e, node) = (err e, node)

  unfoldable pub answered_then :
      Answer core.FragmentId
      → (Node → Answer (List core.FragmentId))
      → Answer (List core.FragmentId)
  unfolding with_id
  answered_then (err e, node) f = (err e, node)
  answered_then (ok i, node) f = with_id i (f node)

  -- Each transaction is sent by itself, up to the first that gives an error.
  unfoldable pub in_turn : List Bytes → Node → Answer (List core.FragmentId)
  unfolding answered_then
  in_turn [] node = (ok [], node)
  in_turn (tx ∷ txs) node = answered_then (send_fragment core rest tx node) (in_turn txs)

  -- A transaction that is a fragment.
  abbrev pub IsFragment : Bytes → Type 0
  IsFragment tx = (f : core.Fragment) × (core.deserialize tx ≡ some f)

  answer_ids-with_id :
      (tx : Bytes) (txs : List Bytes) (f : core.Fragment) (s : Result NodeError (Unit {0}) × Node)
      (r : Answer (List core.FragmentId))
      → core.deserialize tx ≡ some f
      → answer_ids core rest txs s ≡ returns r
      → answer_ids core rest (tx ∷ txs) s ≡ returns (with_id (core.fragment_id f) r)
  unfolding answer_ids deserialize_all ids_of with_id
  answer_ids-with_id tx txs f (err e, node) r d h =
      ap (λ x. returns (with_id (core.fragment_id f) x)) (returns-injective _ r h)
  answer_ids-with_id tx txs f (ok _, node) r d h =
      let (fs, e, h₁) = >>=-eq-returns (deserialize_all core rest txs) _ h in
      rw (d, e) (ap (λ x. returns (with_id (core.fragment_id f) x)) (returns-injective _ r h₁))

  step :
      (tx : Bytes) (txs : List Bytes) (f : core.Fragment)
      (sent : Result NodeError (Unit {0}) × Node)
      → core.deserialize tx ≡ some f
      → ((node : Node)
          → answer_ids core rest txs (send_each core rest txs node) ≡ returns (in_turn txs node))
      → answer_ids core rest (tx ∷ txs) (sent_then core rest sent (send_each core rest txs))
        ≡ returns (answered_then (after_one core rest tx sent.0, sent.1) (in_turn txs))
  unfolding sent_then answered_then after_one answer_ids
  step tx txs f (err e, node) d ih = refl
  step tx txs f (ok _, node) d ih =
      rw d
        (answer_ids-with_id tx txs f (send_each core rest txs node) (in_turn txs node) d (ih node))

  answer_ids-in_turn :
      (txs : List Bytes) (node : Node)
      → All IsFragment txs
      → answer_ids core rest txs (send_each core rest txs node) ≡ returns (in_turn txs node)
  unfolding send_each in_turn send_fragment answer_ids
  answer_ids-in_turn [] node h = refl
  answer_ids-in_turn (tx ∷ txs) node h =
      step tx txs h.0.0 (rest.send_raw_fragment tx node) h.0.1 (λ n. answer_ids-in_turn txs n h.1)

-- Sending many transactions, all of which are fragments, is sending them one after another up to the
-- first error: the node is left as that leaves it, and the answer is the ids or that error.
pub send_fragments-in_turn :
    (core : WalletCore) (rest : NodeRest core) (txs : List Bytes) (node : rest.Node)
    → All (IsFragment core rest) txs
    → send_fragments core rest txs node ≡ returns (in_turn core rest txs node)
unfolding send_fragments
send_fragments-in_turn core rest txs node h = answer_ids-in_turn core rest txs node h
