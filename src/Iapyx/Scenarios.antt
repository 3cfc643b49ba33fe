-- ===== src/Iapyx/Scenarios.antt =====
-- The theorems on iapyx, each applied to a wallet whose fragments are numbers.
mod Voting
use vit_testing.Prelude.{
  ℕ, ◌≤◌, ◌≡◌, ◌≢◌, refl, none, some, List, [], ◌∷◌, filter, not, ok, err, if◌then◌else◌, ◌==◌, leb,
  arith,
}
use vit_testing.Mock.Run.{returns}
use vit_testing.Mock.Chain.{in_a_block}
use vit_testing.Iapyx.Controller.{
  WalletLib, Logs, transactions_were_pending_for_too_long, wait_for_pending_transactions, settle,
}
use vit_testing.Iapyx.Controller.Waiting.{
  after, wait_for_pending_transactions-no_error, wait_for_pending_transactions-returns,
}

abbrev without : ℕ → List ℕ → List ℕ
without i = filter (λ j. not (j == i))

abbrev wallet : WalletLib
wallet = record {
  Wallet = List ℕ;
  FragmentId = ℕ;
  BlockDate = ℕ;
  Hash = ℕ;
  pending_transactions = λ w. w;
  remove_pending_transaction = without;
  confirm_transaction = without;
}

-- Fragment `i` is in a block from round `i` on.
abbrev answers : ℕ → Logs wallet
answers round i = if leb i round then some (in_a_block 0 0) else none

wait_for_pending_transactions-no_error_example :
    wait_for_pending_transactions wallet 2 answers (5 ∷ [])
    ≢ returns (err (transactions_were_pending_for_too_long (5 ∷ [])), 5 ∷ [])
wait_for_pending_transactions-no_error_example =
    wait_for_pending_transactions-no_error wallet answers 2 (5 ∷ []) (5 ∷ [])
      (transactions_were_pending_for_too_long (5 ∷ []))

wait_for_pending_transactions-returns_example :
    (j : ℕ) × (j ≤ 3)
    × (wait_for_pending_transactions wallet 4 answers (1 ∷ 2 ∷ [])
        ≡ returns (ok tt, after wallet answers j 0 (1 ∷ 2 ∷ [])))
    × (after wallet answers j 0 (1 ∷ 2 ∷ []) ≡ [])
wait_for_pending_transactions-returns_example =
    wait_for_pending_transactions-returns wallet answers 3 (1 ∷ 2 ∷ []) (omega arith)
      (unfold after in unfold settle in refl)
