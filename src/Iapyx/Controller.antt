-- ===== src/Iapyx/Controller.antt =====
-- `wait_for_pending_transactions` of iapyx/src/controller.rs. The wallet and the fragment logs that the
-- backend answers with in each round are parameters; the sleep between two rounds is left out.
pub mod Waiting
use vit_testing.Prelude.{
  ℕ, zero, suc, ◌+◌, ◌^◌, Bool, true, false, Option, none, some, List, [], ◌∷◌, Result, ok, err,
  ltb, leb, if◌then◌else◌,
}
use vit_testing.Mock.Run.{Run, returns, panics, running}
use vit_testing.Mock.Chain.{FragmentStatus, pending, rejected, in_a_block}

-- What the controller uses of a wallet.
pub record WalletLib : Type 1 where
  pub Wallet : Type 0
  pub FragmentId : Type 0
  pub BlockDate : Type 0
  pub Hash : Type 0
  pub pending_transactions : Wallet → List FragmentId
  pub remove_pending_transaction : FragmentId → Wallet → Wallet
  pub confirm_transaction : FragmentId → Wallet → Wallet

pub data ControllerError (l : WalletLib) : Type 0 where
  transactions_were_pending_for_too_long : List l.FragmentId → ControllerError l

abbrev is_empty {ℓ} : {A : Type ℓ} → List A → Bool
is_empty [] = true
is_empty (_ ∷ _) = false

module _ (l : WalletLib) where
  open l use {Wallet, FragmentId, BlockDate, Hash}

  -- The status in the log of a fragment, if the backend has one.
  abbrev pub Logs : Type 0
  Logs = FragmentId → Option (FragmentStatus BlockDate Hash)

  settle_one : Option (FragmentStatus BlockDate Hash) → FragmentId → Wallet → Wallet
  settle_one none i w = w
  settle_one (some (rejected _)) i w = l.remove_pending_transaction i w
  settle_one (some (in_a_block _ _)) i w = l.confirm_transaction i w
  settle_one (some pending) i w = w

  -- The loop over the ids of one round.
  unfoldable pub settle : Logs → List FragmentId → Wallet → Wallet
  unfolding settle_one
  settle logs [] w = w
  settle logs (i ∷ ids) w = settle logs ids (settle_one (logs i) i w)

  -- `limit` is an i32: counting it past its bound panics.
  unfoldable pub wait_from :
      ℕ → (ℕ → Logs) → ℕ → ℕ → Wallet → Run (Result (ControllerError l) (Unit {0}) × Wallet)
  unfolding settle
  wait_from zero answers round limit w = running
  wait_from (suc rounds) answers round limit w =
      let ids = l.pending_transactions w in
      let w' = settle (answers round) ids w in
      let rest = wait_from rounds answers (suc round) (limit + 1) w' in
      if leb limit 0
      then returns (err (transactions_were_pending_for_too_long ids), w)
      else (if is_empty ids
          then returns (ok tt, w)
          else (if is_empty ids
              then returns (ok tt, w')
              else (if ltb (limit + 1) (2 ^ 31) then rest else panics)))

  unfoldable pub wait_for_pending_transactions :
      ℕ → (ℕ → Logs) → Wallet → Run (Result (ControllerError l) (Unit {0}) × Wallet)
  unfolding wait_from
  wait_for_pending_transactions rounds answers w = wait_from rounds answers 0 60 w
