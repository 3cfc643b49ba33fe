-- ===== src/Iapyx/Wallet.antt =====
-- iapyx/src/wallet.rs: the wallet, around that of the wallet-core crate.
use vit_testing.Prelude.{ℕ, Option, List, [], ◌∷◌, Result, ok, err, map_err}
use vit_testing.Prelude.Text.{Text, codes}
use vit_testing.Mock.Run.{Run, returns, ◌>>=◌, unwrap}

abbrev pub Bytes : Type 0
Bytes = List ℕ

pub data Discrimination : Type 0 where
  test production : Discrimination

-- The crates wallet-core, chain-addr and chain-impl-mockchain, as the wallet uses them.
pub record WalletCore : Type 1 where
  pub Inner : Type 0
  pub InnerError : Type 0
  pub Settings : Type 0
  pub Proposal : Type 0
  pub Value : Type 0
  pub Choice : Type 0
  pub Fragment : Type 0
  pub FragmentId : Type 0
  pub AccountId : Type 0
  pub Address : Type 0
  pub AccountIdentifier : Type 0
  pub Conversion : Type 0
  pub Inputs : Type 0
  pub error_text : InnerError → Text
  pub recover : Text → Bytes → Result InnerError Inner
  pub recover_free_keys : Bytes → List Bytes → Result InnerError Inner
  pub account : Discrimination → Inner → Address
  pub id : Inner → AccountId
  pub retrieve_funds : Bytes → Inner → Result InnerError Settings × Inner
  pub convert : Settings → Inner → Conversion × Inner
  pub transactions : Conversion → List Bytes
  pub deserialize : Bytes → Option Fragment
  pub fragment_id : Fragment → FragmentId
  pub confirm_transaction : FragmentId → Inner → Inner
  pub pending_transactions : Inner → List FragmentId
  pub remove_pending_transaction : FragmentId → Inner → Option Inputs × Inner
  pub total_value : Inner → Value
  pub set_state : Value → ℕ → Inner → Inner
  pub vote : Settings → Proposal → Choice → Inner → Result InnerError Bytes × Inner
  pub address_text : Text → Address → Text
  pub identifier_of : Text → Option AccountIdentifier

-- The errors that the wallet gives.
pub data WalletError : Type 0 where
  cannot_recover cannot_retrieve_funds cannot_send_vote : Text → WalletError

module _ (core : WalletCore) where
  open core use {
    Inner, InnerError, Settings, Proposal, Value, Choice, FragmentId, AccountId, Address,
    Conversion, Inputs,
  }

  pub record Wallet : Type 0 where
    pub inner : Inner

  wrap : (Text → WalletError) → Result InnerError Inner → Result WalletError Wallet
  wrap error (ok w) = ok (record { inner = w })
  wrap error (err e) = err (error (core.error_text e))

  unfoldable pub recover : Text → Bytes → Result WalletError Wallet
  unfolding wrap
  recover mnemonics password = wrap cannot_recover (core.recover mnemonics password)

  -- The mnemonics are those of random entropy.
  unfoldable pub generate : Text → Result WalletError Wallet
  unfolding recover
  generate mnemonics = recover mnemonics (codes "iapyx")

  unfoldable pub recover_from_account : Bytes → Result WalletError Wallet
  unfolding wrap
  recover_from_account secret_key = wrap cannot_recover (core.recover_free_keys secret_key [])

  unfoldable pub recover_from_utxo : Bytes → Result WalletError Wallet
  unfolding wrap
  recover_from_utxo secret_key =
      wrap cannot_recover (core.recover_free_keys secret_key (secret_key ∷ []))

  unfoldable pub account : Discrimination → Wallet → Address
  account d w = core.account d w.inner

  unfoldable pub id : Wallet → AccountId
  id w = core.id w.inner

  unfoldable pub retrieve_funds : Bytes → Wallet → Result WalletError Settings × Wallet
  retrieve_funds block0 w =
      let (r, inner) = core.retrieve_funds block0 w.inner in
      (map_err (λ e. cannot_retrieve_funds (core.error_text e)) r, record { inner = inner })

  unfoldable pub convert : Settings → Wallet → Conversion × Wallet
  convert settings w =
      let (c, inner) = core.convert settings w.inner in (c, record { inner = inner })

  unfoldable pub remove_pending_transaction : FragmentId → Wallet → Option Inputs × Wallet
  remove_pending_transaction i w =
      let (r, inner) = core.remove_pending_transaction i w.inner in (r, record { inner = inner })

  take_ids : List Bytes → Wallet → Run (List FragmentId × Wallet)
  unfolding remove_pending_transaction
  take_ids [] w = returns ([], w)
  take_ids (x ∷ xs) w = do
    fragment ← unwrap (core.deserialize x)
    let i = core.fragment_id fragment
    (is, w') ← take_ids xs (remove_pending_transaction i w).1
    returns (i ∷ is, w')

  unfoldable pub conversion_fragment_ids : Settings → Wallet → Run (List FragmentId × Wallet)
  unfolding convert take_ids
  conversion_fragment_ids settings w =
      let (c, w') = convert settings w in take_ids (core.transactions c) w'

  unfoldable pub confirm_transaction : FragmentId → Wallet → Wallet
  confirm_transaction i w = record { inner = core.confirm_transaction i w.inner }

  unfoldable pub pending_transactions : Wallet → List FragmentId
  pending_transactions w = core.pending_transactions w.inner

  confirm_each : List FragmentId → Wallet → Wallet
  unfolding confirm_transaction
  confirm_each [] w = w
  confirm_each (i ∷ is) w = confirm_each is (confirm_transaction i w)

  unfoldable pub confirm_all_transactions : Wallet → Wallet
  unfolding confirm_each pending_transactions
  confirm_all_transactions w = confirm_each (pending_transactions w) w

  unfoldable pub total_value : Wallet → Value
  total_value w = core.total_value w.inner

  unfoldable pub set_state : Value → ℕ → Wallet → Wallet
  set_state value counter w = record { inner = core.set_state value counter w.inner }

  unfoldable pub vote : Settings → Proposal → Choice → Wallet → Result WalletError Bytes × Wallet
  vote settings proposal choice w =
      let (r, inner) = core.vote settings proposal choice w.inner in
      (map_err (λ e. cannot_send_vote (core.error_text e)) r, record { inner = inner })

  prefix_of : Discrimination → Text
  prefix_of test = codes "ta"
  prefix_of production = codes "ca"

  unfoldable pub identifier : Discrimination → Wallet → Run core.AccountIdentifier
  unfolding prefix_of account
  identifier d w = unwrap (core.identifier_of (core.address_text (prefix_of d) (account d w)))
