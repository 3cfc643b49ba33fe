-- ===== src/Iapyx/Session.antt =====
-- iapyx/src/controller.rs, but for the waiting: a wallet that votes through a backend.
use vit_testing.Prelude.{ℕ, Bool, Option, none, some, List, find, Result, ok, err, ◌&&◌}
use vit_testing.Prelude.Int.{ℤ, pos, ◌==ℤ◌}
use vit_testing.Prelude.Text.{Text, text_eq}
use vit_testing.Mock.Run.{Run, returns, panics, ◌>>=◌, unwrap}
use vit_testing.Iapyx.Wallet as Wallet
use vit_testing.Iapyx.Wallet.{Bytes, WalletCore, Wallet, WalletError, set_state, id}
use vit_testing.Iapyx.Backend as Backend
use vit_testing.Iapyx.Backend.{NodeRest, BackendError, account_state}
use vit_testing.Iapyx.Qr.{Images, first, pin_to_bytes}

-- A proposal of the station, with the one of the wallet that it is turned into.
pub record VitProposal (core : WalletCore) : Type 0 where
  pub chain_voteplan_id : Text
  pub chain_proposal_index : ℤ
  pub proposal : core.Proposal

-- What of the environment a controller is made with: the settings that the backend reads from block 0,
-- the bytes behind the secret key of a QR code, and the key in a file, in Bech32.
pub record Keys (core : WalletCore) (images : Images) (E : Type 0) : Type 1 where
  pub settings : Result E core.Settings
  pub leak_secret : images.SecretKey → Bytes
  pub read_bech32 : Text → Result E Bytes
  pub key_of : Bytes → Option Bytes

module _ (core : WalletCore) (rest : NodeRest core) (E : Type 0) where
  open core use {Settings, Choice, FragmentId}
  open rest use {Node}

  pub record Controller : Type 0 where
    pub wallet : Wallet core
    pub settings : Settings
    pub node : Node

  -- `E` are the errors of images, of Bech32, of block 0 and of the station.
  pub data ControllerError : Type 0 where
    wallet_error : WalletError → ControllerError
    backend_error : BackendError core rest → ControllerError
    cannot_find_proposal : Text → ℕ → ControllerError
    other_error : E → ControllerError

  abbrev Made : Type 0
  Made = Result ControllerError Controller

  with_wallet : Node → Settings → Result WalletError (Wallet core) → Made
  with_wallet node settings (ok w) = ok (record { wallet = w; settings = settings; node = node })
  with_wallet node settings (err e) = err (wallet_error e)

  -- The settings are read before the wallet is recovered.
  unfoldable pub recover_with_backend :
      Node → Result E Settings → Result WalletError (Wallet core) → Made
  unfolding with_wallet
  recover_with_backend node (err e) w = err (other_error e)
  recover_with_backend node (ok settings) w = with_wallet node settings w

  unfoldable pub generate : Node → Result E Settings → Text → Made
  unfolding recover_with_backend
  generate node settings mnemonics =
      recover_with_backend node settings (Wallet.generate core mnemonics)

  unfoldable pub recover : Node → Result E Settings → Text → Bytes → Made
  unfolding recover_with_backend
  recover node settings mnemonics password =
      recover_with_backend node settings (Wallet.recover core mnemonics password)

  unfoldable pub recover_account : Node → Result E Settings → Bytes → Made
  unfolding recover_with_backend
  recover_account node settings account =
      recover_with_backend node settings (Wallet.recover_from_account core account)

  module _ (images : Images) (keys : Keys core images E) (image_error : images.ImageError → E) where
    decoded : Result images.KeyQrCodeError (List images.SecretKey) → Run images.SecretKey
    unfolding first
    decoded (ok secrets) = unwrap (first secrets)
    decoded (err e) = panics

    -- The secret is turned into a key after the settings are read.
    with_secret : Node → Result E Settings → Bytes → Run Made
    unfolding with_wallet
    with_secret node (err e) secret = returns (err (other_error e))
    with_secret node (ok settings) secret = do
      key ← unwrap (keys.key_of secret)
      returns (with_wallet node settings (Wallet.recover_from_utxo core key))

    from_image : Node → Text → Result images.ImageError images.Image → Run Made
    unfolding decoded with_secret
    from_image node password (err e) = returns (err (other_error (image_error e)))
    from_image node password (ok img) = do
      pin ← pin_to_bytes password
      secret ← decoded (images.decode img pin)
      with_secret node keys.settings (keys.leak_secret secret)

    unfoldable pub recover_from_qr : Node → Text → Text → Run Made
    unfolding from_image
    recover_from_qr node qr password = from_image node password (images.open_image qr)

    from_bech32 : Node → Result E Bytes → Run Made
    unfolding recover_with_backend
    from_bech32 node (err e) = returns (err (other_error e))
    from_bech32 node (ok bytes) = do
      key ← unwrap (keys.key_of bytes)
      returns (recover_with_backend node keys.settings (Wallet.recover_from_utxo core key))

    unfoldable pub recover_from_sk : Node → Text → Run Made
    unfolding from_bech32
    recover_from_sk node private_key = from_bech32 node (keys.read_bech32 private_key)

  unfoldable pub switch_backend : Node → Controller → Controller
  switch_backend node c = record c { node = node }

  from_backend : {A : Type 0} → Result (BackendError core rest) A → Result ControllerError A
  from_backend (ok a) = ok a
  from_backend (err e) = err (backend_error e)

  unfoldable pub send_fragment : Bytes → Controller → Result ControllerError FragmentId × Controller
  unfolding from_backend
  send_fragment transaction c =
      let (sent, node) = Backend.send_fragment core rest transaction c.node in
      (from_backend sent, record c { node = node })

  unfoldable pub confirm_all_transactions : Controller → Controller
  confirm_all_transactions c = record c { wallet = Wallet.confirm_all_transactions core c.wallet }

  unfoldable pub confirm_transaction : FragmentId → Controller → Controller
  confirm_transaction i c = record c { wallet = Wallet.confirm_transaction core i c.wallet }

  unfoldable pub pending_transactions : Controller → List FragmentId
  pending_transactions c = Wallet.pending_transactions core c.wallet

  unfoldable pub remove_pending_transaction :
      FragmentId → Controller → Option core.Inputs × Controller
  remove_pending_transaction i c =
      let (inputs, w) = Wallet.remove_pending_transaction core i c.wallet in
      (inputs, record c { wallet = w })

  unfoldable pub get_account_state : Controller → Result ControllerError (core.Value × ℕ)
  unfolding from_backend
  get_account_state c = from_backend (account_state core rest (id core c.wallet) c.node)

  refreshed :
      Controller
      → Result ControllerError (core.Value × ℕ)
      → Result ControllerError (Unit {0}) × Controller
  refreshed c (err e) = (err e, c)
  refreshed c (ok (value, counter)) =
      (ok tt, record c { wallet = set_state core value counter c.wallet })

  unfoldable pub refresh_state : Controller → Result ControllerError (Unit {0}) × Controller
  unfolding get_account_state refreshed
  refresh_state c = refreshed c (get_account_state c)

  send_made : Controller → Result WalletError Bytes → Result ControllerError FragmentId × Controller
  unfolding send_fragment
  send_made c (err e) = (err (wallet_error e), c)
  send_made c (ok transaction) = send_fragment transaction c

  unfoldable pub vote :
      VitProposal core → Choice → Controller → Result ControllerError FragmentId × Controller
  unfolding send_made
  vote p choice c =
      let (made, w) = Wallet.vote core c.settings p.proposal choice c.wallet in
      send_made (record c { wallet = w }) made

  -- `proposal_index` is compared as i64.
  is_wanted : Text → ℕ → VitProposal core → Bool
  is_wanted vote_plan_id proposal_index p =
      text_eq p.chain_voteplan_id vote_plan_id && (p.chain_proposal_index ==ℤ pos proposal_index)

  vote_found :
      Text
      → ℕ
      → Choice
      → Controller
      → Option (VitProposal core)
      → Result ControllerError FragmentId × Controller
  unfolding vote
  vote_found vote_plan_id proposal_index choice c none =
      (err (cannot_find_proposal vote_plan_id proposal_index), c)
  vote_found vote_plan_id proposal_index choice c (some p) = vote p choice c

  -- The proposals are those that the station answers.
  unfoldable pub vote_for :
      Result E (List (VitProposal core))
      → Text
      → ℕ
      → Choice
      → Controller
      → Result ControllerError FragmentId × Controller
  unfolding is_wanted vote_found
  vote_for (err e) vote_plan_id proposal_index choice c = (err (other_error e), c)
  vote_for (ok proposals) vote_plan_id proposal_index choice c =
      vote_found vote_plan_id proposal_index choice c
        (find (is_wanted vote_plan_id proposal_index) proposals)
