-- ===== src/Mock/Rest/Defs.antt =====
-- What the handlers of vitup/src/mock/rest.rs share.
use vit_testing.Prelude.{ℕ, String, Option, List, [], ◌∷◌, if◌then◌else◌}
use vit_testing.Prelude.Text.{Text}
use vit_testing.Mock.Chain.{Chain, FragmentStatus}
use vit_testing.Mock.Run.{returns}
use vit_testing.Mock.Ledger.{SettingsDto}
use vit_testing.Mock.State.{Challenge, Fund, Proposal, VitVersion}
use vit_testing.Mock.Context
use vit_testing.Mock.Context.{Context, Message, text}
use vit_testing.Mock.Server.{Handler, ◌>>=◌, ◌>>◌, pure, fail, with_lock}

-- The readers and printers of the libraries: a failed parse is `none`.
pub record Codec (c : Chain) : Type 1 where
  pub Identifier : Type 0
  pub AccountState : Type 0
  pub parse_id : Text → Option c.FragmentId
  pub decode_hex : String → Option (List ℕ)
  pub decode_fragment : List ℕ → Option c.Fragment
  pub decode_error : List ℕ → String
  pub debug_fragment : c.Fragment → String
  pub parse_account : String → Option Identifier
  pub get_state : c.Accounts → Identifier → Option AccountState

pub data Rejection : Type 0 where
  rejection account_does_not_exist : Rejection
  not_found : Message → Rejection

pub data Reply {c : Chain} (codec : Codec c) (Rest : Type 0) : Type 0 where
  empty : Reply codec Rest
  version_reply : VitVersion → Reply codec Rest
  block0_reply : List ℕ → Reply codec Rest
  logs_reply : List String → Reply codec Rest
  plans_reply : List c.VotePlanStatus → Reply codec Rest
  id_reply : c.FragmentId → Reply codec Rest
  ids_reply : List c.FragmentId → Reply codec Rest
  statuses_reply : List (String × FragmentStatus c.BlockDate c.Hash) → Reply codec Rest
  fragment_logs_reply : List c.FragmentLog → Reply codec Rest
  debug_reply : String → Reply codec Rest
  challenges_reply : List (Challenge Rest) → Reply codec Rest
  challenge_reply : Challenge Rest → List (Proposal Rest) → Reply codec Rest
  proposals_reply : List (Proposal Rest) → Reply codec Rest
  proposal_reply : Proposal Rest → Reply codec Rest
  fund_reply : Fund Rest → Reply codec Rest
  settings_reply : SettingsDto c → Reply codec Rest
  account_reply : codec.AccountState → Reply codec Rest

-- What the system gives to one request: the times of its two log entries, the rounds that its loops
-- may take, and the hash of the test generator for each message.
pub record Moment (c : Chain) : Type 0 where
  pub first : ℕ
  pub second : ℕ
  pub rounds : ℕ
  pub block : c.Hash

abbrev pub Serving : {c : Chain} → Codec c → Type 0 → Type 0
Serving {c} codec Rest = Handler (Context c Rest) Rejection (Reply codec Rest)

module _ {c : Chain} {Rest : Type 0} where
  -- A statement that only reads the context.
  abbrev pub reads : {A : Type 0} → (Context c Rest → A) → Handler (Context c Rest) Rejection A
  reads f = with_lock (λ x. returns (f x, x))

  -- `context.lock().unwrap().log(message)`
  abbrev pub logs : ℕ → Message → Handler (Context c Rest) Rejection (Unit {0})
  logs now message = with_lock (λ x. returns (tt, Context.log now message x))

  -- The entry of a handler, and its return in the mode of unavailability.
  abbrev pub enter : Moment c → Message → Handler (Context c Rest) Rejection (Unit {0})
  enter m message = do
    logs m.first message
    available ← reads (λ x. x.state.available)
    if available
        then pure tt
        else do logs m.second (text "unavailability mode is on" ∷ []); fail rejection
