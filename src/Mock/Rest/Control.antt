-- ===== src/Mock/Rest/Control.antt =====
-- The handlers under `control` of vitup/src/mock/rest.rs, and `authorize_token`.
use vit_testing.Prelude.{ℕ, String, Bool, Option, none, some, if◌then◌else◌}
use vit_testing.Prelude.Int.{ℤ}
use vit_testing.Tokens.{Tokens}
use vit_testing.Mock.Chain.{Chain}
use vit_testing.Mock.Run
use vit_testing.Mock.Run.{Run, returns}
use vit_testing.Mock.Ledger
use vit_testing.Mock.Ledger.{FragmentRecieveStrategy, reject, accept, pending, no_override}
use vit_testing.Mock.State
use vit_testing.Mock.State.{MockState, Backend}
use vit_testing.Mock.Context
use vit_testing.Mock.Context.{Context, LogEntry}
use vit_testing.Mock.Server.{Handler, ◌>>=◌, ◌>>◌, pure, fail, crash, with_lock}
use vit_testing.Mock.Rest.Defs.{
  Codec, Rejection, rejection, empty, version_reply, logs_reply, Serving, reads,
}

module _ {c : Chain} (codec : Codec c) (Rest : Type 0) where
  -- A statement that changes the context and may fail in an `unwrap`.
  abbrev updates : (Context c Rest → Run (Context c Rest)) → Serving codec Rest
  updates f = do with_lock (λ x. Run.map (λ x'. (tt, x')) (f x)); pure empty

  abbrev on_state : (MockState c Rest → Run (MockState c Rest)) → Serving codec Rest
  on_state f = updates (λ x. Run.map (λ s. record x { state = s }) (f x.state))

  unfoldable pub logs_get : (LogEntry → String) → Serving codec Rest
  logs_get format = do
    entries ← reads (λ x. Context.format_logs format x.logger)
    pure (logs_reply entries)

  unfoldable pub logs_clear : Serving codec Rest
  logs_clear = updates (λ x. returns (Context.clear_logs x))

  -- What the builder of the new state gave is in the arguments.
  unfoldable pub command_reset_mock : Bool → Option (Backend c Rest) → ℕ → Serving codec Rest
  command_reset_mock removed built start = updates (Context.reset removed built start)

  unfoldable pub command_available : Bool → Serving codec Rest
  command_available available = on_state (λ s. returns (record s { available = available }))

  unfoldable pub command_fund_id : ℤ → Serving codec Rest
  command_fund_id id = on_state (State.set_fund_id id)

  unfoldable pub command_version : String → Serving codec Rest
  command_version version = on_state (λ s. returns (State.set_version version s))

  -- `command_reject`, `command_accept`, `command_pending` and `command_reset`
  unfoldable pub command_strategy : FragmentRecieveStrategy → Serving codec Rest
  command_strategy strategy = on_state (λ s.
      returns (record s { ledger_state = Ledger.set_fragment_strategy c strategy s.ledger_state }))

  unfoldable pub get_version : Serving codec Rest
  get_version = do version ← reads (λ x. x.state.version); pure (version_reply version)

module _ {c : Chain} {Rest : Type 0} (tokens : Tokens) where
  check_token : tokens.ApiToken → Option String → Handler (Context c Rest) Rejection (Unit {0})
  check_token api_token none = crash
  check_token api_token (some t) = elim (tokens.manager t) [
    | none ↦ fail rejection
    | some manager ↦ if tokens.is_token_valid manager api_token then pure tt else fail rejection
  ]

  -- The token of the context is read twice, each time under a guard of its own.
  unfoldable pub authorize_token : String → Handler (Context c Rest) Rejection (Unit {0})
  unfolding check_token
  authorize_token token = elim (tokens.from_string token) [
    | none ↦ fail rejection
    | some api_token ↦ (do
      set ← reads (λ x. x.config.token)
      elim set [
        | none ↦ pure tt
        | some _ ↦ (do again ← reads (λ x. x.config.token); check_token api_token again)
      ])
  ]
