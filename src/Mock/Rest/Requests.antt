-- ===== src/Mock/Rest/Requests.antt =====
-- The routes of `start_rest_server` in vitup/src/mock/rest.rs, and `report_invalid`: what a client
-- gets for a request. `fs::dir` and the lister of files are left out.
pub mod Availability
pub mod Stuck
pub mod Broken
use vit_testing.Prelude.{ℕ, String, Bool, true, false, Option, none, some, List, []}
use vit_testing.Prelude.Int.{ℤ}
use vit_testing.Tokens.{Tokens}
use vit_testing.Mock.Chain.{Chain}
use vit_testing.Mock.Ledger.{FragmentRecieveStrategy}
use vit_testing.Mock.State.{Backend}
use vit_testing.Mock.Context.{Context, LogEntry}
use vit_testing.Mock.Server.{
  Server, Handler, Outcome, done, rejects, crashes, hangs, ◌>>=◌, ◌>>◌, pure, fail,
}
use vit_testing.Mock.Rest.Defs.{Codec, Rejection, rejection, Reply, empty, Moment, Serving}
use vit_testing.Mock.Rest.Query.{
  get_active_vote_plans, debug_message, post_message, post_fragments, get_fragment_statuses,
  get_fragment_logs, get_challenges, get_challenge_by_id, get_all_proposals, get_proposal,
  get_fund_by_id, get_fund, get_settings, get_account, get_block0,
}
use vit_testing.Mock.Rest.Control.{
  logs_get, logs_clear, command_reset_mock, command_available, command_fund_id, command_version,
  command_strategy, get_version, authorize_token,
}

-- The requests under `v0` and `v1`.
pub data Query (c : Chain) : Type 0 where
  active_vote_plans fragment_logs challenges all_proposals fund settings block0 : Query c
  debug : String → Query c
  message : List ℕ → Query c
  fragments : (ℕ → c.Hash) → List String → Query c
  fragment_statuses : String → Query c
  challenge_by_id proposal fund_by_id : ℤ → Query c
  account : String → Query c

-- The requests under `control`, with the answers of the system that they need.
pub data Command (c : Chain) (Rest : Type 0) : Type 0 where
  list_logs : (LogEntry → String) → Command c Rest
  clear_logs : Command c Rest
  reset_mock : Bool → Option (Backend c Rest) → ℕ → Command c Rest
  set_available : Bool → Command c Rest
  set_fund_id : ℤ → Command c Rest
  set_version : String → Command c Rest
  set_strategy : FragmentRecieveStrategy → Command c Rest

-- A control request has the token of its header, if there is one.
pub data Request (c : Chain) (Rest : Type 0) : Type 0 where
  health version : Request c Rest
  api : Query c → Request c Rest
  control : Option String → Command c Rest → Request c Rest

-- What the client sees: a reply, the error 500 of `report_invalid`, a closed connection, or nothing.
pub data Response {c : Chain} (codec : Codec c) (Rest : Type 0) : Type 0 where
  replied : Reply codec Rest → Response codec Rest
  internal_error closed silence : Response codec Rest

module _ {c : Chain} (codec : Codec c) (Rest : Type 0) (tokens : Tokens) where
  unfoldable pub query : Moment c → Query c → Serving codec Rest
  query m active_vote_plans = get_active_vote_plans codec Rest m
  query m fragment_logs = get_fragment_logs codec Rest m
  query m challenges = get_challenges codec Rest m
  query m all_proposals = get_all_proposals codec Rest m
  query m fund = get_fund codec Rest m
  query m settings = get_settings codec Rest m
  query m block0 = get_block0 codec Rest m
  query m (debug id) = debug_message codec Rest id
  query m (message bytes) = post_message codec Rest m bytes
  query m (fragments blocks messages) = post_fragments codec Rest m blocks messages
  query m (fragment_statuses ids) = get_fragment_statuses codec Rest m ids
  query m (challenge_by_id id) = get_challenge_by_id codec Rest m id
  query m (proposal id) = get_proposal codec Rest m id
  query m (fund_by_id id) = get_fund_by_id codec Rest m id
  query m (account id) = get_account codec Rest m id

  unfoldable pub command : Command c Rest → Serving codec Rest
  command (list_logs format) = logs_get codec Rest format
  command clear_logs = logs_clear codec Rest
  command (reset_mock removed built start) = command_reset_mock codec Rest removed built start
  command (set_available b) = command_available codec Rest b
  command (set_fund_id id) = command_fund_id codec Rest id
  command (set_version v) = command_version codec Rest v
  command (set_strategy strategy) = command_strategy codec Rest strategy

  -- The filter on the token; a missing header is a rejection of warp.
  token_filter : Bool → Option String → Handler (Context c Rest) Rejection (Unit {0})
  token_filter is_token_enabled header = elim is_token_enabled [
    | true ↦ elim header [ none ↦ fail rejection | some token ↦ authorize_token tokens token ]
    | false ↦ pure tt
  ]

  -- `is_token_enabled` is decided when the server starts.
  unfoldable pub handle : Bool → Moment c → Request c Rest → Serving codec Rest
  unfolding query command token_filter
  handle is_token_enabled m health = pure empty
  handle is_token_enabled m version = get_version codec Rest
  handle is_token_enabled m (api q) = query m q
  handle is_token_enabled m (control header k) = do token_filter is_token_enabled header; command k

  -- `recover(report_invalid)`: every rejection is the error 500.
  abbrev pub respond : Outcome Rejection (Reply codec Rest) → Response codec Rest
  respond (done r) = replied r
  respond (rejects _) = internal_error
  respond crashes = closed
  respond hangs = silence

  unfoldable pub serve :
      Bool
      → Moment c
      → Request c Rest
      → Server (Context c Rest)
      → Response codec Rest × Server (Context c Rest)
  unfolding handle
  serve is_token_enabled m r s =
      let (outcome, s') = handle is_token_enabled m r s in (respond outcome, s')
