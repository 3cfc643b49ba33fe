-- ===== src/Mock/Scenarios.antt =====
-- The theorems on vitup/src/mock, each applied to a small run of the mock.
mod Rest
use mathlib.Core.Bool.{Bool-discrete}
use vit_testing.Prelude.{
  ℕ, ◌+◌, ◌-◌, String, Bool, true, false, ◌≡◌, refl, none, some, List, [], ◌∷◌, Result, ok, err,
  arith, eq_iff, leb, str_eq, if◌then◌else◌,
}
use vit_testing.Prelude.Int.{pos}
use vit_testing.Mock.Chain.{Chain, LogLaws, FragmentStatus, in_a_block}
use vit_testing.Mock.Run.{returns}
use vit_testing.Mock.Ledger
use vit_testing.Mock.Ledger.{LedgerState, reject, accept, no_override, nanos}
use vit_testing.Mock.Ledger.Clock.{curr_block_date_lem, IsSlot, curr_slot_start_time-IsSlot}
use vit_testing.Mock.Ledger.Logs.{after_message, message_lem, message-eq-returns}
use vit_testing.Mock.Ledger.Consistency.{
  Call, message_call, strategy_call, recent_call, calls, IsConsistent, calls-IsConsistent,
}
use vit_testing.Mock.Ledger.Statuses.{latest, IsFaithful, statuses_lem, statuses-message}
use vit_testing.Mock.State.{Fund, Snapshot, MockState, set_fund_id, set_fund}
use vit_testing.Mock.State.FundId.{HasFund, set_fund_id-HasFund}
use vit_testing.Mock.Context.{Context}
use vit_testing.Mock.Server.{unlocked, poisoned}
use vit_testing.Mock.Rest.Defs.{Codec, Moment}
use vit_testing.Tokens.{Tokens}
use vit_testing.Mock.Rest.Requests.{
  version, api, active_vote_plans, proposal, fund, serve, silence, closed, internal_error,
}
use vit_testing.Mock.Rest.Requests.Availability.{serve-unavailable, IsGuarded}
use vit_testing.Mock.Rest.Requests.Broken.{serve-broken, active_vote_plans-last, proposal-last}

-- A log: its id, and the status it was given.
abbrev Log : Type 0
Log = Bool × FragmentStatus ℕ ℕ

-- A ledger is what it has left to spend; a fragment spends its number.
abbrev spend : ℕ → ℕ → Result String ℕ
spend l f = if leb f l then ok (l - f) else err "not enough"

abbrev name : Bool → String
name true = "first"
name false = "second"

abbrev pub chain : Chain
chain = record {
  Fragment = Bool × ℕ;
  FragmentId = Bool;
  Hash = ℕ;
  BlockDate = ℕ;
  Ledger = ℕ;
  LedgerParameters = ℕ;
  LedgerError = String;
  Accounts = ℕ;
  VotePlanStatus = ℕ;
  FragmentLog = Log;
  Block0Configuration = ℕ;
  LinearFee = ℕ;
  TaxType = ℕ;
  RewardParams = ℕ;
  fragment_id = λ f. f.0;
  id_discrete = Bool-discrete;
  id_to_string = name;
  get_ledger_parameters = λ l. l;
  apply_fragment = λ l _ f _. spend l f.1;
  accounts = λ l. l;
  active_vote_plans = λ _. [];
  error_to_string = λ e. e;
  shift_slot = λ slots era. slots + era;
  new_log = λ i. (i, FragmentStatus.pending);
  modify = λ s l. (l.0, s);
  log_id = λ l. l.0;
  log_status = λ l. l.1;
  slot_duration = λ _. 10;
  slots_per_epoch = λ _. 60;
  block0_date = λ b. b;
  block0_hash = λ _. "hash";
  consensus_version = λ _. "bft";
  linear_fees = λ _. 0;
  block_content_max_size = λ _. 1000;
  epoch_stability_depth = λ _. 10;
  treasury_tax = λ _. 0;
  reward_params = λ _. 0;
}

laws : LogLaws chain
laws = record {
  id_new = λ i. refl;
  status_new = λ i. refl;
  id_modify = λ s l. refl;
  status_modify = λ s i. refl;
}

faithful : IsFaithful chain
faithful true true h = refl
faithful false false h = refl
faithful true false h = absurd (ground (arith, eq_iff "first" "second"))
faithful false true h = absurd (ground (arith, eq_iff "second" "first"))

-- Block 0 is at 1000 seconds, and the mock was started then.
abbrev ledger : LedgerState chain
ledger = record {
  fragment_strategy = no_override;
  fragment_logs = [];
  received_fragments = [];
  ledger = 10;
  start_time = 1_000_000_000_000;
  block0_configuration = 1000;
  block0_bin = [];
}

abbrev payment : chain.Fragment
payment = (true, 3)

abbrev overdraft : chain.Fragment
overdraft = (false, 30)

message_lem_example :
    Ledger.message chain 1 77 payment ledger ≡ returns (true, after_message chain 77 payment ledger)
message_lem_example = message_lem chain 0 77 payment ledger (omega arith)

abbrev paid : LedgerState chain
paid = record ledger {
  fragment_logs = (true, in_a_block 60 77) ∷ [];
  received_fragments = payment ∷ [];
  ledger = 7;
}

payment_run : Ledger.message chain 5 77 payment ledger ≡ returns (true, paid)
unfolding Ledger.message Ledger.curr_block_date Ledger.count_slots
payment_run = refl

abbrev script : List (Call chain)
script =
    message_call 77 payment
    ∷ strategy_call reject
    ∷ message_call 78 overdraft
    ∷ recent_call 79 accept
    ∷ []

abbrev after_script : LedgerState chain
after_script = record ledger {
  fragment_strategy = reject;
  fragment_logs = (true, in_a_block 60 77) ∷ (false, in_a_block 60 79) ∷ [];
  received_fragments = payment ∷ overdraft ∷ [];
  ledger = 7;
}

script_run : calls chain 1 script ledger ≡ returns after_script
unfolding calls Ledger.message Ledger.set_fragment_strategy Ledger.set_status_for_recent_fragment
    Ledger.curr_block_date Ledger.count_slots
script_run = refl

calls-IsConsistent_example : IsConsistent chain after_script
calls-IsConsistent_example =
    calls-IsConsistent chain laws 1000 [] 1_000_000_000_000 (ok 10) ledger 1 script after_script
      (unfold Ledger.new in refl) script_run

statuses-message_example :
    Ledger.get chain "first" (Ledger.statuses chain (true ∷ []) paid) ≡ some (in_a_block 60 77)
statuses-message_example =
    statuses-message chain laws faithful 5 77 payment ledger paid true payment_run

statuses_lem_example :
    Ledger.get chain "second" (Ledger.statuses chain (true ∷ false ∷ []) after_script) ≡ (
      if Ledger.contains_id chain (true ∷ false ∷ []) false
      then latest chain false after_script.fragment_logs
      else none)
statuses_lem_example = statuses_lem chain faithful (true ∷ false ∷ []) after_script false

-- A mock started 25 seconds before block 0, in its third slot.
abbrev early : LedgerState chain
early = record ledger { start_time = 975_000_000_000 }

curr_slot_start_time-IsSlot_example :
    (t : ℕ) × (Ledger.curr_slot_start_time chain 3 early ≡ returns t) × IsSlot chain early t
curr_slot_start_time-IsSlot_example = curr_slot_start_time-IsSlot chain 2 early (omega arith)

abbrev old_fund : Fund String
old_fund = record { id = pos 1; challenges = []; chain_vote_plans = []; rest = "old" }

abbrev new_fund : Fund String
new_fund = record {
  id = pos 2;
  challenges = record { id = pos 5; fund_id = pos 2; rest = "challenge" } ∷ [];
  chain_vote_plans = record { fund_id = pos 2; rest = "plan" } ∷ [];
  rest = "new";
}

abbrev pub station : MockState chain String
station = record {
  available = true;
  version = record { service_version = "2.0" };
  ledger_state = ledger;
  vit_state = record {
    funds = old_fund ∷ new_fund ∷ [];
    challenges = record { id = pos 5; fund_id = pos 2; rest = "challenge" } ∷ [];
    proposals =
        record { internal_id = pos 0; fund_id = pos 2; challenge_id = pos 5; rest = "p" } ∷ [];
  };
}

set_fund_id-HasFund_example :
    (v : Snapshot String) × (set_fund_id {c = chain} (pos 9) station
      ≡ returns (record station { vit_state = v }))
    × HasFund (pos 9) v (old_fund ∷ []) (set_fund (pos 9) new_fund)
set_fund_id-HasFund_example =
    set_fund_id-HasFund {c = chain} (pos 9) station (old_fund ∷ []) new_fund refl
