-- ===== src/Mock/State.antt =====
-- vitup/src/mock/mock_state.rs, config.rs, logger.rs and context.rs, and `VitVersion` of
-- iapyx/src/data.rs: what the mock keeps.
pub mod FundId
use vit_testing.Prelude.{
  ℕ, String, Option, none, some, Bool, true, List, [], ◌∷◌, ◌++◌, map, Result, ok, err,
}
use vit_testing.Prelude.Int.{ℤ}
use vit_testing.Mock.Chain.{Chain}
use vit_testing.Mock.Run.{Run, returns, panics, running, ◌>>=◌, unwrap}
use vit_testing.Mock.Ledger
use vit_testing.Mock.Ledger.{LedgerState}

-- Of the records of the servicing station the fields that the mock names, and one value for the
-- fields that it passes on unread.
pub record Challenge (Rest : Type 0) : Type 0 where
  pub id : ℤ
  pub fund_id : ℤ
  pub rest : Rest

pub record VotePlan (Rest : Type 0) : Type 0 where
  pub fund_id : ℤ
  pub rest : Rest

pub record Fund (Rest : Type 0) : Type 0 where
  pub id : ℤ
  pub challenges : List (Challenge Rest)
  pub chain_vote_plans : List (VotePlan Rest)
  pub rest : Rest

pub record Proposal (Rest : Type 0) : Type 0 where
  pub internal_id : ℤ
  pub fund_id : ℤ
  pub challenge_id : ℤ
  pub rest : Rest

pub record Snapshot (Rest : Type 0) : Type 0 where
  pub funds : List (Fund Rest)
  pub challenges : List (Challenge Rest)
  pub proposals : List (Proposal Rest)

pub record VitVersion : Type 0 where
  pub service_version : String

pub record MockState (c : Chain) (Rest : Type 0) : Type 0 where
  pub available : Bool
  pub version : VitVersion
  pub ledger_state : LedgerState c
  pub vit_state : Snapshot Rest

pub data Error (c : Chain) : Type 0 where
  ledger_error : c.LedgerError → Error c
  io_error : Error c

-- What building a backend gives: block 0 with its file and ledger, the station's data, a version.
pub record Backend (c : Chain) (Rest : Type 0) : Type 0 where
  pub block0 : c.Block0Configuration
  pub block0_file : List ℕ
  pub ledger : Result c.LedgerError c.Ledger
  pub snapshot : Snapshot Rest
  pub version : String

module _ {Rest : Type 0} where
  abbrev set_challenge_fund : ℤ → Challenge Rest → Challenge Rest
  set_challenge_fund id x = record x { fund_id = id }

  abbrev set_vote_plan_fund : ℤ → VotePlan Rest → VotePlan Rest
  set_vote_plan_fund id x = record x { fund_id = id }

  abbrev set_proposal_fund : ℤ → Proposal Rest → Proposal Rest
  set_proposal_fund id x = record x { fund_id = id }

  -- A fund with its id, its challenges and its vote plans renumbered.
  abbrev pub set_fund : ℤ → Fund Rest → Fund Rest
  set_fund id f = record f {
    id = id;
    challenges = map (set_challenge_fund id) f.challenges;
    chain_vote_plans = map (set_vote_plan_fund id) f.chain_vote_plans;
  }

  -- `last_mut().unwrap()`, and the change of what it points to.
  set_last_fund : ℤ → List (Fund Rest) → Run (List (Fund Rest))
  set_last_fund id [] = panics
  set_last_fund id (f ∷ []) = returns (set_fund id f ∷ [])
  set_last_fund id (f ∷ g ∷ fs) = set_last_fund id (g ∷ fs) >>= λ hs. returns (f ∷ hs)

module _ {c : Chain} {Rest : Type 0} where
  -- `removed` is the answer of `remove_dir_all`, `built` that of the builder, and `start` the time.
  unfoldable pub new :
      Bool → Option (Backend c Rest) → ℕ → Run (Result (Error c) (MockState c Rest))
  new removed built start = elim removed [
    | true ↦ unwrap built >>= λ b.
        returns (elim (Ledger.new c b.block0 b.block0_file start b.ledger) [
          | err e ↦ err (ledger_error e)
          | ok ledger ↦ ok (record {
            available = true;
            version = record { service_version = b.version };
            ledger_state = ledger;
            vit_state = b.snapshot;
          })
        ])
    | _ ↦ returns (err io_error)
  ]

  unfoldable pub set_version : String → MockState c Rest → MockState c Rest
  set_version version s = record s { version = record { service_version = version } }

  unfoldable pub set_fund_id : ℤ → MockState c Rest → Run (MockState c Rest)
  unfolding set_last_fund
  set_fund_id id s = do
    funds ← set_last_fund id s.vit_state.funds
    returns (record s {
      vit_state = record {
        funds = funds;
        challenges = map (set_challenge_fund id) s.vit_state.challenges;
        proposals = map (set_proposal_fund id) s.vit_state.proposals;
      };
    })
