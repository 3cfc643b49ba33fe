-- ===== src/Mock/Chain.antt =====
-- What the mock takes from the chain libraries (chain_impl_mockchain, chain_time, jormungandr_lib):
-- their types, and the operations that vitup/src/mock calls.
use vit_testing.Prelude.{ℕ, String, ◌≡◌, Result, List}

-- `jormungandr_lib::interfaces::FragmentStatus`, which the mock builds and reads.
pub data FragmentStatus (BlockDate Hash : Type 0) : Type 0 where
  pending : FragmentStatus BlockDate Hash
  rejected : String → FragmentStatus BlockDate Hash
  in_a_block : BlockDate → Hash → FragmentStatus BlockDate Hash

pub record Chain : Type 1 where
  pub Fragment : Type 0
  pub FragmentId : Type 0
  pub Hash : Type 0
  pub BlockDate : Type 0
  pub Ledger : Type 0
  pub LedgerParameters : Type 0
  pub LedgerError : Type 0
  pub Accounts : Type 0
  pub VotePlanStatus : Type 0
  pub FragmentLog : Type 0
  pub Block0Configuration : Type 0
  pub LinearFee : Type 0
  pub TaxType : Type 0
  pub RewardParams : Type 0
  pub fragment_id : Fragment → FragmentId
  pub id_discrete : Discrete FragmentId
  pub id_to_string : FragmentId → String
  pub get_ledger_parameters : Ledger → LedgerParameters
  pub apply_fragment : Ledger → LedgerParameters → Fragment → BlockDate → Result LedgerError Ledger
  pub accounts : Ledger → Accounts
  pub active_vote_plans : Ledger → List VotePlanStatus
  pub error_to_string : LedgerError → String
  -- `BlockDate::new(0, 0).shift_slot(slots, era)` for an era of so many slots to an epoch
  pub shift_slot : ℕ → ℕ → BlockDate
  pub new_log : FragmentId → FragmentLog
  pub modify : FragmentStatus BlockDate Hash → FragmentLog → FragmentLog
  pub log_id : FragmentLog → FragmentId
  pub log_status : FragmentLog → FragmentStatus BlockDate Hash
  -- the fields of the blockchain configuration; the date is in seconds
  pub slot_duration : Block0Configuration → ℕ
  pub slots_per_epoch : Block0Configuration → ℕ
  pub block0_date : Block0Configuration → ℕ
  pub block0_hash : Block0Configuration → String
  pub consensus_version : Block0Configuration → String
  pub linear_fees : Block0Configuration → LinearFee
  pub block_content_max_size : Block0Configuration → ℕ
  pub epoch_stability_depth : Block0Configuration → ℕ
  pub treasury_tax : LedgerParameters → TaxType
  pub reward_params : LedgerParameters → RewardParams

-- A fragment log: it keeps its id, and a new one takes the first status that it is given.
pub record LogLaws (c : Chain) : Type 0 where
  pub id_new : (i : c.FragmentId) → c.log_id (c.new_log i) ≡ i
  pub status_new : (i : c.FragmentId) → c.log_status (c.new_log i) ≡ FragmentStatus.pending
  pub id_modify :
      (s : FragmentStatus c.BlockDate c.Hash) (l : c.FragmentLog)
      → c.log_id (c.modify s l) ≡ c.log_id l
  pub status_modify :
      (s : FragmentStatus c.BlockDate c.Hash) (i : c.FragmentId)
      → c.log_status (c.modify s (c.new_log i)) ≡ s
