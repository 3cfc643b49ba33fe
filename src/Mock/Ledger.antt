-- ===== src/Mock/Ledger.antt =====
-- vitup/src/mock/ledger_state.rs. A loop that may not end takes the number of its rounds. Times are
-- in nanoseconds, as `SystemTime` counts them.
pub mod Clock
pub mod Logs
pub mod Consistency
pub mod Statuses
use mathlib.Core.Logic.{ite}
use vit_testing.Prelude.{
  ℕ, zero, suc, ◌+◌, ◌*◌, String, Bool, Option, none, some, List, [], ◌∷◌, ◌++◌, Result, ok, err,
  ltb, str_eq, if◌then◌else◌, filter, map, true, false,
}
use vit_testing.Mock.Chain.{Chain, FragmentStatus, rejected, in_a_block}
use vit_testing.Mock.Run.{Run, returns, panics, running, ◌>>=◌, unwrap}

-- `no_override` is the source's `None`.
pub data FragmentRecieveStrategy : Type 0 where
  reject accept pending no_override : FragmentRecieveStrategy

abbrev pub nanos : ℕ
nanos = 1_000_000_000

-- The loop of `curr_block_date`: neither `now` nor `curr_time` changes in it.
unfoldable pub count_slots : ℕ → ℕ → ℕ → ℕ → ℕ → Run ℕ
count_slots zero now curr_time slot_duration no_of_slots = running
count_slots (suc rounds) now curr_time slot_duration no_of_slots =
    let rest = count_slots rounds now curr_time slot_duration (suc no_of_slots) in
    if ltb now (curr_time + slot_duration) then returns no_of_slots else rest

-- The loop of `curr_slot_start_time`.
unfoldable pub advance_slots : ℕ → ℕ → ℕ → ℕ → Run ℕ
advance_slots zero now curr_time slot_duration = running
advance_slots (suc rounds) now curr_time slot_duration =
    let rest = advance_slots rounds now (curr_time + slot_duration) slot_duration in
    if ltb now (curr_time + slot_duration) then returns curr_time else rest

-- `override_fragment_status`; `block` is what `TestGen::hash()` gave.
override_status :
    (c : Chain) → c.Hash → c.BlockDate → FragmentRecieveStrategy → c.FragmentLog → c.FragmentLog
override_status c block date pending log = c.modify FragmentStatus.pending log
override_status c block date accept log = c.modify (in_a_block date block) log
override_status c block date reject log = c.modify (rejected "Force reject by mock") log
override_status c block date no_override log = log

pub record LedgerState (c : Chain) : Type 0 where
  pub fragment_strategy : FragmentRecieveStrategy
  pub fragment_logs : List c.FragmentLog
  pub received_fragments : List c.Fragment
  pub ledger : c.Ledger
  pub start_time : ℕ
  pub block0_configuration : c.Block0Configuration
  pub block0_bin : List ℕ

pub record SettingsDto (c : Chain) : Type 0 where
  pub block0_hash : String
  pub block0_time : ℕ
  pub curr_slot_start_time : Option ℕ
  pub consensus_version : String
  pub fees : c.LinearFee
  pub block_content_max_size : ℕ
  pub epoch_stability_depth : ℕ
  pub slot_duration : ℕ
  pub slots_per_epoch : ℕ
  pub treasury_tax : c.TaxType
  pub reward_params : c.RewardParams

module _ (c : Chain) where
  -- `start` is what `SystemTime::now()` gave, and the ledger what `Ledger::new(block0)` gave.
  unfoldable pub new :
      c.Block0Configuration
      → List ℕ
      → ℕ
      → Result c.LedgerError c.Ledger
      → Result c.LedgerError (LedgerState c)
  new config bin start (err e) = err e
  new config bin start (ok ledger) = ok (record {
    fragment_strategy = no_override;
    fragment_logs = [];
    received_fragments = [];
    ledger = ledger;
    start_time = start;
    block0_configuration = config;
    block0_bin = bin;
  })

  unfoldable pub curr_block_date : ℕ → LedgerState c → Run c.BlockDate
  curr_block_date rounds s = do
    no_of_slots ←
        count_slots rounds (c.block0_date s.block0_configuration * nanos) s.start_time
          (c.slot_duration s.block0_configuration * nanos) 0
    returns (c.shift_slot (c.slots_per_epoch s.block0_configuration) no_of_slots)

  unfoldable pub curr_slot_start_time : ℕ → LedgerState c → Run ℕ
  curr_slot_start_time rounds s =
      advance_slots rounds (c.block0_date s.block0_configuration * nanos) s.start_time
        (c.slot_duration s.block0_configuration * nanos)

  -- The log comes back beside the state.
  unfoldable pub set_fragment_status :
      ℕ
      → c.Hash
      → c.FragmentLog
      → FragmentRecieveStrategy
      → Result c.LedgerError c.Ledger
      → LedgerState c
      → Run (c.FragmentLog × LedgerState c)
  unfolding override_status
  set_fragment_status rounds block log no_override (ok ledger) s = do
    let s' = record s { ledger = ledger }
    date ← curr_block_date rounds s'
    returns (c.modify (in_a_block date block) log, s')
  set_fragment_status rounds block log no_override (err error) s =
      returns (c.modify (rejected (c.error_to_string error)) log, s)
  set_fragment_status rounds block log strategy result s = do
    date ← curr_block_date rounds s
    returns (override_status c block date strategy log, s)

  unfoldable pub message :
      ℕ → c.Hash → c.Fragment → LedgerState c → Run (c.FragmentId × LedgerState c)
  unfolding set_fragment_status
  message rounds block fragment s = do
    let received = record s { received_fragments = s.received_fragments ++ fragment ∷ [] }
    let parameters = c.get_ledger_parameters received.ledger
    date ← curr_block_date rounds received
    let result = c.apply_fragment received.ledger parameters fragment date
    (log, s') ←
        set_fragment_status rounds block (c.new_log (c.fragment_id fragment))
          received.fragment_strategy result received
    returns (c.fragment_id fragment, record s' { fragment_logs = s'.fragment_logs ++ log ∷ [] })

  pub contains_id : List c.FragmentId → c.FragmentId → Bool
  contains_id [] i = false
  contains_id (j ∷ js) i = ite (c.id_discrete j i) true (contains_id js i)

  -- The entries that are collected into a map, in the order in which they are inserted.
  unfoldable pub statuses :
      List c.FragmentId → LedgerState c → List (String × FragmentStatus c.BlockDate c.Hash)
  unfolding contains_id
  statuses ids s =
      map (λ x. (c.id_to_string (c.log_id x), c.log_status x))
        (filter (λ x. contains_id ids (c.log_id x)) s.fragment_logs)

  unfoldable pub set_fragment_strategy : FragmentRecieveStrategy → LedgerState c → LedgerState c
  set_fragment_strategy strategy s = record s { fragment_strategy = strategy }

  -- `HashMap::get` after the entries were inserted in order: the last entry of a key counts.
  unfoldable pub get :
      String
      → List (String × FragmentStatus c.BlockDate c.Hash)
      → Option (FragmentStatus c.BlockDate c.Hash)
  get k [] = none
  get k ((j, v) ∷ m) = elim (get k m) [
    | some w ↦ some w
    | none ↦ if str_eq j k then some v else none
  ]

  -- Changes the last element, if there is one.
  modify_last : (c.FragmentLog → c.FragmentLog) → List c.FragmentLog → Option (List c.FragmentLog)
  modify_last f [] = none
  modify_last f (x ∷ []) = some (f x ∷ [])
  modify_last f (x ∷ y ∷ xs) = elim (modify_last f (y ∷ xs)) [
    | none ↦ none
    | some ys ↦ some (x ∷ ys)
  ]

  unfoldable pub set_status_for_recent_fragment :
      ℕ → c.Hash → FragmentRecieveStrategy → LedgerState c → Run (LedgerState c)
  unfolding modify_last override_status
  set_status_for_recent_fragment rounds block strategy s = do
    block_date ← curr_block_date rounds s
    logs ← unwrap (modify_last (override_status c block block_date strategy) s.fragment_logs)
    returns (record s { fragment_logs = logs })

  unfoldable pub accept_last_fragment : ℕ → c.Hash → LedgerState c → Run (LedgerState c)
  accept_last_fragment rounds block s = set_status_for_recent_fragment rounds block accept s

  unfoldable pub reject_last_fragment : ℕ → c.Hash → LedgerState c → Run (LedgerState c)
  reject_last_fragment rounds block s = set_status_for_recent_fragment rounds block reject s

  unfoldable pub settings : ℕ → LedgerState c → Run (SettingsDto c)
  settings rounds s = do
    let config = s.block0_configuration
    let params = c.get_ledger_parameters s.ledger
    curr ← curr_slot_start_time rounds s
    returns (record {
      block0_hash = c.block0_hash config;
      block0_time = c.block0_date config * nanos;
      curr_slot_start_time = some curr;
      consensus_version = c.consensus_version config;
      fees = c.linear_fees config;
      block_content_max_size = c.block_content_max_size config;
      epoch_stability_depth = c.epoch_stability_depth config;
      slot_duration = c.slot_duration config;
      slots_per_epoch = c.slots_per_epoch config;
      treasury_tax = c.treasury_tax params;
      reward_params = c.reward_params params;
    })
