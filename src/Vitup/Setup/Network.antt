-- ===== src/Vitup/Setup/Network.antt =====
-- The network that `build` of vitup/src/setup/start/quick/builder.rs sets up, and the builder of
-- vitup/src/scenario/controller.rs that it hands it to.
pub mod Wallets
use vit_testing.Prelude.{
  ℕ, String, Bool, true, false, Option, none, some, List, [], ◌∷◌, ◌++◌, map, filter, Result, ok,
  err, ltb, if◌then◌else◌,
}
use vit_testing.Prelude.Text.{Text, codes}
use vit_testing.Mock.Run.{Run, returns, panics, ◌>>=◌, unwrap}
use vit_testing.Vitup.Initials.{
  Initial, Template, ExternalTemplate, Rng, external_templates, templates,
}
use vit_testing.Vitup.Setup.{Crates, LinearFee, QuickVitBackendSettingsBuilder}
use vit_testing.Vitup.Setup.Periods.{
  ValidVotePlanParameters, recalculate_voting_periods_if_needed, vote_plan_parameters,
}
use vit_testing.Vitup.Setup.Plans.{VotePlanDef, build_vote_plans}
use vit_testing.Vitup.Setup.Qr.{World, DumpError, QrFile, alias_text, dump_qrs}

-- A node of jormungandr's topology.
pub record Node : Type 0 where
  pub alias : Text
  pub trusted_peers : List Text

abbrev leader_1 : Text
leader_1 = codes "Leader1"

abbrev leader_2 : Text
leader_2 = codes "Leader2"

abbrev leader_3 : Text
leader_3 = codes "Leader3"

abbrev leader_4 : Text
leader_4 = codes "Leader4"

abbrev wallet_node : Text
wallet_node = codes "Wallet_Node"

node : Text → Node
node alias = record { alias = alias; trusted_peers = [] }

add_trusted_peer : Text → Node → Node
add_trusted_peer peer n = record n { trusted_peers = n.trusted_peers ++ peer ∷ [] }

-- The nodes in the order in which they are registered.
unfoldable pub build_topology : List Node
unfolding node add_trusted_peer
build_topology =
    node leader_1
    ∷ add_trusted_peer leader_1 (node leader_2)
    ∷ add_trusted_peer leader_2 (add_trusted_peer leader_1 (node leader_3))
    ∷ add_trusted_peer leader_3
        (add_trusted_peer leader_2 (add_trusted_peer leader_1 (node leader_4)))
    ∷ add_trusted_peer leader_4 (
        add_trusted_peer leader_3
          (add_trusted_peer leader_2 (add_trusted_peer leader_1 (node wallet_node))))
    ∷ []

-- `WalletTemplate::new_account`; all have the discrimination of production.
pub record WalletTemplate : Type 0 where
  pub alias : Text
  pub value : ℕ

-- What the `Blockchain` of jormungandr is told. The consensus, the speed of updates of keys and the
-- coefficient of active slots are the same for all.
pub record Blockchain (crates : Crates) (ProposalId : Type 0) : Type 0 where
  pub slots_per_epoch : ℕ
  pub slot_duration : ℕ
  pub leaders : List Text
  pub linear_fee : LinearFee
  pub external_committees : List crates.CommitteeId
  pub wallets : List WalletTemplate
  pub committees : List Text
  pub external_wallets : List ExternalTemplate
  pub vote_plans : List (VotePlanDef ProposalId)

module _ (crates : Crates) (ProposalId : Type 0) where
  -- What jormungandr gives for a topology and a blockchain: which numbers of slots and durations are
  -- valid, and a controller, with its wallets, plans, keys and the date of block 0.
  pub record Controller : Type 0 where
    pub world : World
    pub vote_plans : List (VotePlanDef ProposalId)
    pub private_vote_plans : Text → Option crates.Key
    pub block0_date : ℕ

  pub record Jormungandr : Type 1 where
    pub Error : Type 0
    pub is_slots_per_epoch : ℕ → Bool
    pub is_slot_duration : ℕ → Bool
    pub build : List Node → Blockchain crates ProposalId → Result Error Controller

  -- `VitControllerBuilder`, over a `ControllerBuilder` that is given both before it builds.
  pub record VitControllerBuilder : Type 0 where
    pub topology : Option (List Node)
    pub blockchain : Option (Blockchain crates ProposalId)
    pub has_vit_settings : Bool

  unfoldable pub new : VitControllerBuilder
  new = record { topology = none; blockchain = none; has_vit_settings = false }

  unfoldable pub set_topology : List Node → VitControllerBuilder → VitControllerBuilder
  set_topology nodes b = record b { topology = some nodes }

  unfoldable pub set_blockchain :
      Blockchain crates ProposalId → VitControllerBuilder → VitControllerBuilder
  set_blockchain blockchain b = record b { blockchain = some blockchain }

  unfoldable pub build_settings : VitControllerBuilder → VitControllerBuilder
  build_settings b = record b { has_vit_settings = true }

  with_vit_settings : Bool → Controller → Run Controller
  with_vit_settings true controller = returns controller
  with_vit_settings false controller = panics

module _ (crates : Crates) {ProposalId : Type 0} (j : Jormungandr crates ProposalId) where
  or_failed :
      Bool
      → Result j.Error (Controller crates ProposalId)
      → Run (Result j.Error (Controller crates ProposalId))
  unfolding with_vit_settings
  or_failed vit_settings (err e) = returns (err e)
  or_failed vit_settings (ok controller) = do
    built ← with_vit_settings crates ProposalId vit_settings controller
    returns (ok built)

  -- The settings are unwrapped after the controller is built.
  unfoldable pub build_controllers :
      VitControllerBuilder crates ProposalId → Run (Result j.Error (Controller crates ProposalId))
  unfolding or_failed
  build_controllers b = do
    nodes ← unwrap b.topology
    blockchain ← unwrap b.blockchain
    or_failed b.has_vit_settings (j.build nodes blockchain)

  valid : Bool → ℕ → Run ℕ
  valid true n = returns n
  valid false n = panics

  abbrev Builder : Type 0
  Builder = QuickVitBackendSettingsBuilder crates

  committee_template : Builder → WalletTemplate
  committee_template b = record { alias = b.committe_wallet; value = 1000000000 }

  -- The templates with a value are added as wallets.
  add_wallets : List Template → List WalletTemplate
  unfolding alias_text
  add_wallets [] = []
  add_wallets (t ∷ ts) =
      let rest = add_wallets ts in
      if ltb 0 t.value then record { alias = alias_text t.alias; value = t.value } ∷ rest else rest

  module _ (rng : Rng) where
    initial_templates : rng.Seed → Builder → Option (List Initial) → Run (List Template)
    initial_templates seed b none = returns []
    initial_templates seed b (some is) = templates rng b.parameters.voting_power seed is

  external_wallets_of : Option (List Initial) → List ExternalTemplate
  external_wallets_of none = []
  external_wallets_of (some is) = external_templates is

  -- The blockchain, with the wallets of the templates.
  unfoldable pub blockchain_of :
      (ℕ → ProposalId) → List Template → Builder → Run (Blockchain crates ProposalId)
  unfolding valid committee_template add_wallets external_wallets_of
  blockchain_of ids ts b = do
    let p = b.parameters
    slots ← valid (j.is_slots_per_epoch p.slots_per_epoch) p.slots_per_epoch
    duration ← valid (j.is_slot_duration p.slot_duration) p.slot_duration
    returns (record {
      slots_per_epoch = slots;
      slot_duration = duration;
      leaders = leader_1 ∷ leader_2 ∷ leader_3 ∷ leader_4 ∷ [];
      linear_fee = b.fees;
      external_committees = b.external_committees;
      wallets = committee_template b ∷ add_wallets ts;
      committees = b.committe_wallet ∷ [];
      external_wallets = external_wallets_of p.initials;
      vote_plans = build_vote_plans crates ids b;
    })

  pub data BuildError : Type 0 where
    controller_error : j.Error → BuildError
    dump_error : DumpError → BuildError

  -- What `build` gives, with the builder as it leaves it.
  pub record Built : Type 0 where
    pub controller : Controller crates ProposalId
    pub parameters : ValidVotePlanParameters (VotePlanDef ProposalId)
    pub version : String
    pub builder : Builder
    pub files : List QrFile

  dump_unless_skipped :
      Bool → World → List Template → Builder → Run (Result DumpError (List QrFile))
  dump_unless_skipped true world ts b = returns (ok [])
  dump_unless_skipped false world ts b = dump_qrs crates world ts b

  finish :
      ℕ
      → Controller crates ProposalId
      → Builder
      → Result DumpError (List QrFile)
      → Run (Result BuildError Built)
  finish now c b (err e) = returns (err (dump_error e))
  finish now c b (ok files) = do
    b' ← recalculate_voting_periods_if_needed crates c.block0_date now b
    parameters ← vote_plan_parameters crates c.vote_plans c.private_vote_plans b'
    returns (
        ok (record {
          controller = c;
          parameters = parameters;
          version = b'.parameters.version;
          builder = b';
          files = files;
        }))

  dump_and_finish :
      ℕ
      → List Template
      → Builder
      → Result j.Error (Controller crates ProposalId)
      → Run (Result BuildError Built)
  unfolding dump_unless_skipped finish
  dump_and_finish now ts b (err e) = returns (err (controller_error e))
  dump_and_finish now ts b (ok c) = do
    dumped ← dump_unless_skipped b.skip_qr_generation c.world ts b
    finish now c b dumped

  unfoldable pub build :
      (rng : Rng) → rng.Seed → (ℕ → ProposalId) → ℕ → Builder → Run (Result BuildError Built)
  unfolding initial_templates dump_and_finish
  build rng seed ids now b = do
    ts ← initial_templates rng seed b b.parameters.initials
    blockchain ← blockchain_of ids ts b
    let builder = set_topology crates ProposalId build_topology (new crates ProposalId)
    let settled =
        build_settings crates ProposalId (set_blockchain crates ProposalId blockchain builder)
    controller ← build_controllers settled
    dump_and_finish now ts b controller
