-- ===== src/Snapshot/Command/Options.antt =====
-- What the voting tools read from the command of snapshot-trigger-service/src/config/mod.rs.
use mathlib.Core.Option
use vit_testing.Prelude.{
  ℕ, String, ◌≡◌, refl, Option, none, some, List, ◌∷◌, ap, ◌∙◌, Bool, true, false,
}
use vit_testing.Snapshot.Context.{JobParameters, NetworkType, mainnet, testnet, Configuration}
use vit_testing.Snapshot.Command.{
  Arg, word, number, path, Command, spawn_command, tools_command, genesis_args, option_of,
  asks_mainnet,
}

pub magic_of : NetworkType → Option Arg
magic_of mainnet = none
magic_of (testnet magic) = some (number magic)

pub is_mainnet : NetworkType → Bool
is_mainnet mainnet = true
is_mainnet (testnet magic) = false

-- The command with the words behind it: the program itself if there is one, or else nix with the
-- branch.
unfoldable pub started : Option String → Option String → List Arg → Option Command
started (some bin) nix_branch args = some (record { program = bin; args = args })
started none (some nix_branch) args =
    some (record { program = "nix"; args = word "run" ∷ word nix_branch ∷ word "--" ∷ args })
started none none args = none

with_network : NetworkType → Configuration → Configuration
with_network network config = record config {
  voting_tools = record config.voting_tools { network = network };
}

-- Each option has the value of the job and the configuration; `--slot-no` is there for a slot alone.
pub record Reads (config : Configuration) (job_id : String) (params : JobParameters)
    (opts : List Arg) : Type 0 where
  pub mainnet : asks_mainnet opts ≡ is_mainnet config.voting_tools.network
  pub magic : option_of "--testnet-magic" opts ≡ magic_of config.voting_tools.network
  pub db : option_of "--db" opts ≡ some (word config.voting_tools.db)
  pub db_user : option_of "--db-user" opts ≡ some (word config.voting_tools.db_user)
  pub db_host : option_of "--db-host" opts ≡ some (word config.voting_tools.db_host)
  pub out_file : option_of "--out-file" opts ≡ some (path config.result_dir job_id "snapshot.json")
  pub scale : option_of "--scale" opts ≡ some (number config.voting_tools.scale)
  pub slot_no : option_of "--slot-no" opts ≡ Option.map number params.slot_no
  pub threshold : option_of "--threshold" opts ≡ some (number params.threshold)

genesis_args-Reads :
    (config : Configuration) (job_id : String) (params : JobParameters) (network : NetworkType)
    (slot_no : Option ℕ)
    → (opts : List Arg) × (genesis_args
          (with_network network config)
          job_id
          (record params { slot_no = slot_no })
        ≡ word "genesis" ∷ opts)
      × Reads (with_network network config) job_id (record params { slot_no = slot_no }) opts
unfolding genesis_args option_of asks_mainnet magic_of is_mainnet with_network
genesis_args-Reads config job_id params mainnet none = (
  _,
  refl,
  record {
    mainnet = refl;
    magic = refl;
    db = refl;
    db_user = refl;
    db_host = refl;
    out_file = refl;
    scale = refl;
    slot_no = refl;
    threshold = refl;
  },
)
genesis_args-Reads config job_id params mainnet (some n) = (
  _,
  refl,
  record {
    mainnet = refl;
    magic = refl;
    db = refl;
    db_user = refl;
    db_host = refl;
    out_file = refl;
    scale = refl;
    slot_no = refl;
    threshold = refl;
  },
)
genesis_args-Reads config job_id params (testnet magic) none = (
  _,
  refl,
  record {
    mainnet = refl;
    magic = refl;
    db = refl;
    db_user = refl;
    db_host = refl;
    out_file = refl;
    scale = refl;
    slot_no = refl;
    threshold = refl;
  },
)
genesis_args-Reads config job_id params (testnet magic) (some n) = (
  _,
  refl,
  record {
    mainnet = refl;
    magic = refl;
    db = refl;
    db_user = refl;
    db_host = refl;
    out_file = refl;
    scale = refl;
    slot_no = refl;
    threshold = refl;
  },
)

with_tools : Option String → Option String → Configuration → Configuration
with_tools bin nix_branch config = record config {
  voting_tools = record config.voting_tools { bin = bin; nix_branch = nix_branch };
}

spawn_command-started :
    (config : Configuration) (job_id : String) (params : JobParameters)
    (bin nix_branch : Option String)
    → spawn_command (with_tools bin nix_branch config) job_id params
      ≡ started bin nix_branch (genesis_args (with_tools bin nix_branch config) job_id params)
unfolding spawn_command tools_command with_tools started
spawn_command-started config job_id params (some bin) nix_branch = refl
spawn_command-started config job_id params none (some nix_branch) = refl
spawn_command-started config job_id params none none = refl

-- With a program or a branch configured, and else not, there is a command: the program, or nix with the
-- branch. Behind it the tools are asked for the genesis, and a reader that takes each option with the
-- value behind it finds in the rest the main network or the magic of another, the database, the file
-- of this job, the scale, the threshold, and the slot if the job has one, whatever texts these are.
pub spawn_command-Reads :
    (config : Configuration) (job_id : String) (params : JobParameters)
    → (opts : List Arg) × (spawn_command config job_id params
        ≡ started config.voting_tools.bin config.voting_tools.nix_branch (word "genesis" ∷ opts))
      × Reads config job_id params opts
unfolding with_network with_tools
spawn_command-Reads config job_id params =
    let (opts, e, reads) =
      genesis_args-Reads config job_id params config.voting_tools.network params.slot_no in
    let bin = config.voting_tools.bin in
    let nix_branch = config.voting_tools.nix_branch in
    (
      opts,
      spawn_command-started config job_id params bin nix_branch ∙ ap (started bin nix_branch) e,
      reads,
    )
