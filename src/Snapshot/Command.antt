-- ===== src/Snapshot/Command.antt =====
-- `spawn_command` and `VotingToolsParams::command` of snapshot-trigger-service/src/config/mod.rs: the
-- command line for a snapshot.
pub mod Options
use vit_testing.Prelude.{
  ℕ, String, Bool, true, false, ◌≡◌, refl, Option, none, some, List, [], ◌∷◌, ◌++◌, Result, ok, err,
  str_eq, if◌then◌else◌,
}
use vit_testing.Snapshot.Context.{
  JobParameters, NetworkType, mainnet, testnet, VotingToolsParams, Configuration,
}

-- A word of a command line: a literal, a number, or a file in a folder of a directory.
pub data Arg : Type 0 where
  word : String → Arg
  number : ℕ → Arg
  path : String → String → String → Arg

pub record Command : Type 0 where
  pub program : String
  pub args : List Arg

-- `none` is `WrongVotingToolsConfiguration`.
unfoldable pub tools_command : VotingToolsParams → Option Command
tools_command v = elim v.bin [
  | some bin ↦ some (record { program = bin; args = [] })
  | none ↦ elim v.nix_branch [
    | some nix_branch ↦
        some (record { program = "nix"; args = word "run" ∷ word nix_branch ∷ word "--" ∷ [] })
    | none ↦ none
  ]
]

unfoldable pub network_args : NetworkType → List Arg
network_args mainnet = word "--mainnet" ∷ []
network_args (testnet magic) = word "--testnet-magic" ∷ number magic ∷ []

slot_no_args : Option ℕ → List Arg
slot_no_args none = []
slot_no_args (some slot_no) = word "--slot-no" ∷ number slot_no ∷ []

-- What `spawn_command` adds to the command of the tools.
unfoldable pub genesis_args : Configuration → String → JobParameters → List Arg
unfolding network_args slot_no_args
genesis_args config job_id params =
    word "genesis"
    ∷ (network_args config.voting_tools.network
        ++ (word "--db"
            ∷ word config.voting_tools.db
            ∷ word "--db-user"
            ∷ word config.voting_tools.db_user
            ∷ word "--db-host"
            ∷ word config.voting_tools.db_host
            ∷ word "--out-file"
            ∷ path config.result_dir job_id "snapshot.json"
            ∷ word "--scale"
            ∷ number config.voting_tools.scale
            ∷ (slot_no_args params.slot_no ++ (word "--threshold" ∷ number params.threshold ∷ []))))

unfoldable pub spawn_command : Configuration → String → JobParameters → Option Command
unfolding tools_command genesis_args
spawn_command config job_id params = elim (tools_command config.voting_tools) [
  | none ↦ none
  | some c ↦ some (record c { args = c.args ++ genesis_args config job_id params })
]

-- How the tools read their options: `--mainnet` alone, and any other with its value.
unfoldable pub option_of : String → List Arg → Option Arg
option_of name (word flag ∷ value ∷ rest) =
    let alone = option_of name (value ∷ rest) in
    let after = option_of name rest in
    if str_eq flag "--mainnet" then alone else (if str_eq flag name then some value else after)
option_of name _ = none

-- Whether the tools are told the main network.
unfoldable pub asks_mainnet : List Arg → Bool
asks_mainnet (word flag ∷ value ∷ rest) =
    let after = asks_mainnet rest in if str_eq flag "--mainnet" then true else after
asks_mainnet _ = false
