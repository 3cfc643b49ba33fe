-- ===== src/Registration/Job/Builder.antt =====
-- `VoteRegistrationJobBuilder` of registration-service/src/job/mod.rs, and the job that the loop of
-- args/mod.rs builds for a request.
use vit_testing.Prelude.{String}
use vit_testing.Registration.Context.{NetworkType, Configuration}
use vit_testing.Registration.Job.Script.{VoteRegistrationJob, default_job}

pub record VoteRegistrationJobBuilder : Type 0 where
  pub job : VoteRegistrationJob

unfoldable pub new : VoteRegistrationJobBuilder
new = record { job = default_job }

unfoldable pub with_jcli : String → VoteRegistrationJobBuilder → VoteRegistrationJobBuilder
with_jcli jcli b = record { job = record b.job { jcli = jcli } }

unfoldable pub with_cardano_cli : String → VoteRegistrationJobBuilder → VoteRegistrationJobBuilder
with_cardano_cli cardano_cli b = record { job = record b.job { cardano_cli = cardano_cli } }

unfoldable pub with_kedqr : String → VoteRegistrationJobBuilder → VoteRegistrationJobBuilder
with_kedqr vit_kedqr b = record { job = record b.job { vit_kedqr = vit_kedqr } }

unfoldable pub with_voter_registration :
    String → VoteRegistrationJobBuilder → VoteRegistrationJobBuilder
with_voter_registration voter_registration b = record {
  job = record b.job { voter_registration = voter_registration };
}

unfoldable pub with_network : NetworkType → VoteRegistrationJobBuilder → VoteRegistrationJobBuilder
with_network network b = record { job = record b.job { network = network } }

unfoldable pub with_working_dir : String → VoteRegistrationJobBuilder → VoteRegistrationJobBuilder
with_working_dir working_dir b = record { job = record b.job { working_dir = working_dir } }

unfoldable pub build : VoteRegistrationJobBuilder → VoteRegistrationJob
build b = b.job

-- The chain of the loop, for a configuration and the folder of the job.
unfoldable pub job_for : Configuration → String → VoteRegistrationJob
unfolding new with_jcli with_cardano_cli with_kedqr with_voter_registration with_network
    with_working_dir build
job_for config job_result_dir =
    let tools =
      with_voter_registration config.voter_registration
        (with_cardano_cli config.cardano_cli (with_jcli config.jcli new)) in
    build (
      with_working_dir job_result_dir
        (with_kedqr config.vit_kedqr (with_network config.network tools)))
