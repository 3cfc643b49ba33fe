-- ===== src/Snapshot/Scenarios.antt =====
-- The theorems on snapshot-trigger-service, each applied to a small run of the service, and a run in
-- which a job is reported with the request of the next one.
mod Rest
use vit_testing.Prelude.{ℕ, ℕ_discrete, ◌≡◌, refl, none, some, List, [], ◌∷◌, ◌++◌, true}
use vit_testing.Snapshot.Context.{
  Platform, JobParameters, testnet, Configuration, State, Context, request_to_start, finished, new,
  new_run,
}
use vit_testing.Snapshot.Command.{Arg, word, spawn_command, tools_command}
use vit_testing.Snapshot.Command.Options.{Reads, started, spawn_command-Reads}
use vit_testing.Snapshot.Worker.{
  System, Worker, polling, reporting, Reach, here, followed_by, serve_new, work_poll, work_spawn,
  work_start, work_wait, work_finish, work_report, work_persist, boot, poll, spawn_child, start_job,
  wait_child, finish_job, read_status, persist_status,
}
use vit_testing.Snapshot.Worker.Reports.{
  IsSurprised, AreReports, no_context_error, reports-AreReports,
}

abbrev pub platform : Platform
platform = record {
  Uuid = ℕ;
  uuid_discrete = ℕ_discrete;
  uuid_to_string = λ _. "id";
  NaiveDateTime = ℕ;
  ServerStopper = ℕ;
}

abbrev pub config : Configuration
config = record {
  port = 7070;
  voting_tools = record {
    bin = some "voting-tools";
    nix_branch = none;
    network = testnet 1097911063;
    db = "cexplorer";
    db_user = "cexplorer";
    db_host = "/run/postgresql";
    scale = 1000000;
  };
  result_dir = "result";
  token = none;
}

abbrev pub june : JobParameters
june = record { slot_no = some 25398498; threshold = 500 }

abbrev july : JobParameters
july = record { slot_no = none; threshold = 1000 }

abbrev pub idle_context : Context platform
idle_context = new platform config "result"

abbrev at_work : State platform → Worker platform → System platform
at_work state worker = record {
  context = record idle_context { state = state };
  worker = worker;
  reports = [];
}

-- A job from its request to its end.
job_done : Reach (boot platform config) (at_work (finished 7 100 200 june) (reporting 7))
unfolding boot new new_run poll spawn_child spawn_command tools_command start_job wait_child
    finish_job
job_done =
    followed_by
      (followed_by
        (followed_by
          (followed_by (followed_by (followed_by here (serve_new 7 june _ _ _)) (work_poll _ _))
            (work_spawn true 7 june _ _))
          (work_start 100 7 june _ _))
        (work_wait true 7 june _ _))
      (work_finish 200 7 june _ _)

abbrev overtaken : System platform
overtaken = record (at_work (request_to_start 8 july) polling) {
  reports = (7, request_to_start 8 july) ∷ [];
}

-- A request that comes in before the loop asks for the status stands in the report of job 7.
job_overtaken : Reach (boot platform config) overtaken
unfolding new new_run read_status persist_status
job_overtaken =
    followed_by (followed_by (followed_by job_done (serve_new 8 july _ _ _)) (work_report 7 _ _))
      (work_persist true 7 (request_to_start 8 july) _ _)

no_context_error_example : ¬ IsSurprised overtaken.worker
no_context_error_example = no_context_error platform config overtaken job_overtaken

reports-AreReports_example : AreReports overtaken.reports
reports-AreReports_example = reports-AreReports platform config overtaken job_overtaken

spawn_command-Reads_example :
    (opts : List Arg) × (spawn_command config "7" june
      ≡ some (record { program = "voting-tools"; args = word "genesis" ∷ opts }))
    × Reads config "7" june opts
unfolding started
spawn_command-Reads_example = spawn_command-Reads config "7" june
