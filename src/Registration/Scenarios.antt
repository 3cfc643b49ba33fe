-- ===== src/Registration/Scenarios.antt =====
-- The theorems on registration-service, each applied to a small run of the service.
use vit_testing.Prelude.{
  false, str_eq, if◌then◌else◌, ℕ, ℕ_discrete, String, ◌≡◌, ◌≢◌, refl, inl, Option, none, some,
  List, [], ◌∷◌, ◌++◌, ok,
}
use vit_testing.Prelude.Text.{
  Text, codes, is_whitespace, is_digit, contains, split_whitespace, parse_u64,
}
use vit_testing.Prelude.Text.Laws.{value_from}
use vit_testing.Registration.Context.{
  Platform, Request, JobOutputInfo, Configuration, Context, registration_not_started, testnet,
  request_to_start, running, finished, new, new_run, api_token,
}
use vit_testing.Registration.Context.Lifecycle.{
  new_run_call, run_started_call, run_finished_call, Ends, call-Ends, calls, requests,
  calls-first_request,
}
use vit_testing.Registration.Worker.{
  context_panic, System, panicked, started, Reach, here, followed_by, serve_new, work_poll,
  work_start, boot, start_job, poll,
}
use vit_testing.Registration.Worker.Safety.{no_context_panic, Serves-running}
use vit_testing.Tokens.{Tokens}
use vit_testing.Registration.Rest.{
  job_new, job_status, job_id, status, serve, token_filter, authorize_token, job_new_handler,
}
use vit_testing.Registration.Rest.Access.{
  IsAccepted, header_of, serve-authorized, serve-busy, serve-new_status,
}
use vit_testing.Registration.Job.{get_funds, get_slot_no}
use vit_testing.Registration.Job.Readers.{Cell, row, get_funds-row}
use vit_testing.Registration.Job.Builder.{job_for}
use vit_testing.Registration.Job.Script
use vit_testing.Registration.Job.Script.{Tools, VoteRegistrationJob, Effect}
use vit_testing.Registration.Job.Script.Order.{
  Follows, key_plan, register_plan, submit_plan, start-Follows,
}
use vit_testing.Registration.Job.Script.Outcome.{Reported, start-Reported}

abbrev platform : Platform
platform = record { Uuid = ℕ; uuid_discrete = ℕ_discrete; NaiveDateTime = ℕ; ServerStopper = ℕ }

abbrev config : Configuration
config = record {
  port = 7070;
  result_dir = "result";
  jcli = "jcli";
  cardano_cli = "cardano-cli";
  voter_registration = "voter-registration";
  vit_kedqr = "vit-kedqr";
  network = testnet 1097911063;
  token = none;
}

abbrev alice : Request
alice = record { payment_skey = "a0"; payment_vkey = "a1"; stake_skey = "a2"; stake_vkey = "a3" }

abbrev bob : Request
bob = record { payment_skey = "b0"; payment_vkey = "b1"; stake_skey = "b2"; stake_vkey = "b3" }

abbrev info : JobOutputInfo
info = record { slot_no = 25398498; funds = 100 }

abbrev requested : Context platform
requested = record (new platform config "result") { state = request_to_start 7 alice }

abbrev working : System platform
working = record {
  context = record requested { state = running 7 100 alice };
  worker = started 7 alice;
}

-- A request comes in, the loop takes it and starts the job.
working_reached : Reach (boot platform config) working
unfolding boot new new_run poll start_job
working_reached =
    followed_by
      (followed_by (followed_by here (serve_new 7 alice (new platform config "result") _))
        (work_poll requested))
      (work_start 100 7 alice requested)

no_context_panic_example : working.worker ≢ panicked (context_panic registration_not_started)
no_context_panic_example =
    no_context_panic platform config working registration_not_started working_reached

Serves-running_example : (start : ℕ) × (working.context.state ≡ running 7 start alice)
Serves-running_example = Serves-running platform config working 7 alice working_reached (inl refl)

-- A second request while the first is running.
call-Ends_example : Ends (new_run_call 8 bob) working.context
call-Ends_example = call-Ends (new_run_call 8 bob) working.context

calls-first_request_example :
    calls
      (new_run_call 7 alice
        ∷ (requests ((8, bob) ∷ [])
            ++ (run_started_call 100
                ∷ (requests ((9, bob) ∷ []) ++ (run_finished_call 200 info ∷ [])))))
      (new platform config "result")
    ≡ record (new platform config "result") { state = finished 7 100 200 alice info }
calls-first_request_example =
    calls-first_request 7 alice 100 200 info ((8, bob) ∷ []) ((9, bob) ∷ [])
      (new platform config "result") (unfold new in tt)

-- What the tools print for a voter with 100 lovelace whose registration is in slot 25398498.
abbrev utxo_output : List Text
utxo_output =
    codes "TxHash TxIx Amount" ∷ codes "------------------" ∷ codes "4d2b 0 100 lovelace" ∷ []

abbrev registration_output : List Text
registration_output = codes "Vote public key used" ∷ codes "Slot registered: 25398498" ∷ []

abbrev tool_output : String → Option (List Text)
tool_output program =
    if str_eq program "cardano-cli" then some utxo_output else some registration_output

-- The submission is refused: its exit code is 1.
abbrev tools : Tools
tools = record {
  to_json = λ k. some k.cbor_hex;
  can_write = λ _. some tt;
  generate_key = λ _. some "sk";
  public_key = λ _ _. some "pk";
  status = λ _. some 1;
  output = λ c. tool_output c.program;
  read_file = λ _. some "addr";
}

abbrev job : VoteRegistrationJob
job = job_for config "result/7"

start_run : Script.start tools job alice [] ≡ (ok info, (Script.start tools job alice []).1)
unfolding job_for Script.start get_funds get_slot_no split_whitespace parse_u64 contains
start_run = refl

start-Follows_example :
    Follows
      (Script.start tools job alice)
      (key_plan tools job alice ++ (register_plan tools job ++ submit_plan tools job))
      []
start-Follows_example = start-Follows tools job alice []

start-Reported_example : Reported tools job info
start-Reported_example =
    start-Reported tools job alice info [] (Script.start tools job alice []).1 start_run

abbrev hash_cell : Cell
hash_cell = record {
  before = [];
  first = b'4';
  rest = codes "d2b";
  blank = tt;
  word = unfold is_whitespace in (refl, (refl, (refl, (refl, tt))));
}

abbrev index_cell : Cell
index_cell = record {
  before = codes "  ";
  first = b'0';
  rest = [];
  blank = unfold is_whitespace in (refl, (refl, tt));
  word = unfold is_whitespace in (refl, tt);
}

get_funds-row_example :
    get_funds
      (codes "TxHash" ∷ codes "---" ∷ row hash_cell index_cell (codes "   ") b'9' (codes "5") ∷ [])
    ≡ ok 95
unfolding value_from
get_funds-row_example =
    get_funds-row (codes "TxHash") (codes "---") hash_cell index_cell (codes "   ") b'9' (codes "5")
      [] (unfold is_whitespace in (refl, (refl, (refl, tt))))
      (unfold is_digit in (refl, (refl, tt)))

abbrev tokens : Tokens
tokens = record {
  ApiToken = String;
  ApiTokenManager = String;
  from_string = λ t. some t;
  manager = λ t. some t;
  is_token_valid = λ a b. str_eq a b;
}

abbrev parse_uuid : String → Option ℕ
parse_uuid text = if str_eq text "seven" then some 7 else none

-- A service with a token.
abbrev guarded : Context platform
guarded = record (new platform config "result") { config = record config { token = some "key" } }

serve-authorized_example :
    (token : String) × (header_of platform tokens parse_uuid (job_new (some "key") 7 alice)
      ≡ some token)
    × IsAccepted platform tokens parse_uuid "key" token
serve-authorized_example =
    serve-authorized platform tokens parse_uuid "key" (job_new (some "key") 7 alice) guarded
      (unfold api_token in refl) (λ e. cc)
      (unfold serve in
        unfold token_filter in
        unfold authorize_token in
        unfold api_token in unfold new in unfold job_new_handler in unfold new_run in λ e. cc)

serve-busy_example :
    (serve platform tokens parse_uuid false (job_new none 8 bob) requested).1 ≡ requested
serve-busy_example =
    serve-busy platform tokens parse_uuid false (job_new none 8 bob) requested (λ h. h)

serve-new_status_example :
    let (response, c') =
      serve platform tokens parse_uuid false
        (job_new none 7 alice)
        (new platform config "result") in
    (response ≡ job_id 7)
    × (serve platform tokens parse_uuid false (job_status none "seven") c'
        ≡ (status (ok (request_to_start 7 alice)), c'))
serve-new_status_example =
    serve-new_status platform tokens parse_uuid false none "seven" 7 alice
      (new platform config "result") (unfold new in tt) (unfold token_filter in refl) refl
