-- ===== src/Mock/Scenarios/Rest.antt =====
-- The theorems on vitup/src/mock/rest.rs, each applied to a small run of the mock.
use vit_testing.Prelude.{ℕ, String, true, false, ◌≡◌, refl, none, some, [], str_eq}
use vit_testing.Mock.Context.{Context}
use vit_testing.Mock.Server.{unlocked, poisoned}
use vit_testing.Mock.Rest.Defs.{Codec, Moment}
use vit_testing.Tokens.{Tokens}
use vit_testing.Mock.Rest.Requests.{
  version, api, active_vote_plans, fund, serve, closed, silence, internal_error,
}
use vit_testing.Mock.Rest.Requests.Availability.{serve-unavailable, IsGuarded}
use vit_testing.Mock.Rest.Requests.Stuck.{is_refused}
use vit_testing.Mock.Rest.Requests.Broken.{unanswered, serve-broken, active_vote_plans-last}
use vit_testing.Mock.Scenarios.{chain, station}

abbrev codec : Codec chain
codec = record {
  Identifier = ℕ;
  AccountState = ℕ;
  parse_id = λ _. some true;
  decode_hex = λ _. none;
  decode_fragment = λ _. some (true, 1);
  decode_error = λ _. "error";
  debug_fragment = λ _. "fragment";
  parse_account = λ _. none;
  get_state = λ _ _. none;
}

abbrev tokens : Tokens
tokens = record {
  ApiToken = String;
  ApiTokenManager = String;
  from_string = λ t. some t;
  manager = λ t. some t;
  is_token_valid = λ a b. str_eq a b;
}

abbrev moment : Moment chain
moment = record { first = 1; second = 2; rounds = 3; block = 77 }

abbrev context : Context chain String
context = record {
  config = record { port = 8080; token = none; ideascale = false; working_dir = "mock" };
  address = record { ip = []; port = 8080 };
  state = station;
  logger = record { entries = [] };
}

abbrev off : Context chain String
off = record context { state = record station { available = false } }

serve-unavailable_example :
    (x' : Context chain String) × (serve codec String tokens false moment
        (api fund)
        (record { context = off; lock = unlocked })
      ≡ (internal_error, record { context = x'; lock = unlocked }))
    × (x'.state ≡ off.state)
serve-unavailable_example =
    serve-unavailable codec String tokens false moment fund off (unfold IsGuarded in tt) refl

serve-broken_example :
    serve codec String tokens false moment version (record { context = context; lock = poisoned })
    ≡ (closed, record { context = context; lock = poisoned })
unfolding is_refused unanswered
serve-broken_example =
    serve-broken codec String tokens false moment version context poisoned (λ e. cc) (λ e. cc)

active_vote_plans-last_example :
    let (response, s') =
      serve codec String tokens false moment
        (api active_vote_plans)
        (record { context = context; lock = unlocked }) in
    (response ≡ silence) × ((serve codec String tokens false moment version s').0 ≡ silence)
unfolding is_refused
active_vote_plans-last_example =
    active_vote_plans-last codec String tokens false moment moment version context (λ e. cc)
