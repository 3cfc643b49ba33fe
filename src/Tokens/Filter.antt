-- ===== src/Tokens/Filter.antt =====
-- The filter on the token that the servers of snapshot-trigger-service and of vitup's manager share, by
-- the token that is set and the header of a request.
use vit_testing.Prelude.{String, Bool, true, false, Option, none, some, ◌≡◌, refl, Result, ok, err}
use vit_testing.Tokens.{Tokens}

pub data TokenRejection : Type 0 where
  cannot_parse_token no_token_manager unauthorized_token missing_header : TokenRejection

module _ (tokens : Tokens) where
  abbrev Checked : Type 0
  Checked = Result TokenRejection (Unit {0})

  check_valid : Bool → Checked
  check_valid true = ok tt
  check_valid false = err unauthorized_token

  check_manager : tokens.ApiToken → Option tokens.ApiTokenManager → Checked
  unfolding check_valid
  check_manager given none = err no_token_manager
  check_manager given (some manager) = check_valid (tokens.is_token_valid manager given)

  check_set : Option String → tokens.ApiToken → Checked
  unfolding check_manager
  check_set none given = ok tt
  check_set (some set) given = check_manager given (tokens.manager set)

  check_given : Option String → Option tokens.ApiToken → Checked
  unfolding check_set
  check_given set none = err cannot_parse_token
  check_given set (some given) = check_set set given

  unfoldable pub authorize : Option String → String → Checked
  unfolding check_given
  authorize set token = check_given set (tokens.from_string token)

  -- The filter is there if a token was set when the server started.
  unfoldable pub token_filter : Bool → Option String → Option String → Checked
  unfolding authorize
  token_filter false set header = ok tt
  token_filter true set none = err missing_header
  token_filter true set (some token) = authorize set token

  -- The header has a token that the manager of the set token takes.
  abbrev pub IsAuthorized : String → Option String → Type 0
  IsAuthorized set header =
      (token : String) × (given : tokens.ApiToken) × (manager : tokens.ApiTokenManager) × (header
        ≡ some token)
      × (tokens.from_string token ≡ some given)
      × (tokens.manager set ≡ some manager)
      × (tokens.is_token_valid manager given ≡ true)

  check_valid-true : (b : Bool) → check_valid b ≡ ok tt → b ≡ true
  unfolding check_valid
  check_valid-true true h = refl
  check_valid-true false h = cc

  check_manager-valid :
      (given : tokens.ApiToken) (m : Option tokens.ApiTokenManager)
      → check_manager given m ≡ ok tt
      → (manager : tokens.ApiTokenManager) × (m ≡ some manager)
        × (tokens.is_token_valid manager given ≡ true)
  unfolding check_manager
  check_manager-valid given none h = cc
  check_manager-valid given (some manager) h = (manager, refl, check_valid-true _ h)

  check_given-valid :
      (set : String) (g : Option tokens.ApiToken)
      → check_given (some set) g ≡ ok tt
      → (given : tokens.ApiToken) × (manager : tokens.ApiTokenManager) × (g ≡ some given)
        × (tokens.manager set ≡ some manager)
        × (tokens.is_token_valid manager given ≡ true)
  unfolding check_given
  check_given-valid set none h = cc
  check_given-valid set (some given) h =
      let (manager, e, v) = check_manager-valid given (tokens.manager set) h in
      (given, manager, refl, e, v)

  -- With a token set at the start, what passes the filter is authorized.
  pub token_filter-IsAuthorized :
      (set : String) (header : Option String)
      → token_filter true (some set) header ≡ ok tt
      → IsAuthorized set header
  unfolding token_filter
  token_filter-IsAuthorized set none h = cc
  token_filter-IsAuthorized set (some token) h =
      let (given, manager, e, f, v) = check_given-valid set (tokens.from_string token) h in
      (token, given, manager, refl, e, f, v)
