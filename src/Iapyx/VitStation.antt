-- ===== src/Iapyx/VitStation.antt =====
-- iapyx/src/backend/vit_station.rs: the client of the vit servicing station.
pub mod Answers
use vit_testing.Prelude.{
  ℕ, Bool, true, false, not, Option, none, some, List, [], ◌∷◌, ◌++◌, Result, ok, err, map_err, leb,
  ◌&&◌, if◌then◌else◌,
}
use vit_testing.Prelude.Text.{Text, codes}
use vit_testing.Web.{◌|>◌}

pub record RestPathBuilder : Type 0 where
  pub address : Text
  pub root : Text

unfoldable pub path_builder : Text → RestPathBuilder
path_builder address = record { root = codes "/api/v0/"; address = address }

module _ (b : RestPathBuilder) where
  -- `http://{address}{root}{path}`
  unfoldable pub path : Text → Text
  path p = codes "http://" ++ (b.address ++ (b.root ++ p))

  unfoldable pub version_path : Text
  version_path = codes "http://" ++ (b.address ++ codes "/api/version")

  unfoldable pub proposals_path : Text
  unfolding path
  proposals_path = path (codes "proposals")

  unfoldable pub funds_path : Text
  unfolding path
  funds_path = path (codes "fund")

  unfoldable pub proposal_path : Text → Text
  unfolding path
  proposal_path id = path (codes "proposals/" ++ id)

  unfoldable pub fund_path : Text → Text
  unfolding path
  fund_path id = path (codes "fund/" ++ id)

  unfoldable pub genesis_path : Text
  unfolding path
  genesis_path = path (codes "block0")

  unfoldable pub graphql_path : Text
  unfolding path
  graphql_path = path (codes "graphql")

  unfoldable pub health_path : Text
  unfolding path
  health_path = path (codes "health")

-- A request to the station: where to, with which token, and what is posted, if it is not a `get`.
pub record Request : Type 0 where
  pub url : Text
  pub api_token : Option Text
  pub body : Option Text

-- The crates reqwest and serde_json: what a request is answered, and what texts are read as.
pub record Web : Type 1 where
  pub Response : Type 0
  pub RequestError : Type 0
  pub SerdeError : Type 0
  pub Fund : Type 0
  pub Proposal : Type 0
  pub ServiceVersion : Type 0
  pub Value : Type 0
  pub send : Request → Result RequestError Response
  pub status : Response → ℕ
  pub text : Response → Result RequestError Text
  pub bytes : Response → Result RequestError (List ℕ)
  pub read_fund : Text → Result SerdeError Fund
  pub read_proposal : Text → Result SerdeError Proposal
  pub read_proposals : Text → Result SerdeError (List Proposal)
  pub read_version : Text → Result SerdeError ServiceVersion
  pub read_value : Text → Result SerdeError Value

pub data RestError (web : Web) : Type 0 where
  cannot_deserialize_response : web.SerdeError → Text → RestError web
  cannot_deserialize : web.SerdeError → RestError web
  request_error : web.RequestError → RestError web
  server_is_not_up : RestError web
  error_status_code : ℕ → RestError web

pub record VitStationRestClient : Type 0 where
  pub builder : RestPathBuilder
  pub api_token : Option Text
  pub logs : Bool

unfoldable pub new : Text → VitStationRestClient
unfolding path_builder
new address = record { api_token = none; builder = path_builder address; logs = false }

unfoldable pub disable_logs : VitStationRestClient → VitStationRestClient
disable_logs c = record c { logs = false }

unfoldable pub enable_logs : VitStationRestClient → VitStationRestClient
enable_logs c = record c { logs = true }

unfoldable pub set_api_token : Text → VitStationRestClient → VitStationRestClient
set_api_token token c = record c { api_token = some token }

-- `StatusCode::is_success`
unfoldable pub is_success : ℕ → Bool
is_success status = leb 200 status && leb status 299

module _ (web : Web) (c : VitStationRestClient) where
  open web use {Response, Fund, Proposal, ServiceVersion, Value}

  abbrev Rest : Type 0 → Type 0
  Rest = Result (RestError web)

  get : Text → Result web.RequestError Response
  get url = web.send (record { url = url; api_token = c.api_token; body = none })

  -- `get` with its error wrapped.
  unfoldable pub get_raw : Text → Rest Response
  unfolding get
  get_raw url = map_err request_error (get url)

  verify_status_code : Response → Rest (Unit {0})
  unfolding is_success
  verify_status_code response =
      if not (is_success (web.status response))
      then err (error_status_code (web.status response))
      else ok tt

  -- An answer, if its status is one of success.
  verified : Rest Response → Rest Response
  unfolding ◌|>◌ verify_status_code
  verified answer = answer |> λ response. verify_status_code response |> λ _. ok response

  unfoldable pub get_and_verify_status_code : Text → Rest Response
  unfolding get_raw verified
  get_and_verify_status_code url = verified (get_raw url)

  text_of : Response → Rest Text
  text_of response = map_err request_error (web.text response)

  up_or_not : Rest Response → Rest (Unit {0})
  up_or_not (ok _) = ok tt
  up_or_not (err _) = err server_is_not_up

  unfoldable pub health : Rest (Unit {0})
  unfolding get_and_verify_status_code health_path up_or_not
  health = up_or_not (get_and_verify_status_code (health_path c.builder))

  unfoldable pub health_raw : Rest Response
  unfolding get_raw health_path
  health_raw = get_raw (health_path c.builder)

  unfoldable pub funds : Rest Fund
  unfolding ◌|>◌ get_and_verify_status_code text_of funds_path
  funds = get_and_verify_status_code (funds_path c.builder) |> λ response.
      text_of response |> λ content.
      map_err (λ e. cannot_deserialize_response e content) (web.read_fund content)

  unfoldable pub funds_raw : Rest Response
  unfolding get_raw funds_path
  funds_raw = get_raw (funds_path c.builder)

  -- An empty content is an empty list.
  proposals_in : Text → Rest (List Proposal)
  proposals_in [] = ok []
  proposals_in (x ∷ content) =
      map_err (λ e. cannot_deserialize_response e (x ∷ content)) (web.read_proposals (x ∷ content))

  unfoldable pub proposals : Rest (List Proposal)
  unfolding ◌|>◌ get_and_verify_status_code text_of proposals_in proposals_path
  proposals = get_and_verify_status_code (proposals_path c.builder) |> λ response.
      text_of response |> proposals_in

  unfoldable pub proposals_raw : Rest Response
  unfolding get_raw proposals_path
  proposals_raw = get_raw (proposals_path c.builder)

  unfoldable pub proposal_raw : Text → Rest Response
  unfolding get_raw proposal_path
  proposal_raw id = get_raw (proposal_path c.builder id)

  unfoldable pub proposal : Text → Rest Proposal
  unfolding ◌|>◌ proposal_raw verify_status_code text_of
  proposal id = proposal_raw id |> λ response. verify_status_code response |> λ _.
      text_of response |> λ content. map_err cannot_deserialize (web.read_proposal content)

  unfoldable pub fund_raw : Text → Rest Response
  unfolding get_raw fund_path
  fund_raw id = get_raw (fund_path c.builder id)

  unfoldable pub fund : Text → Rest Fund
  unfolding ◌|>◌ fund_raw verify_status_code text_of
  fund id = fund_raw id |> λ response. verify_status_code response |> λ _.
      text_of response |> λ content. map_err cannot_deserialize (web.read_fund content)

  unfoldable pub genesis_raw : Rest Response
  unfolding get_raw genesis_path
  genesis_raw = get_raw (genesis_path c.builder)

  unfoldable pub genesis : Rest (List ℕ)
  unfolding ◌|>◌ genesis_raw
  genesis = genesis_raw |> λ response. map_err request_error (web.bytes response)

  unfoldable pub version_raw : Rest Response
  unfolding get_raw version_path
  version_raw = get_raw (version_path c.builder)

  unfoldable pub version : Rest ServiceVersion
  unfolding ◌|>◌ version_raw text_of
  version = version_raw |> λ response.
      text_of response |> λ content. map_err cannot_deserialize (web.read_version content)

  unfoldable pub post : Text → Text → Rest Value
  unfolding ◌|>◌ text_of
  post url data_ =
      map_err request_error
        (web.send (record { url = url; api_token = c.api_token; body = some data_ }))
      |> λ response.
          text_of response |> λ content. map_err cannot_deserialize (web.read_value content)
