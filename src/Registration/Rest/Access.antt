-- ===== src/Registration/Rest/Access.antt =====
-- What a client of registration-service/src/rest.rs can do to the context.
use vit_testing.Prelude.{
  String, Bool, true, false, ◌≡◌, ◌≢◌, refl, ap, sym, ◌∙◌, inl, inr, Option, none, some, Result, ok,
  err, Option-cases, arith,
}
use mathlib.Core.Path.{subst}
use vit_testing.Tokens.{Tokens}
use vit_testing.Registration.Context.{
  Platform, Request, State, Context, idle, request_to_start, running, finished, new_run,
  status_by_id, api_token,
}
use vit_testing.Registration.Context.Lifecycle.{IsFree}
use vit_testing.Registration.Rest.{
  Rejection, RestRequest, health, job_new, job_status, Response, internal_error, job_id, status,
  authorize_token, token_filter, job_new_handler, job_status_handler, serve, filtered,
  check_manager,
}

module _ (p : Platform) (tokens : Tokens) (parse_uuid : String → Option p.Uuid) where
  -- The text is a token that the manager of the set token accepts.
  abbrev pub IsAccepted : String → String → Type 0
  IsAccepted set token =
      (given : tokens.ApiToken) × (manager : tokens.ApiTokenManager) × (tokens.from_string token
        ≡ some given)
      × (tokens.manager set ≡ some manager)
      × (tokens.is_token_valid manager given ≡ true)

  check_manager-accepts :
      (set token : String) (given : tokens.ApiToken)
      → tokens.from_string token ≡ some given
      → check_manager p tokens parse_uuid given set ≡ ok tt
      → IsAccepted set token
  unfolding check_manager
  check_manager-accepts set token given g e = elim (Option-cases (tokens.manager set)) [
    | inl n ↦ absurd (ground arith)
    | inr (m, n) ↦ (given, m, g, n, ground arith)
  ]

  authorize_token-accepts :
      (set token : String) (c : Context p)
      → api_token p c ≡ some set
      → authorize_token p tokens parse_uuid token c ≡ ok tt
      → IsAccepted set token
  unfolding authorize_token
  authorize_token-accepts set token c h e = elim (Option-cases (tokens.from_string token)) [
    | inl n ↦ absurd (ground arith)
    | inr (g, n) ↦ check_manager-accepts set token g n (ground arith)
  ]

  abbrev pub header_of : RestRequest p → Option String
  header_of health = none
  header_of (job_new header _ _) = header
  header_of (job_status header _) = header

  token_filter-accepts :
      (set : String) (header : Option String) (c : Context p)
      → api_token p c ≡ some set
      → token_filter p tokens parse_uuid true header c ≡ ok tt
      → (token : String) × (header ≡ some token) × IsAccepted set token
  unfolding token_filter
  token_filter-accepts set none c h e = cc
  token_filter-accepts set (some token) c h e =
      (token, refl, authorize_token-accepts set token c h e)

  filtered-passes :
      (f : Result Rejection (Unit {0})) (out : Result Rejection (Response p) × Context p)
      (c : Context p)
      → (filtered p tokens parse_uuid f out c).0 ≢ internal_error
      → f ≡ ok tt
  unfolding filtered
  filtered-passes (ok tt) out c h = refl
  filtered-passes (err e) out c h = absurd (h refl)

  -- On a service that filters by token and has a token, a request other than the health check that
  -- gets another answer than the error 500 has a header with a token that the manager of the
  -- service's token accepts.
  pub serve-authorized :
      (set : String) (r : RestRequest p) (c : Context p)
      → api_token p c ≡ some set
      → r ≢ health
      → (serve p tokens parse_uuid true r c).0 ≢ internal_error
      → (token : String) × (header_of r ≡ some token) × IsAccepted set token
  unfolding serve
  serve-authorized set health c h n a = absurd (n refl)
  serve-authorized set (job_new header id request) c h n a =
      token_filter-accepts set header c h (filtered-passes _ _ c a)
  serve-authorized set (job_status header id) c h n a =
      token_filter-accepts set header c h (filtered-passes _ _ c a)

  filtered-context :
      (f : Result Rejection (Unit {0})) (out : Result Rejection (Response p)) (c' c : Context p)
      → c' ≡ c
      → (filtered p tokens parse_uuid f (out, c') c).1 ≡ c
  unfolding filtered
  filtered-context (ok tt) out c' c h = h
  filtered-context (err e) out c' c h = refl

  job_new_handler-busy :
      (s : State p) (id : p.Uuid) (request : Request) (c : Context p)
      → ¬ IsFree s
      → (job_new_handler p tokens parse_uuid id request (record c { state = s })).1
        ≡ record c { state = s }
  unfolding job_new_handler new_run
  job_new_handler-busy idle id request c h = absurd (h tt)
  job_new_handler-busy (finished _ _ _ _ _) id request c h = absurd (h tt)
  job_new_handler-busy (request_to_start _ _) id request c h = refl
  job_new_handler-busy (running _ _ _) id request c h = refl

  -- While a job is requested or running, no request of a client changes the context.
  pub serve-busy :
      (is_token_enabled : Bool) (r : RestRequest p) (c : Context p)
      → ¬ IsFree c.state
      → (serve p tokens parse_uuid is_token_enabled r c).1 ≡ c
  unfolding serve
  serve-busy b health c h = refl
  serve-busy b (job_new header id request) c h =
      filtered-context _ _ _ c (job_new_handler-busy c.state id request c h)
  serve-busy b (job_status header id) c h = filtered-context _ _ _ c refl

  job_new_handler-free :
      (s : State p) (id : p.Uuid) (request : Request) (c : Context p)
      → IsFree s
      → job_new_handler p tokens parse_uuid id request (record c { state = s })
        ≡ (ok (job_id id), record c { state = request_to_start id request })
  unfolding job_new_handler new_run
  job_new_handler-free idle id request c h = refl
  job_new_handler-free (finished _ _ _ _ _) id request c h = refl
  job_new_handler-free (request_to_start _ _) id request c h = absurd h
  job_new_handler-free (running _ _ _) id request c h = absurd h

  job_status_handler-requested :
      (text : String) (id : p.Uuid) (request : Request) (c : Context p)
      → parse_uuid text ≡ some id
      → job_status_handler p tokens parse_uuid text
          (record c { state = request_to_start id request })
        ≡ ok (status (ok (request_to_start id request)))
  unfolding job_status_handler status_by_id
  job_status_handler-requested text id request c h = rw h

  token_filter-state :
      (b : Bool) (header : Option String) (s : State p) (c : Context p)
      → token_filter p tokens parse_uuid b header (record c { state = s })
        ≡ token_filter p tokens parse_uuid b header c
  unfolding token_filter authorize_token api_token
  token_filter-state false header s c = refl
  token_filter-state true none s c = refl
  token_filter-state true (some token) s c = refl

  serve-job_new :
      (b : Bool) (header : Option String) (id : p.Uuid) (request : Request) (c : Context p)
      → IsFree c.state
      → token_filter p tokens parse_uuid b header c ≡ ok tt
      → serve p tokens parse_uuid b (job_new header id request) c
        ≡ (job_id id, record c { state = request_to_start id request })
  unfolding serve filtered
  serve-job_new b header id request c free pass =
      ap (λ f. filtered p tokens parse_uuid f (job_new_handler p tokens parse_uuid id request c) c)
        pass
      ∙ ap (λ o. filtered p tokens parse_uuid (ok tt) o c)
          (job_new_handler-free c.state id request c free)

  serve-job_status :
      (b : Bool) (header : Option String) (text : String) (id : p.Uuid) (request : Request)
      (c : Context p)
      → token_filter p tokens parse_uuid b header c ≡ ok tt
      → parse_uuid text ≡ some id
      → serve p tokens parse_uuid b
          (job_status header text)
          (record c { state = request_to_start id request })
        ≡ (
          status (ok (request_to_start id request)),
          record c { state = request_to_start id request },
        )
  unfolding serve filtered
  serve-job_status b header text id request c pass parse =
      let c' = record c { state = request_to_start id request } in
      ap
        (λ f.
          filtered p tokens parse_uuid f (job_status_handler p tokens parse_uuid text c', c') c')
        (token_filter-state b header (request_to_start id request) c ∙ pass)
      ∙ ap (λ o. filtered p tokens parse_uuid (ok tt) (o, c') c')
          (job_status_handler-requested text id request c parse)

  -- With no job requested or running, a client that the filter lets pass and that asks for a job
  -- gets the id of the job; asking for the status of that id it gets the request that it made.
  pub serve-new_status :
      (b : Bool) (header : Option String) (text : String) (id : p.Uuid) (request : Request)
      (c : Context p)
      → IsFree c.state
      → token_filter p tokens parse_uuid b header c ≡ ok tt
      → parse_uuid text ≡ some id
      → let (response, c') = serve p tokens parse_uuid b (job_new header id request) c in
        (response ≡ job_id id)
        × (serve p tokens parse_uuid b (job_status header text) c'
            ≡ (status (ok (request_to_start id request)), c'))
  serve-new_status b header text id request c free pass parse =
      subst
        (λ out.
          (out.0 ≡ job_id id)
          × (serve p tokens parse_uuid b (job_status header text) out.1
              ≡ (status (ok (request_to_start id request)), out.1)))
        (sym (serve-job_new b header id request c free pass))
        (refl, serve-job_status b header text id request c pass parse)
