-- ===== src/Snapshot/Rest/Access.antt =====
-- Who gets an answer of snapshot-trigger-service/src/rest.rs.
use vit_testing.Prelude.{
  String, true, ◌≡◌, ◌≢◌, ◌⊎◌, inl, inr, refl, sym, ap, ◌∙◌, Option, none, some, Result, ok, err,
}
use vit_testing.Mock.Run.{returns, returns-injective}
use vit_testing.Tokens.{Tokens}
use vit_testing.Tokens.Filter.{
  TokenRejection, IsAuthorized, token_filter, token_filter-IsAuthorized,
}
use vit_testing.Folders.{Walker}
use vit_testing.Snapshot.Context.{Platform, Context}
use vit_testing.Snapshot.Rest.{
  RestRequest, health, list_files, job_status, job_new, Response, internal_error, filtered, handle,
  header_of, behind_filter, report_invalid, serve,
}

module _ (p : Platform) (tokens : Tokens) (walker : Walker)
    (parse_uuid : String → Option p.Uuid) where
  filtered-outcome :
      (f : Result TokenRejection (Unit {0})) (c : Context p) (request : RestRequest p)
      (r : Response p) (c' : Context p)
      → filtered p tokens walker parse_uuid f c (handle p tokens walker parse_uuid request c)
        ≡ returns (r, c')
      → ((r ≡ internal_error) × (c' ≡ c)) ⊎ (f ≡ ok tt)
  unfolding filtered report_invalid
  filtered-outcome (ok _) c request r c' h = inr refl
  filtered-outcome (err e) c request r c' h =
      let i = returns-injective _ (r, c') h in inl (sym (ap (λ x. x.0) i), sym (ap (λ x. x.1) i))

-- The token that a request brings along.
abbrev pub token_of : {p : Platform} → RestRequest p → Option String
token_of health = none
token_of (list_files header) = header
token_of (job_status header _) = header
token_of (job_new header _ _) = header

module _ (p : Platform) (tokens : Tokens) (walker : Walker)
    (parse_uuid : String → Option p.Uuid) where
  behind_filter-IsAuthorized :
      (request : RestRequest p) (set : String) (c : Context p)
      → request ≢ health
      → c.config.token ≡ some set
      → behind_filter p tokens walker parse_uuid true
          (header_of p tokens walker parse_uuid request)
          c
        ≡ ok tt
      → IsAuthorized tokens set (token_of request)
  unfolding behind_filter header_of
  behind_filter-IsAuthorized health set c n t passed = absurd (n refl)
  behind_filter-IsAuthorized (list_files header) set c n t passed =
      token_filter-IsAuthorized tokens set header
        (sym (ap (λ s. token_filter tokens true s header) t) ∙ passed)
  behind_filter-IsAuthorized (job_status header _) set c n t passed =
      token_filter-IsAuthorized tokens set header
        (sym (ap (λ s. token_filter tokens true s header) t) ∙ passed)
  behind_filter-IsAuthorized (job_new header _ _) set c n t passed =
      token_filter-IsAuthorized tokens set header
        (sym (ap (λ s. token_filter tokens true s header) t) ∙ passed)

  -- On a service with a token, which filters by it, a request other than the health check that is
  -- answered at all gets the error 500 and changes nothing, or brings a token that the manager of the
  -- set token takes.
  pub serve-IsAuthorized :
      (request : RestRequest p) (set : String) (c c' : Context p) (r : Response p)
      → request ≢ health
      → c.config.token ≡ some set
      → serve p tokens walker parse_uuid true request c ≡ returns (r, c')
      → ((r ≡ internal_error) × (c' ≡ c)) ⊎ IsAuthorized tokens set (token_of request)
  unfolding serve
  serve-IsAuthorized request set c c' r n t h =
      elim (filtered-outcome p tokens walker parse_uuid _ c request r c' h) [
        | inl same ↦ inl same
        | inr passed ↦ inr (behind_filter-IsAuthorized request set c n t passed)
      ]
