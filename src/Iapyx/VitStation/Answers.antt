-- ===== src/Iapyx/VitStation/Answers.antt =====
-- What the client of iapyx/src/backend/vit_station.rs makes of the answers of the station.
use vit_testing.Prelude.{
  true, false, ◌≡◌, ◌↔◌, ◌⊎◌, inl, inr, refl, none, Result, ok, err, map_err, Bool-cases,
}
use vit_testing.Prelude.Text.{Text}
use vit_testing.Iapyx.VitStation.{
  Web, Request, RestError, server_is_not_up, request_error, VitStationRestClient, health_path,
  is_success, up_or_not, verified, get, get_and_verify_status_code, get_raw, health,
}

-- The request of a `get`.
abbrev pub get_request : VitStationRestClient → Text → Request
get_request c url = record { url = url; api_token = c.api_token; body = none }

module _ (web : Web) (c : VitStationRestClient) where
  abbrev Up : Result web.RequestError web.Response → Type 0
  Up sent =
      (response : web.Response) × (sent ≡ ok response) × (is_success (web.status response) ≡ true)

  abbrev shown : Result web.RequestError web.Response → Result (RestError web) (Unit {0})
  shown sent = up_or_not web c (verified web c (map_err request_error sent))

  shown-success : (r : web.Response) → is_success (web.status r) ≡ true → shown (ok r) ≡ ok tt
  unfolding up_or_not verified
  shown-success r e = rw e

  shown-other :
      (r : web.Response) → is_success (web.status r) ≡ false → shown (ok r) ≡ err server_is_not_up
  unfolding up_or_not verified
  shown-other r e = rw e

  shown_iff :
      (sent : Result web.RequestError web.Response)
      → ((shown sent ≡ ok tt) ↔ Up sent)
        × ((shown sent ≡ ok tt) ⊎ (shown sent ≡ err server_is_not_up))
  unfolding up_or_not verified
  shown_iff (err e) = ((λ h. cc, λ u. let (r, h, _) = u in cc), inr refl)
  shown_iff (ok r) = elim (Bool-cases (is_success (web.status r))) [
    | inl e ↦ ((λ _. (r, refl, e), λ _. shown-success r e), inl (shown-success r e))
    | inr e ↦
        ((λ h. let g = shown-other r e in cc, λ u. let (r', h, s) = u in cc), inr (shown-other r e))
  ]

-- The station is taken to be up exactly if the request for its health is answered, with a status of
-- success; otherwise the only error is that it is not.
pub health_iff :
    (web : Web) (c : VitStationRestClient)
    → ((health web c ≡ ok tt) ↔ (
        (response : web.Response) × (web.send (get_request c (health_path c.builder)) ≡ ok response)
        × (is_success (web.status response) ≡ true)))
      × ((health web c ≡ ok tt) ⊎ (health web c ≡ err server_is_not_up))
unfolding health get_and_verify_status_code get_raw get
health_iff web c = shown_iff web c (get web c (health_path c.builder))
