-- ===== src/Iapyx/Proxy/Routing.antt =====
-- The paths of iapyx/src/backend/vit_station.rs, on the routes of iapyx/src/bin/iapyx-proxy.rs.
use vit_testing.Prelude.{Option, none, some, ◌≡◌, refl, true, ◌∷◌, sym, ap, ◌∙◌, ◌++◌}
use mathlib.Core.List.{append_assoc}
use vit_testing.Prelude.Text.{Text, codes, split_on}
use vit_testing.Web.{Urls, KeepsPaths, all_clean}
use vit_testing.Iapyx.VitStation.{
  path_builder, version_path, proposals_path, funds_path, proposal_path, fund_path, genesis_path,
  graphql_path, health_path,
}
use vit_testing.Iapyx.Proxy.{
  ProxyServerStub, Destination, pass_on, block0_content, http_vit_address, route_rest, route,
  route_url,
}

-- The address with the scheme in front.
abbrev pub at_http : Text → Text
at_http address = codes "http://" ++ address

-- A URL that begins with the address is routed by the path.
route_url-append :
    (urls : Urls) (s : ProxyServerStub) (address local_path : Text)
    → KeepsPaths urls (at_http address)
    → all_clean local_path ≡ true
    → route_url urls s address (codes "http://" ++ (address ++ (b'/' ∷ local_path)))
      ≡ route s (b'/' ∷ local_path)
unfolding route_url route_rest
route_url-append urls s address local_path keeps clean =
    ap (λ url. route_rest s (urls.path_at (at_http address) url))
      (sym (append_assoc (codes "http://") address (b'/' ∷ local_path)))
    ∙ ap (route_rest s) (keeps local_path clean)

-- Where reqwest asks the proxy for plain paths as they stand behind its address: the client of the
-- station, with the proxy's address in place of the station's, reaches the station for funds and
-- proposals, whatever their ids of plain characters, and is answered block 0 by the proxy; its paths for
-- the version, graphql and the health are taken by no route of the proxy.
pub route-vit_station :
    (urls : Urls) (s : ProxyServerStub) (address id : Text)
    → KeepsPaths urls (at_http address)
    → all_clean id ≡ true
    → (let b = path_builder address in
        let vit : Option Destination = some (pass_on (http_vit_address s)) in
        (route_url urls s address (funds_path b) ≡ vit)
        × (route_url urls s address (fund_path b id) ≡ vit)
        × (route_url urls s address (proposals_path b) ≡ vit)
        × (route_url urls s address (proposal_path b id) ≡ vit)
        × (route_url urls s address (genesis_path b) ≡ some (block0_content s.block0))
        × (route_url urls s address (version_path b) ≡ none)
        × (route_url urls s address (graphql_path b) ≡ none)
        × (route_url urls s address (health_path b) ≡ none))
unfolding route split_on path_builder version_path proposals_path funds_path proposal_path fund_path
    genesis_path graphql_path health_path all_clean
route-vit_station urls s address id keeps clean = (
  route_url-append urls s address (codes "api/v0/fund") keeps refl,
  route_url-append urls s address (codes "api/v0/fund/" ++ id) keeps clean,
  route_url-append urls s address (codes "api/v0/proposals") keeps refl,
  route_url-append urls s address (codes "api/v0/proposals/" ++ id) keeps clean,
  route_url-append urls s address (codes "api/v0/block0") keeps refl,
  route_url-append urls s address (codes "api/version") keeps refl,
  route_url-append urls s address (codes "api/v0/graphql") keeps refl,
  route_url-append urls s address (codes "api/v0/health") keeps refl,
)
