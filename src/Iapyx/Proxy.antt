-- ===== src/Iapyx/Proxy.antt =====
-- iapyx/src/backend/proxy/server.rs and client.rs, and the routes of iapyx/src/bin/iapyx-proxy.rs: the
-- proxy in front of the node and the vit servicing station.
pub mod Client
pub mod Routing
use vit_testing.Prelude.{
  ℕ, Bool, true, false, Option, none, some, List, [], ◌∷◌, ◌++◌, Result, ok, err, ◌==◌, ◌&&◌,
  if◌then◌else◌,
}
use vit_testing.Prelude.Text.{Text, codes, strip_prefix}
use vit_testing.Prelude.Text.Segments.{begins_with, is_exactly, segments_of}
use vit_testing.Web.{Urls}
use vit_testing.Mock.Run.{Run, returns, unwrap}

pub data Protocol : Type 0 where
  http : Protocol
  https : (key_path cert_path : Text) → Protocol

pub record ProxyServerStub : Type 0 where
  pub protocol : Protocol
  pub address : Text
  pub vit_address : Text
  pub node_rest_address : Text
  pub block0 : List ℕ

unfoldable pub new : Protocol → Text → Text → Text → List ℕ → ProxyServerStub
new protocol address vit_address node_rest_address block0 = record {
  protocol = protocol;
  address = address;
  vit_address = vit_address;
  node_rest_address = node_rest_address;
  block0 = block0;
}

unfoldable pub new_https : Text → Text → Text → Text → Text → List ℕ → ProxyServerStub
unfolding new
new_https key_path cert_path = new (https key_path cert_path)

unfoldable pub new_http : Text → Text → Text → List ℕ → ProxyServerStub
unfolding new
new_http = new http

-- `SocketAddr`'s parser is the standard library's.
unfoldable pub base_address :
    {Socket : Type 0} → (Text → Option Socket) → ProxyServerStub → Run Socket
base_address parse s = unwrap (parse s.address)

unfoldable pub http_vit_address : ProxyServerStub → Text
http_vit_address s = codes "http://" ++ (s.vit_address ++ codes "/")

unfoldable pub http_node_address : ProxyServerStub → Text
http_node_address s = codes "http://" ++ (s.node_rest_address ++ codes "/")

-- Where a request goes: it is passed on to an address, or answered with the block.
pub data Destination : Type 0 where
  pass_on : Text → Destination
  block0_content : List ℕ → Destination

-- A filter of the server: the path it takes and where it sends what it takes.
pub data Pattern : Type 0 where
  prefix exact : List Text → Pattern

takes : Pattern → List Text → Bool
unfolding begins_with is_exactly
takes (prefix p) segments = begins_with p segments
takes (exact p) segments = is_exactly p segments

word : Text → Text → List Text
word version w = codes "api" ∷ version ∷ w ∷ []

-- The filters in the order in which they are tried.
routes : ProxyServerStub → List (Pattern × Destination)
unfolding http_vit_address http_node_address word
routes s =
    let vit = pass_on (http_vit_address s) in
    let node = pass_on (http_node_address s) in
    let v0 = codes "v0" in
    (prefix (word v0 (codes "proposals")), vit)
    ∷ (prefix (word v0 (codes "challenges")), vit)
    ∷ (prefix (word v0 (codes "fund")), vit)
    ∷ (prefix (word v0 (codes "account")), node)
    ∷ (exact (word v0 (codes "fragment") ++ codes "logs" ∷ []), node)
    ∷ (prefix (word v0 (codes "message")), node)
    ∷ (prefix (word v0 (codes "settings")), node)
    ∷ (exact (word v0 (codes "explorer") ++ codes "graphql" ∷ []), node)
    ∷ (prefix (word v0 (codes "vote") ++ codes "active" ∷ []), node)
    ∷ (exact (word v0 (codes "block0")), block0_content s.block0)
    ∷ (prefix (word (codes "v1") (codes "fragments")), node)
    ∷ (exact (codes "api" ∷ codes "vit-version" ∷ []), vit)
    ∷ []

first_taking : List (Pattern × Destination) → List Text → Option Destination
unfolding takes
first_taking [] segments = none
first_taking ((pattern, to) ∷ rest) segments =
    if takes pattern segments then some to else first_taking rest segments

unfoldable pub route : ProxyServerStub → Text → Option Destination
unfolding routes first_taking segments_of
route s path = first_taking (routes s) (segments_of path)

route_rest : ProxyServerStub → Option Text → Option Destination
unfolding route
route_rest s none = none
route_rest s (some path) = route s path

-- A URL of the proxy, by its address.
unfoldable pub route_url : Urls → ProxyServerStub → Text → Text → Option Destination
unfolding route_rest
route_url urls s address url = route_rest s (urls.path_at (codes "http://" ++ address) url)
