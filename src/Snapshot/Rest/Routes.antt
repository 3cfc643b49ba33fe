-- ===== src/Snapshot/Rest/Routes.antt =====
-- The routes of `start_rest_server` in snapshot-trigger-service/src/rest.rs, but for the static
-- directory: which handler takes a request that comes in at the address of the service.
use vit_testing.Prelude.{
  true, not, Option, none, some, List, [], ◌∷◌, ◌&&◌, if◌then◌else◌, ◌≡◌, ap, ◌∙◌, ◌++◌,
}
use vit_testing.Prelude.Text.{Text, codes, text_eq}
use vit_testing.Prelude.Text.Segments.{is_exactly, segments_of}
use vit_testing.Web.{Method, get, post, same_method, Request, Urls, KeepsPaths, all_clean}

-- `to_status` has the id in the path.
pub data Route : Type 0 where
  to_health to_files to_new : Route
  to_status : Text → Route

abbrev exactly : Method → List Text → Route → Method → List Text → Option Route
exactly m p to m' segments = if same_method m m' && is_exactly p segments then some to else none

-- A parameter of a path is not empty.
under_status : Method → List Text → Option Route
unfolding text_eq is_exactly
under_status get (p ∷ q ∷ r ∷ id ∷ end) =
    if is_exactly (codes "api" ∷ codes "job" ∷ codes "status" ∷ []) (p ∷ q ∷ r ∷ [])
      && (not (text_eq id []) && is_exactly [] end)
    then some (to_status id)
    else none
under_status m segments = none

or_else : Option Route → Option Route → Option Route
or_else none later = later
or_else (some r) later = some r

-- The routes in the order in which they are tried.
unfoldable pub route : Method → Text → Option Route
unfolding same_method is_exactly segments_of under_status or_else
route m path =
    let s = segments_of path in
    or_else (exactly get (codes "api" ∷ codes "health" ∷ []) to_health m s) (
      or_else
        (exactly get (codes "api" ∷ codes "job" ∷ codes "files" ∷ codes "list" ∷ []) to_files m s)
        (or_else (under_status m s)
          (exactly post (codes "api" ∷ codes "job" ∷ codes "new" ∷ []) to_new m s)))

routed : Method → Option Text → Option Route
unfolding route
routed m none = none
routed m (some path) = route m path

-- A URL of the service, by its address.
unfoldable pub route_url : Urls → Text → Request → Option Route
unfolding routed
route_url urls address q = routed q.method (urls.path_at address q.url)

pub route_url-append :
    (urls : Urls) (address path : Text) (q : Request)
    → KeepsPaths urls address
    → all_clean path ≡ true
    → q.url ≡ address ++ (b'/' ∷ path)
    → route_url urls address q ≡ route q.method (b'/' ∷ path)
unfolding route_url routed
route_url-append urls address path q keeps clean e =
    ap (λ u. routed q.method (urls.path_at address u)) e ∙ ap (routed q.method) (keeps path clean)

-- What is no absolute URL reaches nothing.
pub route_url-relative :
    (urls : Urls) (address : Text) (q : Request)
    → urls.path_at address q.url ≡ none
    → route_url urls address q ≡ none
unfolding route_url routed
route_url-relative urls address q e = ap (routed q.method) e
