-- ===== src/Handler/VirtualService/Routes.antt =====
-- The routes of a virtual service: their generation and the search for one.
use elastic_env_operator.Base.{
  ℕ, String, Bool, true, false, ◌&&◌, ◌==◌, Option, none, some, List, [], ◌∷◌, ◌++◌, map, Map, nil,
  made, entries, Entries, erase, insert, has, remove, if◌then◌else◌,
}
use elastic_env_operator.Api.Types.{Subpath}
use elastic_env_operator.Entity.Keys.{x_env_flag, plane_key}
use elastic_env_operator.Entity.ConfigMap.{SqbConfigMapEntity, istio_timeout, base_flag}
use elastic_env_operator.Handler.VirtualService.Ranges.{Range}
use elastic_env_operator.Util.{get_subset_name}
use elastic_env_operator.Kinds.Istio.{
  StringMatch, prefix, exact, HttpMatchRequest, Destination, HttpRoute, TcpRoute,
}

abbrev pub keys {ℓ} : {V : Type ℓ} → Entries V → List String
keys [] = []
keys ((k, v) ∷ m) = k ∷ keys m

-- `if path != "/" { … = prefixMatch }`
abbrev pub uri_of : String → Option StringMatch
uri_of path = if path == "/" then none else some (prefix path)

-- generatePlaneHttpRoute
unfoldable pub generate_plane_http_route : SqbConfigMapEntity → String → String → String → HttpRoute
unfolding get_subset_name
generate_plane_http_route sc host plane path = record {
  matches =
      record {
        uri = uri_of path;
        headers = made ((x_env_flag, exact plane) ∷ []);
        query_params = nil;
        source_labels = nil;
      }
      ∷ record {
        uri = uri_of path;
        headers = nil;
        query_params = made ((x_env_flag, exact plane) ∷ []);
        source_labels = nil;
      }
      ∷ record {
        uri = uri_of path;
        headers = nil;
        query_params = nil;
        source_labels = made ((plane_key, plane) ∷ []);
      }
      ∷ [];
  route = record { host = host; subset = get_subset_name host plane } ∷ [];
  timeout = some (istio_timeout sc);
  set_headers = some (made ((x_env_flag, plane) ∷ []));
}

abbrev base_matches : String → List HttpMatchRequest
base_matches path =
    if path == "/"
    then []
    else record { uri = some (prefix path); headers = nil; query_params = nil; source_labels = nil }
      ∷ []

-- generateBaseHttpRoute
unfoldable pub generate_base_http_route : SqbConfigMapEntity → String → String → HttpRoute
unfolding get_subset_name
generate_base_http_route sc host path = record {
  matches = base_matches path;
  route = record { host = host; subset = get_subset_name host (base_flag sc) } ∷ [];
  timeout = some (istio_timeout sc);
  set_headers = none;
}

-- GetHostAndSubset of both kinds of routes
unfoldable pub get_host_and_subset : List Destination → String × String
get_host_and_subset [] = ("", "")
get_host_and_subset (d ∷ route) = (d.host, d.subset)

-- matchRoute
unfoldable pub match_route : List Destination → String → String → Bool
unfolding get_host_and_subset get_subset_name
match_route route host plane =
    let (rhost, subset) = get_host_and_subset route in
    rhost == host && subset == get_subset_name host plane

-- FindRoute
unfoldable pub find_http_route : List HttpRoute → String → String → Option HttpRoute
unfolding match_route
find_http_route [] host plane = none
find_http_route (r ∷ routes) host plane =
    if match_route r.route host plane then some r else find_http_route routes host plane

unfoldable pub find_tcp_route : List TcpRoute → String → String → Option TcpRoute
unfolding match_route
find_tcp_route [] host plane = none
find_tcp_route (r ∷ routes) host plane =
    if match_route r.route host plane then some r else find_tcp_route routes host plane

module _ (sc : SqbConfigMapEntity) where
  -- The planes as the two generators leave them: the base plane, if it is there, is taken out and
  -- put back.
  unfoldable pub restored_planes : Map ℕ → Map ℕ
  restored_planes nil = nil
  restored_planes (made m) =
      if has (made m) (base_flag sc)
      then made (insert (base_flag sc) 1 (erase (base_flag sc) m))
      else made m

  -- The planes that are not the base.
  abbrev pub feature_planes : Map ℕ → List String
  feature_planes planes = keys (entries (remove planes (base_flag sc)))

  -- The routes of one plane: its subpaths in their order, and the default path.
  unfoldable pub plane_routes : String → List Subpath → String → List HttpRoute
  unfolding generate_plane_http_route
  plane_routes name [] plane = generate_plane_http_route sc name plane "/" ∷ []
  plane_routes name (s ∷ subpaths) plane =
      generate_plane_http_route sc s.service_name plane s.path ∷ plane_routes name subpaths plane

  unfoldable pub planes_routes : String → List Subpath → List String → List HttpRoute
  unfolding plane_routes
  planes_routes name subpaths [] = []
  planes_routes name subpaths (plane ∷ planes) =
      plane_routes name subpaths plane ++ planes_routes name subpaths planes

  unfoldable pub base_or : String → Option HttpRoute → HttpRoute
  unfolding generate_base_http_route
  base_or name (some r) = r
  base_or name none = generate_base_http_route sc name "/"

  -- The base's default route: the one that is there already, or a new one.
  unfoldable pub base_default : String → List HttpRoute → HttpRoute
  unfolding find_http_route base_or
  base_default name routes = base_or name (find_http_route routes name (base_flag sc))

  unfoldable pub base_routes : String → List Subpath → List HttpRoute → List HttpRoute
  unfolding generate_base_http_route base_default
  base_routes name [] routes = base_default name routes ∷ []
  base_routes name (s ∷ subpaths) routes =
      generate_base_http_route sc s.service_name s.path ∷ base_routes name subpaths routes

  unfoldable pub base_part : Bool → String → List Subpath → List HttpRoute → List HttpRoute
  unfolding base_routes
  base_part true name subpaths routes = base_routes name subpaths routes
  base_part false name subpaths routes = []

  -- getOrGenerateHttpRoutes
  unfoldable pub get_or_generate_http_routes :
      Range → String → List Subpath → Map ℕ → List HttpRoute → List HttpRoute
  unfolding planes_routes base_part
  get_or_generate_http_routes range name subpaths planes routes =
      planes_routes name subpaths (range.order (feature_planes planes))
      ++ base_part (has planes (base_flag sc)) name subpaths routes

  plane_tcp_route : String → String → TcpRoute
  unfolding get_subset_name
  plane_tcp_route name plane = record {
    matches = made ((plane_key, plane) ∷ []) ∷ [];
    route = record { host = name; subset = get_subset_name name plane } ∷ [];
  }

  base_tcp_route : String → List TcpRoute → TcpRoute
  unfolding find_tcp_route get_subset_name
  base_tcp_route name routes = elim (find_tcp_route routes name (base_flag sc)) [
    | some r ↦ r
    | none ↦ record {
      matches = [];
      route = record { host = name; subset = get_subset_name name (base_flag sc) } ∷ [];
    }
  ]

  -- getOrGenerateTcpRoutes
  unfoldable pub get_or_generate_tcp_routes : Range → String → Map ℕ → List TcpRoute → List TcpRoute
  unfolding plane_tcp_route base_tcp_route
  get_or_generate_tcp_routes range name planes routes =
      map (plane_tcp_route name) (range.order (feature_planes planes))
      ++ (if has planes (base_flag sc) then base_tcp_route name routes ∷ [] else [])
