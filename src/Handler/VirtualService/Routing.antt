-- ===== src/Handler/VirtualService/Routing.antt =====
-- Where Istio sends a request by the routes of a virtual service: to the first route one of whose
-- matches it meets, or that has no match.
pub mod Sending
use elastic_env_operator.Base.{
  ℕ, ◌≡◌, refl, ◌∙◌, ap, String, Bool, true, false, ◌&&◌, ◌||◌, ◌==◌, Option, none, some, List, [],
  ◌∷◌, ◌++◌, Map, entries, Entries, has, arith, if◌then◌else◌,
}
use mathlib.Core.List.{append_assoc}
use text.Mathlib.Text.{starts_with}
use elastic_env_operator.Api.Types.{Subpath}
use elastic_env_operator.Entity.Keys.{x_env_flag, plane_key}
use elastic_env_operator.Entity.ConfigMap.{SqbConfigMapEntity, base_flag}
use elastic_env_operator.Handler.VirtualService.Ranges.{Range}
use elastic_env_operator.Kinds.Istio.{StringMatch, prefix, exact, HttpMatchRequest, HttpRoute}
use elastic_env_operator.Handler.VirtualService.Routes.{
  generate_plane_http_route, generate_base_http_route, plane_routes, planes_routes, base_default,
  base_part, base_routes, get_or_generate_http_routes, feature_planes,
}

pub record Request : Type 0 where
  pub path : String
  pub header : String → Option String
  pub query_param : String → Option String
  pub source_label : String → Option String

text_meets : StringMatch → String → Bool
text_meets (prefix p) s = starts_with s p
text_meets (exact e) s = s == e

uri_meets : Option StringMatch → String → Bool
unfolding text_meets
uri_meets none path = true
uri_meets (some m) path = text_meets m path

value_meets : StringMatch → Option String → Bool
unfolding text_meets
value_meets m none = false
value_meets m (some s) = text_meets m s

all_meet : Entries StringMatch → (String → Option String) → Bool
unfolding value_meets
all_meet [] values = true
all_meet ((k, m) ∷ rest) values = value_meets m (values k) && all_meet rest values

labels_meet : Entries String → (String → Option String) → Bool
unfolding value_meets
labels_meet [] values = true
labels_meet ((k, v) ∷ rest) values = value_meets (exact v) (values k) && labels_meet rest values

meets : HttpMatchRequest → Request → Bool
unfolding uri_meets all_meet labels_meet
meets m req =
    uri_meets m.uri req.path
    && all_meet (entries m.headers) req.header
    && all_meet (entries m.query_params) req.query_param
    && labels_meet (entries m.source_labels) req.source_label

meets_one : List HttpMatchRequest → Request → Bool
unfolding meets
meets_one [] req = false
meets_one (m ∷ ms) req = meets m req || meets_one ms req

route_takes : List HttpMatchRequest → Request → Bool
unfolding meets_one
route_takes [] req = true
route_takes (m ∷ ms) req = meets_one (m ∷ ms) req

pub dispatch : List HttpRoute → Request → Option HttpRoute
unfolding route_takes
dispatch [] req = none
dispatch (r ∷ routes) req = if route_takes r.matches req then some r else dispatch routes req

-- A request belongs to a plane by its header, its query or the pod that sends it.
carries : Option String → String → Bool
carries none plane = false
carries (some s) plane = s == plane

pub belongs_to : Request → String → Bool
unfolding carries
belongs_to req plane =
    carries (req.header x_env_flag) plane
    || carries (req.query_param x_env_flag) plane
    || carries (req.source_label plane_key) plane

-- A path serves a request if it is a prefix of the request's path; "/" serves every request.
pub under : String → Request → Bool
under path req = path == "/" || starts_with req.path path

-- The service and the path that serve a request: the first subpath that does, or the application.
pub target : String → List Subpath → Request → String × String
unfolding under
target name [] req = (name, "/")
target name (s ∷ subpaths) req =
    if under s.path req then (s.service_name, s.path) else target name subpaths req

-- The first of the planes that a request belongs to.
pub first_plane : List String → Request → Option String
unfolding belongs_to
first_plane [] req = none
first_plane (p ∷ planes) req = if belongs_to req p then some p else first_plane planes req

module _ (sc : SqbConfigMapEntity) (req : Request) where
  -- The route of a plane to a service under a path.
  pub route_of : String → String × String → HttpRoute
  unfolding generate_plane_http_route
  route_of plane (host, path) = generate_plane_http_route sc host plane path

  -- What is sent by a plane, if there is one, and what is sent otherwise.
  pub by_plane : Option String → String × String → Option HttpRoute → Option HttpRoute
  by_plane none t other = other
  by_plane (some plane) t other = some (route_of plane t)

  takes-plane_route :
      (host plane path : String)
      → route_takes (generate_plane_http_route sc host plane path).matches req
        ≡ (belongs_to req plane && under path req)
  unfolding route_takes generate_plane_http_route belongs_to under
  takes-plane_route host plane path = ground arith

  dispatch-plane_routes :
      (name : String) (subpaths : List Subpath) (plane : String) (rest : List HttpRoute)
      → dispatch (plane_routes sc name subpaths plane ++ rest) req ≡ (
          if belongs_to req plane
          then some (route_of plane (target name subpaths req))
          else dispatch rest req)
  unfolding dispatch plane_routes target under route_of
  dispatch-plane_routes name [] plane rest = ground (arith, takes-plane_route name plane "/")
  dispatch-plane_routes name (s ∷ subpaths) plane rest = ground (
    arith,
    takes-plane_route s.service_name plane s.path,
    dispatch-plane_routes name subpaths plane rest,
  )

  dispatch-planes_routes :
      (name : String) (subpaths : List Subpath) (planes : List String) (rest : List HttpRoute)
      → dispatch (planes_routes sc name subpaths planes ++ rest) req
        ≡ by_plane (first_plane planes req) (target name subpaths req) (dispatch rest req)
  unfolding planes_routes first_plane by_plane
  dispatch-planes_routes name subpaths [] rest = refl
  dispatch-planes_routes name subpaths (p ∷ planes) rest = rw append_assoc (
      ground (
        arith,
        dispatch-plane_routes name subpaths p (planes_routes sc name subpaths planes ++ rest),
        dispatch-planes_routes name subpaths planes rest,
      ))

  takes-base_route :
      (host path : String)
      → route_takes (generate_base_http_route sc host path).matches req ≡ under path req
  unfolding route_takes generate_base_http_route under
  takes-base_route host path = ground arith

  -- The base's route for a request: the first subpath that serves it, or the default route, if that
  -- takes the request.
  pub base_route : String → List Subpath → List HttpRoute → Option HttpRoute
  unfolding under
  base_route name [] old = dispatch (base_default sc name old ∷ []) req
  base_route name (s ∷ subpaths) old =
      if under s.path req
      then some (generate_base_http_route sc s.service_name s.path)
      else base_route name subpaths old

  dispatch-base_routes :
      (name : String) (subpaths : List Subpath) (old : List HttpRoute)
      → dispatch (base_routes sc name subpaths old) req ≡ base_route name subpaths old
  unfolding base_routes base_route dispatch
  dispatch-base_routes name [] old = refl
  dispatch-base_routes name (s ∷ subpaths) old =
      ground (arith, takes-base_route s.service_name s.path, dispatch-base_routes name subpaths old)

  dispatch-base_part :
      (name : String) (subpaths : List Subpath) (planes : Map ℕ) (old : List HttpRoute)
      → dispatch (base_part sc (has planes (base_flag sc)) name subpaths old) req
        ≡ (if has planes (base_flag sc) then base_route name subpaths old else none)
  unfolding dispatch base_part
  dispatch-base_part name subpaths planes old =
      ground (arith, dispatch-base_routes name subpaths old)

  -- A request is sent by the first plane that it belongs to, to the first subpath that serves it or
  -- to the application; one that belongs to no plane but the base goes by the routes of the base
  -- where the base is deployed, and nowhere otherwise.
  pub dispatch-http_routes :
      (range : Range) (name : String) (subpaths : List Subpath) (planes : Map ℕ)
      (old : List HttpRoute)
      → dispatch (get_or_generate_http_routes sc range name subpaths planes old) req
        ≡ by_plane
            (first_plane (range.order (feature_planes sc planes)) req)
            (target name subpaths req)
            (if has planes (base_flag sc) then base_route name subpaths old else none)
  unfolding get_or_generate_http_routes
  dispatch-http_routes range name subpaths planes old =
      dispatch-planes_routes name subpaths (range.order (feature_planes sc planes)) _
      ∙ ap
          (by_plane (first_plane (range.order (feature_planes sc planes)) req)
            (target name subpaths req))
          (dispatch-base_part name subpaths planes old)
