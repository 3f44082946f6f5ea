-- ===== src/Handler/VirtualService/Routing/Sending.antt =====
-- The destination of a request: the subset of a plane of the service that serves its path.
use elastic_env_operator.Base.{
  sym, ℕ, ◌≡◌, refl, ◌∙◌, ap, String, ◌<>◌, split, Bool, Bool-cases, inl, inr, true, false, Option,
  none, some, List, [], ◌∷◌, Map, has, arith, eq_iff, if◌then◌else◌,
}
use elastic_env_operator.Api.Types.{Subpath}
use elastic_env_operator.Entity.ConfigMap.{SqbConfigMapEntity, base_flag}
use elastic_env_operator.Util.{get_subset_name}
use elastic_env_operator.Kinds.Istio.{Destination, HttpRoute}
use elastic_env_operator.Handler.VirtualService.Ranges.{Range}
use elastic_env_operator.Handler.VirtualService.Routes.{
  generate_plane_http_route, generate_base_http_route, base_default, get_or_generate_http_routes,
  feature_planes, match_route, get_host_and_subset,
}
use elastic_env_operator.Handler.VirtualService.Rebuild.{match-base_default}
use elastic_env_operator.Handler.VirtualService.Routing.{
  Request, dispatch, route_takes, under, target, first_plane, by_plane, route_of, base_route,
  dispatch-http_routes,
}

-- The host and the subset of the first destination of a route.
abbrev pub first_destination : List Destination → String × String
first_destination [] = ("", "")
first_destination (d ∷ ds) = (d.host, d.subset)

abbrev pub sent_to : Option HttpRoute → Option (String × String)
sent_to none = none
sent_to (some r) = some (first_destination r.route)

-- The subset of a plane of a service.
abbrev pub subset_of : String → String → String × String
subset_of host plane = (host, (split b'.' host).0 <> ("-" <> plane))

-- The plane that serves a request: the first that it belongs to, or the base where it is deployed.
abbrev pub plane_or_base : Option String → Bool → String → Option String
plane_or_base (some plane) deployed base = some plane
plane_or_base none true base = some base
plane_or_base none false base = none

abbrev pub subset_for : Option String → String → Option (String × String)
subset_for none host = none
subset_for (some plane) host = some (subset_of host plane)

read_destination : (ds : List Destination) → get_host_and_subset ds ≡ first_destination ds
unfolding get_host_and_subset
read_destination [] = refl
read_destination (d ∷ ds) = refl

matched_destination :
    (ds : List Destination) (host plane : String)
    → match_route ds host plane ≡ true
    → first_destination ds ≡ subset_of host plane
unfolding match_route get_subset_name
matched_destination ds host plane e =
    let is_host : (get_host_and_subset ds).0 ≡ host = (eq_iff _ host).0 (ground (arith, e)) in
    let is_subset : (get_host_and_subset ds).1 ≡ get_subset_name host plane =
      (eq_iff _ (get_subset_name host plane)).0 (ground (arith, e)) in
    sym (read_destination ds) ∙ cc (is_host, is_subset)

module _ (sc : SqbConfigMapEntity) (req : Request) where
  route_of-sent :
      (plane : String) (t : String × String)
      → sent_to (some (route_of sc req plane t)) ≡ some (subset_of t.0 plane)
  unfolding route_of generate_plane_http_route get_subset_name
  route_of-sent plane (host, path) = refl

  base_default-sent :
      (name : String) (old : List HttpRoute)
      → (base_default sc name old).matches ≡ []
      → sent_to (dispatch (base_default sc name old ∷ []) req)
        ≡ some (subset_of name (base_flag sc))
  unfolding dispatch route_takes
  base_default-sent name old plain = rw plain (
      ap some (
        matched_destination (base_default sc name old).route name (base_flag sc)
          (match-base_default sc name [] old)))

  base_route-sent :
      (name : String) (subpaths : List Subpath) (old : List HttpRoute)
      → (base_default sc name old).matches ≡ []
      → sent_to (base_route sc req name subpaths old)
        ≡ some (subset_of (target name subpaths req).0 (base_flag sc))
  unfolding base_route target generate_base_http_route get_subset_name
  base_route-sent name [] old plain = base_default-sent name old plain
  base_route-sent name (s ∷ subpaths) old plain = elim (Bool-cases (under s.path req)) [
    | inl e ↦ rw e refl
    | inr e ↦ rw e (base_route-sent name subpaths old plain)
  ]

  by_plane-sent :
      (plane : Option String) (deployed : Bool) (t : String × String) (base : Option HttpRoute)
      → sent_to base ≡ some (subset_of t.0 (base_flag sc))
      → sent_to (by_plane sc req plane t (if deployed then base else none))
        ≡ subset_for (plane_or_base plane deployed (base_flag sc)) t.0
  unfolding by_plane
  by_plane-sent (some plane) deployed t base h = route_of-sent plane t
  by_plane-sent none true t base h = h
  by_plane-sent none false t base h = refl

  -- By the routes that are generated, whatever order `range` takes, a request is sent to the
  -- service of the first subpath that serves its path, or to the application: there to the subset
  -- of the first plane that it belongs to, or of the base if it belongs to none and the base is
  -- deployed, and nowhere otherwise; where the default route of the base takes every request.
  pub dispatch-sends :
      (range : Range) (name : String) (subpaths : List Subpath) (planes : Map ℕ)
      (old : List HttpRoute)
      → (base_default sc name old).matches ≡ []
      → sent_to (dispatch (get_or_generate_http_routes sc range name subpaths planes old) req)
        ≡ subset_for
            (plane_or_base
              (first_plane (range.order (feature_planes sc planes)) req)
              (has planes (base_flag sc))
              (base_flag sc))
            (target name subpaths req).0
  dispatch-sends range name subpaths planes old plain =
      ap sent_to (dispatch-http_routes sc req range name subpaths planes old)
      ∙ by_plane-sent (first_plane (range.order (feature_planes sc planes)) req)
          (has planes (base_flag sc)) (target name subpaths req)
          (base_route sc req name subpaths old) (base_route-sent name subpaths old plain)
