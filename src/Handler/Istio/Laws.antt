-- ===== src/Handler/Istio/Laws.antt =====
-- How the routes of the virtual services fit the subsets of the destination rule.
use text.Mathlib.TextLemmas.{
  append_cancel_right, append_assoc, append-ne-nil_of_right_ne-nil, cons-ne-nil, nil-append,
}
use elastic_env_operator.Handler.VirtualService.Ranges.{Range, Visits-All}
use elastic_env_operator.Entity.Keys.{plane_key}
use elastic_env_operator.Base.{
  index, ℕ, ◌≡◌, ◌≢◌, refl, ◌∙◌, ap, sym, String, ◌<>◌, Bool, Bool-cases, inl, inr, true, false,
  not, ◌||◌, ◌==◌, List, [], ◌∷◌, ◌++◌, map, Map, nil, made, entries, Entries, lookup, erase, has,
  All, arith, eq_iff, eq_refl,
}
use elastic_env_operator.Api.Types.{Subpath, SqbApplication, SqbDeployment}
use elastic_env_operator.Entity.ConfigMap.{Json, SqbConfigMapEntity, base_flag}
use elastic_env_operator.Util.{get_subset_name, contain_string}
use elastic_env_operator.Kinds.Istio.{HttpRoute, Subset, DestinationRule}
use elastic_env_operator.Handler.VirtualService.Routes.{
  generate_plane_http_route, generate_base_http_route, plane_routes, planes_routes, base_default,
  base_part, base_routes, get_or_generate_http_routes, feature_planes, match_route, keys,
  get_host_and_subset,
}
use elastic_env_operator.Handler.VirtualService.Rebuild.{match-base_default}
use elastic_env_operator.Handler.Istio.{subset_of, desired_rule, special_routes}

abbrev pub subset_names : List Subset → List String
subset_names [] = []
subset_names (s ∷ subsets) = s.name ∷ subset_names subsets

-- A route to the host of a rule names one of the rule's subsets.
abbrev pub IsServed : DestinationRule → HttpRoute → Type 0
IsServed rule r =
    let (host, subset) = get_host_and_subset r.route in
    (not (host == rule.host) || contain_string (subset_names rule.subsets) subset) ≡ true

-- The planes of which a rule has the subset.
subset_listed :
    (name plane : String) (planes : List String)
    → contain_string planes plane ≡ true
    → contain_string (subset_names (map (subset_of name) planes)) (get_subset_name name plane)
      ≡ true
unfolding contain_string subset_of
subset_listed name plane [] h = absurd (cc h)
subset_listed name plane (p ∷ planes) h = elim (Bool-cases (p == plane)) [
  | inl e ↦ ground (
    arith,
    (eq_iff (get_subset_name name p) (get_subset_name name plane)).1
        (ap (get_subset_name name) ((eq_iff p plane).0 e)),
  )
  | inr e ↦ ground (arith, subset_listed name plane planes (ground arith))
]

-- What the first destination of a route is enough for.
served :
    (json : Json) (app : SqbApplication) (rule : DestinationRule) (host plane : String)
    → contain_string (keys (entries app.status.planes)) plane ≡ true
    → (not (host == (desired_rule json app rule).host)
        || contain_string
            (subset_names (desired_rule json app rule).subsets)
            (get_subset_name host plane))
      ≡ true
unfolding desired_rule
served json app rule host plane h = elim (Bool-cases (host == app.name)) [
  | inl e ↦
      let f : host ≡ app.name = (eq_iff host app.name).0 e in
      ground (
        arith,
        ap
            (λ x.
              contain_string
                (subset_names (map (subset_of app.name) (keys (entries app.status.planes))))
                (get_subset_name x plane))
            f,
        subset_listed app.name plane (keys (entries app.status.planes)) h,
      )
  | inr e ↦ ground arith
]

All-append : {A : Type 0} (P : A → Type 0) (xs ys : List A) → All P xs → All P ys → All P (xs ++ ys)
All-append P [] ys h k = k
All-append P (x ∷ xs) ys h k = (h.0, All-append P xs ys h.1 k)

listed : (m : Entries ℕ) (k : String) → has (made m) k ≡ true → contain_string (keys m) k ≡ true
unfolding lookup contain_string
listed [] k h = absurd (cc h)
listed ((name, value) ∷ rest) k h = elim (Bool-cases (name == k)) [
  | inl e ↦ ground arith
  | inr e ↦ ground (arith, listed rest k (sym (rw (has, e) refl) ∙ h))
]

has-listed :
    (planes : Map ℕ) (k : String)
    → has planes k ≡ true
    → contain_string (keys (entries planes)) k ≡ true
unfolding lookup
has-listed nil k h = absurd (cc h)
has-listed (made m) k h = listed m k h

abbrev IsListed : List String → String → Type 0
IsListed names p = contain_string names p ≡ true

erased-IsListed :
    (m : Entries ℕ) (b : String) (names : List String)
    → ((p : String) → IsListed (keys m) p → IsListed names p)
    → All (IsListed names) (keys (erase b m))
unfolding erase contain_string
erased-IsListed [] b names h = tt
erased-IsListed ((k, v) ∷ m) b names h =
    let rest = erased-IsListed m b names (λ p l. h p (ground (arith, l))) in
    elim (Bool-cases (k == b)) [
      | inl e ↦ rw e rest
      | inr e ↦ rw e (h k (ground (arith, eq_refl k)), rest)
    ]

feature_planes-IsListed :
    (sc : SqbConfigMapEntity) (planes : Map ℕ)
    → All (IsListed (keys (entries planes))) (feature_planes sc planes)
feature_planes-IsListed sc nil = tt
feature_planes-IsListed sc (made m) = erased-IsListed m (base_flag sc) (keys m) (λ p l. l)

module _ (sc : SqbConfigMapEntity) (json : Json) (app : SqbApplication)
    (rule : DestinationRule) where
  abbrev app_planes : List String
  app_planes = keys (entries app.status.planes)

  abbrev IsServedRoute : HttpRoute → Type 0
  IsServedRoute = IsServed (desired_rule json app rule)

  plane_routes_served :
      (name plane : String) (subpaths : List Subpath)
      → IsListed app_planes plane
      → All IsServedRoute (plane_routes sc name subpaths plane)
  unfolding plane_routes generate_plane_http_route get_host_and_subset
  plane_routes_served name plane [] h = (served json app rule name plane h, tt)
  plane_routes_served name plane (s ∷ subpaths) h =
      (served json app rule s.service_name plane h, plane_routes_served name plane subpaths h)

  planes_routes_served :
      (name : String) (subpaths : List Subpath) (planes : List String)
      → All (IsListed app_planes) planes
      → All IsServedRoute (planes_routes sc name subpaths planes)
  unfolding planes_routes
  planes_routes_served name subpaths [] h = tt
  planes_routes_served name subpaths (p ∷ planes) h =
      All-append IsServedRoute (plane_routes sc name subpaths p)
        (planes_routes sc name subpaths planes) (plane_routes_served name p subpaths h.0)
        (planes_routes_served name subpaths planes h.1)

  matched_served :
      (r : HttpRoute) (name plane : String)
      → IsListed app_planes plane
      → match_route r.route name plane ≡ true
      → IsServedRoute r
  unfolding match_route
  matched_served r name plane h e =
      let host : (get_host_and_subset r.route).0 ≡ name = (eq_iff _ name).0 (ground (arith, e)) in
      let subset : (get_host_and_subset r.route).1 ≡ get_subset_name name plane =
        (eq_iff _ (get_subset_name name plane)).0 (ground (arith, e)) in
      rw (host, subset) (served json app rule name plane h)

  base_routes_served :
      (name : String) (subpaths : List Subpath) (old : List HttpRoute)
      → IsListed app_planes (base_flag sc)
      → All IsServedRoute (base_routes sc name subpaths old)
  unfolding base_routes generate_base_http_route get_host_and_subset
  base_routes_served name [] old h = (
    matched_served (base_default sc name old) name (base_flag sc) h
        (match-base_default sc name [] old),
    tt,
  )
  base_routes_served name (s ∷ subpaths) old h =
      (served json app rule s.service_name (base_flag sc) h, base_routes_served name subpaths old h)

  base_part_served :
      (b : Bool) (name : String) (subpaths : List Subpath) (old : List HttpRoute)
      → (b ≡ true → IsListed app_planes (base_flag sc))
      → All IsServedRoute (base_part sc b name subpaths old)
  unfolding base_part
  base_part_served true name subpaths old h = base_routes_served name subpaths old (h refl)
  base_part_served false name subpaths old h = tt

  -- Every HTTP route of an application's virtual service that leads to the application names a
  -- subset of the application's destination rule, whatever routes and rule were found.
  pub http_routes-IsServed :
      (range : Range) (old : List HttpRoute)
      → All
          (IsServed (desired_rule json app rule))
          (get_or_generate_http_routes sc range app.name app.spec.subpaths app.status.planes old)
  unfolding get_or_generate_http_routes
  http_routes-IsServed range old =
      All-append IsServedRoute
        (planes_routes sc app.name app.spec.subpaths
          (range.order (feature_planes sc app.status.planes)))
        _
        (planes_routes_served app.name app.spec.subpaths
          (range.order (feature_planes sc app.status.planes))
          (Visits-All (IsListed app_planes) (range.visits (feature_planes sc app.status.planes))
            (feature_planes-IsListed sc app.status.planes)))
        (base_part_served (has app.status.planes (base_flag sc)) app.name app.spec.subpaths old
          (has-listed app.status.planes (base_flag sc)))

longer : (service plane : String) → plane ≢ service <> ("-" <> plane)
longer service plane e = append-ne-nil_of_right_ne-nil service (cons-ne-nil _ _) (
    sym (
      append_cancel_right "" (service <> "-") plane
        (nil-append plane ∙ e ∙ sym (append_assoc service "-" plane))))

-- Every route of a special virtual service names a subset that is not the one of its plane in the
-- destination rule of the host that it leads to.
pub special_routes_unserved :
    (sc : SqbConfigMapEntity) (d : SqbDeployment) (subpaths : List Subpath)
    → All
        (λ r.
          (get_host_and_subset r.route).1
          ≢ (subset_of (get_host_and_subset r.route).0 (index d.labels plane_key)).name)
        (special_routes sc d subpaths)
unfolding special_routes get_host_and_subset subset_of
special_routes_unserved sc d [] = (longer _ (index d.labels plane_key), tt)
special_routes_unserved sc d (s ∷ subpaths) =
    (longer _ (index d.labels plane_key), special_routes_unserved sc d subpaths)
