-- ===== src/Handler/VirtualService/Rebuild.antt =====
-- What becomes of the HTTP routes when an application is reconciled again.
use mathlib.Core.List.{append_assoc}
use elastic_env_operator.Handler.VirtualService.Ranges.{Range, Visits-All}
use elastic_env_operator.Base.{
  All, ℕ, ◌≡◌, ◌≢◌, refl, ◌∙◌, ap, sym, String, Bool, Bool-cases, inl, inr, true, false, not, ◌&&◌,
  ◌==◌, none, some, Option-cases, List, [], ◌∷◌, ◌++◌, Map, nil, made, Entries, erase, has, arith,
  eq_iff, eq_refl,
}
use elastic_env_operator.Api.Types.{Subpath}
use elastic_env_operator.Entity.ConfigMap.{SqbConfigMapEntity, base_flag}
use elastic_env_operator.Util.{get_subset_name}
use elastic_env_operator.Util.Laws.{get_subset_name-injective}
use elastic_env_operator.Kinds.Istio.{HttpRoute}
use elastic_env_operator.Handler.VirtualService.Routes.{
  generate_plane_http_route, generate_base_http_route, plane_routes, planes_routes, base_default,
  base_part, base_or, base_routes, get_or_generate_http_routes, feature_planes, find_http_route,
  match_route, keys, get_host_and_subset,
}

-- No subpath is served by the application itself.
abbrev pub elsewhere : String → List Subpath → Bool
elsewhere name [] = true
elsewhere name (s ∷ subpaths) = not (s.service_name == name) && elsewhere name subpaths

-- A destination of another service or of another plane does not match.
match_other :
    (host plane name base : String)
    → (plane ≡ base → host ≢ name)
    → match_route (record { host = host; subset = get_subset_name host plane } ∷ []) name base
      ≡ false
unfolding match_route get_host_and_subset
match_other host plane name base h = elim (Bool-cases (host == name)) [
  | inr e ↦ rw e refl
  | inl e ↦ elim (Bool-cases (get_subset_name host plane == get_subset_name name base)) [
    | inr f ↦ rw (e, f) refl
    | inl f ↦
        let same : host ≡ name = (eq_iff host name).0 e in
        let subsets : get_subset_name host plane ≡ get_subset_name name base = (eq_iff _ _).0 f in
        absurd (
          h
            (get_subset_name-injective name plane base
              (ap (λ x. get_subset_name x plane) (sym same) ∙ subsets))
            same)
  ]
]

match_same :
    (host plane : String)
    → match_route (record { host = host; subset = get_subset_name host plane } ∷ []) host plane
      ≡ true
unfolding match_route get_host_and_subset
match_same host plane = ground (arith, eq_refl host, eq_refl (get_subset_name host plane))

find-plane_route :
    (sc : SqbConfigMapEntity) (host plane path name base : String) (rest : List HttpRoute)
    → plane ≢ base
    → find_http_route (generate_plane_http_route sc host plane path ∷ rest) name base
      ≡ find_http_route rest name base
unfolding find_http_route generate_plane_http_route
find-plane_route sc host plane path name base rest h =
    rw (match_other host plane name base (λ e. absurd (h e))) refl

find-plane_routes :
    (sc : SqbConfigMapEntity) (name : String) (subpaths : List Subpath) (plane base : String)
    (rest : List HttpRoute)
    → plane ≢ base
    → find_http_route (plane_routes sc name subpaths plane ++ rest) name base
      ≡ find_http_route rest name base
unfolding plane_routes
find-plane_routes sc name [] plane base rest h = find-plane_route sc name plane "/" name base rest h
find-plane_routes sc name (s ∷ subpaths) plane base rest h =
    find-plane_route sc s.service_name plane s.path name base
      (plane_routes sc name subpaths plane ++ rest) h
    ∙ find-plane_routes sc name subpaths plane base rest h

abbrev IsFeature : SqbConfigMapEntity → String → Type 0
IsFeature sc plane = plane ≢ base_flag sc

erased-IsFeature :
    (sc : SqbConfigMapEntity) (m : Entries ℕ) → All (IsFeature sc) (keys (erase (base_flag sc) m))
unfolding erase
erased-IsFeature sc [] = tt
erased-IsFeature sc ((k, v) ∷ m) = elim (Bool-cases (k == base_flag sc)) [
  | inl e ↦ rw e (erased-IsFeature sc m)
  | inr e ↦
      rw e (λ f. absurd (ground (arith, e, (eq_iff k (base_flag sc)).1 f)), erased-IsFeature sc m)
]

feature_planes-IsFeature :
    (sc : SqbConfigMapEntity) (planes : Map ℕ) → All (IsFeature sc) (feature_planes sc planes)
feature_planes-IsFeature sc nil = tt
feature_planes-IsFeature sc (made m) = erased-IsFeature sc m

module _ (sc : SqbConfigMapEntity) (name : String) (subpaths : List Subpath) where
  -- The routes of planes that are not the base hold no route of the base.
  find-planes_routes :
      (planes : List String) (rest : List HttpRoute)
      → All (IsFeature sc) planes
      → find_http_route (planes_routes sc name subpaths planes ++ rest) name (base_flag sc)
        ≡ find_http_route rest name (base_flag sc)
  unfolding planes_routes
  find-planes_routes [] rest h = refl
  find-planes_routes (p ∷ planes) rest h = rw append_assoc (
      find-plane_routes sc name subpaths p (base_flag sc)
        (planes_routes sc name subpaths planes ++ rest) h.0
      ∙ find-planes_routes planes rest h.1)

  find-feature_planes :
      (range : Range) (planes : Map ℕ) (rest : List HttpRoute)
      → find_http_route
          (planes_routes sc name subpaths (range.order (feature_planes sc planes)) ++ rest)
          name
          (base_flag sc)
        ≡ find_http_route rest name (base_flag sc)
  find-feature_planes range planes rest =
      find-planes_routes (range.order (feature_planes sc planes)) rest (
        Visits-All (IsFeature sc) (range.visits (feature_planes sc planes))
          (feature_planes-IsFeature sc planes))

  find_sound :
      (routes : List HttpRoute) (host plane : String) (r : HttpRoute)
      → find_http_route routes host plane ≡ some r
      → match_route r.route host plane ≡ true
  unfolding find_http_route
  find_sound [] host plane r h = absurd (cc h)
  find_sound (x ∷ routes) host plane r h = elim (Bool-cases (match_route x.route host plane)) [
    | inl e ↦
        let f : some x ≡ some r = sym (rw e refl) ∙ h in
        ap (λ o. elim o [ none ↦ true | some y ↦ match_route y.route host plane ]) (sym f) ∙ e
    | inr e ↦ find_sound routes host plane r (sym (rw e refl) ∙ h)
  ]

  pub match-base_default :
      (old : List HttpRoute)
      → match_route (base_default sc name old).route name (base_flag sc) ≡ true
  unfolding base_or base_default generate_base_http_route
  match-base_default old = elim (Option-cases (find_http_route old name (base_flag sc))) [
    | inl e ↦ rw (base_default, e, base_or) (match_same name (base_flag sc))
    | inr (r, e) ↦ rw (base_default, e, base_or) (find_sound old name (base_flag sc) r e)
  ]

  find-base_default :
      (old : List HttpRoute)
      → find_http_route (base_default sc name old ∷ []) name (base_flag sc)
        ≡ some (base_default sc name old)
  unfolding find_http_route
  find-base_default old = rw (match-base_default old) refl

  base_default_found :
      (routes : List HttpRoute) (r : HttpRoute)
      → find_http_route routes name (base_flag sc) ≡ some r
      → base_default sc name routes ≡ r
  unfolding base_default base_or
  base_default_found routes r h = rw (base_default, h) refl

  find-base_route :
      (s : Subpath) (rest : List HttpRoute)
      → (s.service_name == name) ≡ false
      → find_http_route
          (generate_base_http_route sc s.service_name s.path ∷ rest)
          name
          (base_flag sc)
        ≡ find_http_route rest name (base_flag sc)
  unfolding find_http_route generate_base_http_route
  find-base_route s rest h =
      rw
        (match_other s.service_name (base_flag sc) name (base_flag sc)
          (λ e f. absurd (ground (arith, h, (eq_iff s.service_name name).1 f))))
        refl

find-base_routes :
    (sc : SqbConfigMapEntity) (name : String) (subpaths : List Subpath) (old : List HttpRoute)
    → elsewhere name subpaths ≡ true
    → find_http_route (base_routes sc name subpaths old) name (base_flag sc)
      ≡ some (base_default sc name old)
unfolding base_routes
find-base_routes sc name [] old h = find-base_default sc name [] old
find-base_routes sc name (s ∷ subpaths) old h =
    find-base_route sc name subpaths s (base_routes sc name subpaths old) (ground (arith, h))
    ∙ find-base_routes sc name subpaths old (ground (arith, h))

base_routes-congr :
    (sc : SqbConfigMapEntity) (name : String) (subpaths : List Subpath) (old new : List HttpRoute)
    → base_default sc name old ≡ base_default sc name new
    → base_routes sc name subpaths old ≡ base_routes sc name subpaths new
unfolding base_routes
base_routes-congr sc name [] old new h = ap (λ r. r ∷ []) h
base_routes-congr sc name (s ∷ subpaths) old new h =
    ap (λ rs. generate_base_http_route sc s.service_name s.path ∷ rs)
      (base_routes-congr sc name subpaths old new h)

-- Where the base is deployed and no subpath is served by the application itself, the default route
-- of the base survives each further reconcile: the HTTP routes are those of the first one.
base_default-keeps :
    (sc : SqbConfigMapEntity) (name : String) (subpaths : List Subpath) (planes : Map ℕ)
    (range : Range) (old : List HttpRoute)
    → has planes (base_flag sc) ≡ true
    → elsewhere name subpaths ≡ true
    → base_default sc name (get_or_generate_http_routes sc range name subpaths planes old)
      ≡ base_default sc name old
unfolding get_or_generate_http_routes base_part
base_default-keeps sc name subpaths planes range old b h = rw b (
    base_default_found sc name subpaths
      (planes_routes sc name subpaths (range.order (feature_planes sc planes))
        ++ base_routes sc name subpaths old)
      (base_default sc name old)
      (find-feature_planes sc name subpaths range planes (base_routes sc name subpaths old)
        ∙ find-base_routes sc name subpaths old h))

base_part-congr :
    (sc : SqbConfigMapEntity) (b : Bool) (name : String) (subpaths : List Subpath)
    (old new : List HttpRoute)
    → (b ≡ true → base_default sc name old ≡ base_default sc name new)
    → base_part sc b name subpaths old ≡ base_part sc b name subpaths new
unfolding base_part
base_part-congr sc true name subpaths old new h =
    base_routes-congr sc name subpaths old new (h refl)
base_part-congr sc false name subpaths old new h = refl

-- Where no subpath is served by the application itself, reconciling again gives the HTTP routes
-- that reconciling in the new order of the planes would have given at once, whatever routes were
-- found first and whatever the orders of the planes are.
pub get_or_generate_http_routes_again :
    (sc : SqbConfigMapEntity) (first second : Range) (name : String) (subpaths : List Subpath)
    (planes : Map ℕ) (old : List HttpRoute)
    → elsewhere name subpaths ≡ true
    → get_or_generate_http_routes sc second name subpaths planes
        (get_or_generate_http_routes sc first name subpaths planes old)
      ≡ get_or_generate_http_routes sc second name subpaths planes old
unfolding get_or_generate_http_routes
get_or_generate_http_routes_again sc first second name subpaths planes old h =
    ap (λ rs. planes_routes sc name subpaths (second.order (feature_planes sc planes)) ++ rs)
      (base_part-congr sc (has planes (base_flag sc)) name subpaths _ old
        (λ b. base_default-keeps sc name subpaths planes first old b h))

-- Where the application itself serves the first subpath and the base is deployed, a further
-- reconcile takes the route of that subpath for the default route of the base.
pub base_default_lost :
    (sc : SqbConfigMapEntity) (s : Subpath) (subpaths : List Subpath) (planes : Map ℕ)
    (range : Range) (old : List HttpRoute)
    → has planes (base_flag sc) ≡ true
    → base_default sc s.service_name
        (get_or_generate_http_routes sc range s.service_name (s ∷ subpaths) planes old)
      ≡ generate_base_http_route sc s.service_name s.path
unfolding get_or_generate_http_routes base_part base_routes find_http_route generate_base_http_route
base_default_lost sc s subpaths planes range old b = rw b (
    base_default_found sc s.service_name (s ∷ subpaths) _
      (generate_base_http_route sc s.service_name s.path)
      (find-feature_planes sc s.service_name (s ∷ subpaths) range planes _
        ∙ rw (match_same s.service_name (base_flag sc)) refl))
