-- ===== src/Handler/Service/Laws.antt =====
-- What the service of an application keeps and what it takes from the application.
use elastic_env_operator.Base.{
  String, ◌≡◌, refl, ◌∙◌, none, some, made, get?, first_of_two, lookup, get?-remove, ◌==◌, arith,
  if◌then◌else◌, [], ◌∷◌,
}
use elastic_env_operator.Api.Types.{SqbApplication}
use elastic_env_operator.Entity.Keys.{app_key, plane_key}
use elastic_env_operator.Entity.ConfigMap.{Json}
use elastic_env_operator.Util.{merge_string_map}
use elastic_env_operator.Util.Laws.{get-merge_string_map}
use elastic_env_operator.Kinds.Core.{Service}
use elastic_env_operator.Handler.Service.{desired}

-- The selector of a service that is there stays, but for the plane's label, which goes; the
-- application's label is added where the selector has none.
pub selector-desired :
    (json : Json) (app : SqbApplication) (s : Service) (k : String)
    → get? (desired json app s).selector k ≡ (
        if plane_key == k
        then none
        else first_of_two (get? s.selector k) (if app_key == k then some app.name else none))
unfolding desired lookup
selector-desired json app s k =
    get?-remove (merge_string_map (made ((app_key, app.name) ∷ [])) s.selector) plane_key k
    ∙ ground (arith, get-merge_string_map (made ((app_key, app.name) ∷ [])) s.selector k)

-- Reconciling the service of an application once more changes no port, no annotation, and the value
-- of no label and no key of the selector.
pub desired_idem :
    (json : Json) (app : SqbApplication) (s : Service) (k : String)
    → let once = desired json app s in
      let twice = desired json app once in
      (twice.ports ≡ once.ports)
      × (twice.metadata.annotations ≡ once.metadata.annotations)
      × (get? twice.metadata.labels k ≡ get? once.metadata.labels k)
      × (get? twice.selector k ≡ get? once.selector k)
unfolding desired
desired_idem json app s k = (
  refl,
  refl,
  ground (
    arith,
    get-merge_string_map (merge_string_map s.metadata.labels app.labels) app.labels k,
    get-merge_string_map s.metadata.labels app.labels k,
  ),
  ground (arith, selector-desired json app s k, selector-desired json app (desired json app s) k),
)
