-- ===== src/Handler/Selection.antt =====
-- How the selectors that the handlers write fit the labels that they write.
use elastic_env_operator.Base.{
  text_or_empty, ◌≡◌, refl, sym, ap, ◌∙◌, ◌↔◌, ◌⊎◌, inl, inr, String, ◌==◌, Bool, true, false,
  Option, none, some, List, Map, nil, made, get?, index, has, lookup, remove, get?-remove,
  first_of_two, arith, eq_iff, ok, if◌then◌else◌, Option-cases,
}
use elastic_env_operator.Api.Types.{SqbApplication, SqbDeployment}
use elastic_env_operator.Entity.Keys.{app_key, plane_key, group_key}
use elastic_env_operator.Entity.ConfigMap.{Json}
use elastic_env_operator.Util.Laws.{get-merge_string_map}
use elastic_env_operator.Kinds.Core.{Service, new_service}
use elastic_env_operator.Kinds.Workload.{Deployment}
use elastic_env_operator.Kinds.Monitoring.{VmEndpoint, VmServiceScrape}
use elastic_env_operator.Operator.{Operator}
use elastic_env_operator.Handler.Service
use elastic_env_operator.Handler.Service.Laws.{selector-desired}
use elastic_env_operator.Handler.Monitoring.{aimed, completed, app_and_group}
use elastic_env_operator.Handler.Deployment.Template.{desired}
use elastic_env_operator.Handler.Deployment.{additional_spec}
use elastic_env_operator.Handler.Deployment.Written.{KeepsUnset, SetsNoLabels, written-pods_match}

-- An object with the labels is selected.
abbrev pub IsSelectorOf : Map String → Map String → Type 0
IsSelectorOf selector labels = (k v : String) → get? selector k ≡ some v → get? labels k ≡ some v

-- The selector asks for the application, and for its plane at most.
abbrev pub AsksFor : Map String → String → Type 0
AsksFor selector app_name =
    (k v : String) → get? selector k ≡ some v → (k ≡ plane_key) ⊎ ((k ≡ app_key) × (v ≡ app_name))

picked :
    (is_plane is_app : Bool) (found : Option String) (name v : String)
    → (if is_plane then none else first_of_two found (if is_app then some name else none)) ≡ some v
    → (is_plane ≡ false) × ((found ≡ some v) ⊎ ((is_app ≡ true) × (v ≡ name)))
picked true is_app found name v e = absurd (cc e)
picked false is_app (some u) name v e = (refl, inl e)
picked false true none name v e = (refl, inr (refl, cc e))
picked false false none name v e = absurd (cc e)

asked :
    (json : Json) (app : SqbApplication) (s : Service) (k v : String)
    → AsksFor s.selector app.name
    → get? (Service.desired json app s).selector k ≡ some v
    → (k ≡ app_key) × (v ≡ app.name)
asked json app s k v asks e =
    let (not_plane, why) =
      picked (plane_key == k) (app_key == k) (get? s.selector k) app.name v
        (sym (selector-desired json app s k) ∙ e) in
    elim why [
      | inl found ↦ elim (asks k v found) [
        | inl plane ↦ absurd (cc (not_plane, (eq_iff plane_key k).1 (sym plane)))
        | inr named ↦ named
      ]
      | inr (is_app, same) ↦ (sym ((eq_iff app_key k).0 is_app), same)
    ]

-- The service that is written for an application selects the pods of the deployment that is
-- written, in every plane, where the selector of the service that was found asks for the
-- application and its plane at most and the selector of the deployment has the label of the
-- application, the additional specification of the configuration sets no selector and no labels of
-- the pods, and mergo leaves what the specification that it merges in does not set.
pub service_selects_pods :
    (op : Operator) (json : Json) (app : SqbApplication) (d : SqbDeployment) (s : Service)
    (dep made_dep written : Deployment) (selector : Map String)
    → KeepsUnset op
    → SetsNoLabels op
    → AsksFor s.selector app.name
    → desired op app d dep ≡ ok made_dep
    → additional_spec op made_dep ≡ ok written
    → written.spec.selector ≡ some selector
    → get? selector app_key ≡ some app.name
    → IsSelectorOf (Service.desired json app s).selector written.spec.template.labels
service_selects_pods op json app d s dep made_dep written selector keeps plain asks made_from
      written_from has_selector names k v e =
    let (is_app, same) = asked json app s k v asks e in
    ap (get? written.spec.template.labels) is_app
    ∙ (written-pods_match op keeps plain app d dep made_dep written selector app_key app.name
          made_from written_from has_selector (λ h. cc h) names
        ∙ ap some (sym same))

-- The scrape of an application, with some endpoints.
abbrev pub scrape_of : SqbApplication → List VmEndpoint → VmServiceScrape → VmServiceScrape
scrape_of app endpoints vm =
    completed app endpoints (aimed (remove (made (app_and_group app)) plane_key) app.namespace vm)

match_labels-scrape_of :
    (app : SqbApplication) (endpoints : List VmEndpoint) (vm : VmServiceScrape) (k : String)
    → get? (scrape_of app endpoints vm).match_labels k ≡ (
        if plane_key == k
        then none
        else if app_key == k
        then some app.name
        else if group_key == k
        then some (index app.labels group_key)
        else none)
unfolding aimed completed lookup
match_labels-scrape_of app endpoints vm k =
    get?-remove (made (app_and_group app)) plane_key k ∙ ground arith

labels-desired :
    (json : Json) (app : SqbApplication) (k : String)
    → get? (Service.desired json app (new_service app.namespace app.name)).metadata.labels k
      ≡ get? app.labels k
unfolding Service.desired lookup
labels-desired json app k = get-merge_string_map nil app.labels k ∙ ground arith

found_label :
    (labels : Map String) (k : String) → has labels k ≡ true → get? labels k ≡ some (index labels k)
found_label labels k h = elim (Option-cases (get? labels k)) [
  | inl e ↦ absurd (ground (arith, e))
  | inr (v, e) ↦ e ∙ ap some (sym (ap text_or_empty e))
]

wanted :
    (is_plane is_app is_group : Bool) (name group v : String)
    → (if is_plane
        then none
        else if is_app
        then some name
        else if is_group
        then some group
        else none)
      ≡ some v
    → ((is_app ≡ true) × (v ≡ name)) ⊎ ((is_group ≡ true) × (v ≡ group))
wanted true is_app is_group name group v e = absurd (cc e)
wanted false true is_group name group v e = inl (refl, cc e)
wanted false false true name group v e = inr (refl, cc e)
wanted false false false name group v e = absurd (cc e)

-- A label of the application is one of its service.
carried :
    (json : Json) (app : SqbApplication) (key k v label : String)
    → (key == k) ≡ true
    → get? app.labels key ≡ some label
    → v ≡ label
    → get? (Service.desired json app (new_service app.namespace app.name)).metadata.labels k
      ≡ some v
carried json app key k v label is_key has_label same =
    labels-desired json app k
    ∙ (ap (get? app.labels) (sym ((eq_iff key k).0 is_key)) ∙ (has_label ∙ ap some (sym same)))

-- The scrape of an application selects the application's service, where that is made anew, exactly
-- if the labels of the application have its name under the key of applications and any group.
pub scrape_selects_service_iff :
    (json : Json) (app : SqbApplication) (endpoints : List VmEndpoint) (vm : VmServiceScrape)
    → IsSelectorOf
        (scrape_of app endpoints vm).match_labels
        (Service.desired json app (new_service app.namespace app.name)).metadata.labels
      ↔ ((get? app.labels app_key ≡ some app.name) × (has app.labels group_key ≡ true))
scrape_selects_service_iff json app endpoints vm = (
  λ selects. (
    sym (labels-desired json app app_key)
        ∙ selects app_key app.name (match_labels-scrape_of app endpoints vm app_key),
    ap (λ o. elim o [ none ↦ false | some _ ↦ true ])
        (sym (labels-desired json app group_key)
          ∙ selects group_key (index app.labels group_key)
              (match_labels-scrape_of app endpoints vm group_key)),
  ),
  λ (named, grouped) k v e.
      elim (wanted (plane_key == k) (app_key == k) (group_key == k) app.name
        (index app.labels group_key) v (sym (match_labels-scrape_of app endpoints vm k) ∙ e)) [
          | inl (is_app, same) ↦ carried json app app_key k v app.name is_app named same
          | inr (is_group, same) ↦
              carried json app group_key k v (index app.labels group_key) is_group
                (found_label app.labels group_key grouped) same
        ],
)
