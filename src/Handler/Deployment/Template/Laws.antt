-- ===== src/Handler/Deployment/Template/Laws.antt =====
-- What the deployment of an SQBDeployment keeps of the one that was found, and when it is made.
use elastic_env_operator.Base.{
  Bool-cases, inl, inr, refl, ◌≡◌, ◌≢◌, ap, sym, ◌∙◌, String, Option, none, some, Map, get?, remove,
  get?-remove, is_empty, true, [], ◌∷◌, Result, ok, err, panic, arith, eq_iff, List,
}
use elastic_env_operator.Api.Core.{ExecAction}
use elastic_env_operator.Api.Types.{InitHandler, SqbApplication, SqbDeployment}
use elastic_env_operator.Entity.ConfigMap.{init_container_image}
use elastic_env_operator.Util.{merge_string_map}
use elastic_env_operator.Util.Laws.{get-merge_string_map}
use elastic_env_operator.Kinds.Workload.{Deployment, Container}
use elastic_env_operator.Operator.{Operator}
use elastic_env_operator.Handler.Deployment.Template.{
  selector_or_app, desired, desired_with, with_init, selector_or_app, init_containers_of, injected,
  init_of, init_container, image_or_busybox,
}

with_init_ok :
    (op : Operator) (app : SqbApplication) (d : SqbDeployment) (dep made_dep : Deployment)
    (r : Result (List Container))
    → with_init op app d dep r ≡ ok made_dep
    → (made_dep ≡ desired_with op app d dep made_dep.spec.template.spec.init_containers)
      × (r ≡ ok made_dep.spec.template.spec.init_containers)
unfolding with_init desired_with
with_init_ok op app d dep made_dep (ok cs) h =
    let e : desired_with op app d dep cs ≡ made_dep = cc h in
    let f : cs ≡ made_dep.spec.template.spec.init_containers =
      ap (λ x. x.spec.template.spec.init_containers) e in
    (sym e ∙ ap (desired_with op app d dep) f, ap ok f)
with_init_ok op app d dep made_dep (err e) h = absurd (cc h)
with_init_ok op app d dep made_dep panic h = absurd (cc h)

-- The deployment that is made is the one of some init containers.
pub desired_ok :
    (op : Operator) (app : SqbApplication) (d : SqbDeployment) (dep made_dep : Deployment)
    → desired op app d dep ≡ ok made_dep
    → (made_dep ≡ desired_with op app d dep made_dep.spec.template.spec.init_containers)
      × (init_containers_of
            (init_container_image op.config)
            d
            dep.spec.template.spec.init_containers
          ≡ ok made_dep.spec.template.spec.init_containers)
unfolding desired
desired_ok op app d dep made_dep h =
    with_init_ok op app d dep made_dep
      (init_containers_of (init_container_image op.config) d dep.spec.template.spec.init_containers)
      h

selector_of_made :
    (op : Operator) (app : SqbApplication) (d : SqbDeployment) (dep made_dep : Deployment)
    → desired op app d dep ≡ ok made_dep
    → made_dep.spec.selector ≡ some (selector_or_app dep.spec.selector d.spec.selector.app)
unfolding desired_with
selector_of_made op app d dep made_dep h =
    ap (λ x. x.spec.selector) (desired_ok op app d dep made_dep h).0

labels_of_made :
    (op : Operator) (app : SqbApplication) (d : SqbDeployment) (dep made_dep : Deployment)
    → desired op app d dep ≡ ok made_dep
    → made_dep.spec.template.labels
      ≡ remove
          (merge_string_map
            (merge_string_map dep.metadata.labels d.labels)
            (selector_or_app dep.spec.selector d.spec.selector.app))
          injected
unfolding desired_with
labels_of_made op app d dep made_dep h =
    ap (λ x. x.spec.template.labels) (desired_ok op app d dep made_dep h).0

selector_or_app-some :
    (found : Option (Map String)) (app : String) (selector : Map String)
    → found ≡ some selector
    → selector_or_app found app ≡ selector
unfolding selector_or_app
selector_or_app-some none app selector h = absurd (cc h)
selector_or_app-some (some m) app selector h = cc h

merged_label :
    (base selector : Map String) (k v : String)
    → injected ≢ k
    → get? selector k ≡ some v
    → get? (remove (merge_string_map base selector) injected) k ≡ some v
merged_label base selector k v n g =
    get?-remove (merge_string_map base selector) injected k
    ∙ ground (arith, get-merge_string_map base selector k, eq_iff injected k)

-- The pods of the deployment that is made have every label of its selector, with its value, but
-- for the label of the tracing sidecar, which is removed.
pub desired-pods_match :
    (op : Operator) (app : SqbApplication) (d : SqbDeployment) (dep made_dep : Deployment)
    (selector : Map String) (k v : String)
    → desired op app d dep ≡ ok made_dep
    → made_dep.spec.selector ≡ some selector
    → injected ≢ k
    → get? selector k ≡ some v
    → get? made_dep.spec.template.labels k ≡ some v
desired-pods_match op app d dep made_dep selector k v h e n g =
    let f : selector_or_app dep.spec.selector d.spec.selector.app ≡ selector =
      cc (selector_of_made op app d dep made_dep h, e) in
    ap (λ m. get? m k) (labels_of_made op app d dep made_dep h)
    ∙ merged_label (merge_string_map dep.metadata.labels d.labels)
        (selector_or_app dep.spec.selector d.spec.selector.app) k v n (ap (λ m. get? m k) f ∙ g)

-- Where the operator has no image for init containers and the SQBDeployment asks for none, the
-- deployment that is written has the init containers that were found.
pub desired-stale_init_containers :
    (op : Operator) (app : SqbApplication) (d : SqbDeployment) (dep made_dep : Deployment)
    → desired op app d dep ≡ ok made_dep
    → is_empty (init_container_image op.config) ≡ true
    → init_of d.spec.lifecycle ≡ none
    → made_dep.spec.template.spec.init_containers ≡ dep.spec.template.spec.init_containers
unfolding init_containers_of
desired-stale_init_containers op app d dep made_dep h e n =
    let f = (desired_ok op app d dep made_dep h).1 in ground (arith, f, e, n)

-- An init handler has its command.
abbrev pub HasCommand : Option InitHandler → Type 0
HasCommand none = Unit
HasCommand (some handler) = (action : ExecAction) × (handler.exec ≡ some action)

init_containers_returned :
    (image : String) (d : SqbDeployment) (found : List Container) (init : Option InitHandler)
    → init_of d.spec.lifecycle ≡ init
    → HasCommand init
    → (cs : List Container) × (init_containers_of image d found ≡ ok cs)
unfolding init_containers_of
init_containers_returned image d found none same h = elim (Bool-cases (is_empty image)) [
  | inl e ↦ (found, rw (init_containers_of, same, e) refl)
  | inr e ↦ (init_container d image [] ∷ [], rw (init_containers_of, same, e) refl)
]
init_containers_returned image d found (some handler) same h = (
  init_container d (image_or_busybox image) h.0.command ∷ [],
  rw (init_containers_of, same, h.1) refl,
)

with_init_returned :
    (op : Operator) (app : SqbApplication) (d : SqbDeployment) (dep : Deployment)
    (r : Result (List Container))
    → (cs : List Container) × (r ≡ ok cs)
    → (made_dep : Deployment) × (with_init op app d dep r ≡ ok made_dep)
unfolding with_init
with_init_returned op app d dep (ok cs) h = (desired_with op app d dep cs, refl)
with_init_returned op app d dep (err e) h = absurd (cc h.1)
with_init_returned op app d dep panic h = absurd (cc h.1)

-- A deployment is made where the init handler has its command.
pub desired_returned :
    (op : Operator) (app : SqbApplication) (d : SqbDeployment) (dep : Deployment)
    → HasCommand (init_of d.spec.lifecycle)
    → (made_dep : Deployment) × (desired op app d dep ≡ ok made_dep)
unfolding desired
desired_returned op app d dep h = with_init_returned op app d dep _ (
    init_containers_returned (init_container_image op.config) d
      dep.spec.template.spec.init_containers (init_of d.spec.lifecycle) refl h)
