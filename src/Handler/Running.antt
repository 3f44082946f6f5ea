-- ===== src/Handler/Running.antt =====
-- What a reconciliation of an SQBDeployment that ends well leaves in the cluster: a deployment that
-- runs its image.
pub mod Deployments
pub mod Claiming
pub mod Operating
pub mod Answering
pub mod Success
use mathlib.Core.Path.{subst}
use elastic_env_operator.Base.{
  ℤ, pos, ℕ, ◌≡◌, refl, sym, ◌∙◌, ap, String, Bool, true, false, not, ◌&&◌, ◌==◌, is_empty, Option,
  none, some, List, [], ◌∷◌, map, get?, remove, get?-remove, has, lookup, ok, err, panic, Result,
  Exec, EndsIn, arith, if◌then◌else◌,
}
use elastic_env_operator.Api.Core.{Probe}
use elastic_env_operator.Api.Meta.{ObjectMeta}
use elastic_env_operator.Api.Types.{SqbApplication, SqbDeployment}
use elastic_env_operator.Entity.Keys.{kubevela_app_name_label}
use elastic_env_operator.Entity.ConfigMap.{deployment_spec}
use elastic_env_operator.Util.{merge_string_map}
use elastic_env_operator.Util.Laws.{has-merge_string_map}
use elastic_env_operator.Kinds.Workload.{Container, Deployment, deployment_obj, new_deployment}
use elastic_env_operator.Operator.{Operator}
use elastic_env_operator.Cluster.{unless_missing}
use elastic_env_operator.Cluster.Stores.{Holds, Stores, NoneOfKubevela, unless_missing_lem}
use elastic_env_operator.Handler
use elastic_env_operator.Handler.{deleted}
use elastic_env_operator.Handler.Writing.{create_or_update-Holds}
use elastic_env_operator.Handler.Deployment
use elastic_env_operator.Handler.Deployment.Scheduling.{add_startup_probe, delayed_health_check}
use elastic_env_operator.Handler.Deployment.Template.{desired, desired_with, container_of, injected}
use elastic_env_operator.Handler.Deployment.Template.Laws.{desired_ok}

-- What of a deployment the statements are about: its replicas, and the containers of its pods with
-- their images.
abbrev named_image : Container → String × String
named_image c = (c.name, c.image)

-- A deployment has one replica where none are given.
unfoldable pub replicas_or_one : Option ℤ → ℤ
replicas_or_one none = pos 1
replicas_or_one (some n) = n

abbrev pub running : Deployment → ℤ × List (String × String)
running dep = (replicas_or_one dep.spec.replicas, map named_image dep.spec.template.spec.containers)

-- What of an SQBDeployment they are about.
abbrev pub facts : SqbDeployment → ObjectMeta × (ℤ × String)
facts d = (d.metadata, (replicas_or_one d.spec.replicas, d.spec.image))

abbrev pub RunsAs : (op : Operator) → ObjectMeta × (ℤ × String) → op.World → Type 0
RunsAs op (m, (replicas, image)) w =
    Holds running op.deployments m.namespace m.name (replicas, (m.name, image) ∷ []) w

add_startup_probe-named_image :
    (probe : Option Probe) (c : Container) → named_image (add_startup_probe probe c) ≡ named_image c
unfolding add_startup_probe
add_startup_probe-named_image none c = refl
add_startup_probe-named_image (some p) c = refl

module _ (op : Operator) (app : SqbApplication) (d : SqbDeployment) (dep made_dep : Deployment)
    (made_from : desired op app d dep ≡ ok made_dep) where
  pub running-desired :
      running made_dep ≡ (replicas_or_one d.spec.replicas, (d.name, d.spec.image) ∷ [])
  unfolding desired_with container_of
  running-desired =
      ap running (desired_ok op app d dep made_dep made_from).0
      ∙ ap (λ x. (replicas_or_one d.spec.replicas, x ∷ []))
          (add_startup_probe-named_image d.spec.health_check (container_of app d))

  pub meta-desired :
      (made_dep.metadata.namespace ≡ dep.metadata.namespace)
      × (made_dep.metadata.name ≡ dep.metadata.name)
  unfolding desired_with
  meta-desired =
      let e = (desired_ok op app d dep made_dep made_from).0 in
      (ap (λ x. x.metadata.namespace) e, ap (λ x. x.metadata.name) e)

  pub own-desired :
      has dep.metadata.labels kubevela_app_name_label ≡ false
      → has d.labels kubevela_app_name_label ≡ false
      → has made_dep.metadata.labels kubevela_app_name_label ≡ false
  unfolding desired_with
  own-desired own_dep own =
      ap (λ x. has x.metadata.labels kubevela_app_name_label)
        (desired_ok op app d dep made_dep made_from).0
      ∙ ground (
        arith,
        get?-remove (merge_string_map dep.metadata.labels d.labels) injected
            kubevela_app_name_label,
        has-merge_string_map dep.metadata.labels d.labels kubevela_app_name_label own_dep own,
      )
