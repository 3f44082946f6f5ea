-- ===== src/Handler/Running/Deployments.antt =====
-- The handler of deployments leaves a deployment that runs the image.
use mathlib.Core.Path.{subst}
use elastic_env_operator.Base.{
  ◌≡◌, refl, String, false, not, ◌&&◌, ◌==◌, is_empty, has, lookup, ok, err, panic, Result, EndsIn,
  ◌∙◌, ℤ, List, [], ◌∷◌,
}
use elastic_env_operator.Api.Types.{SqbApplication, SqbDeployment}
use elastic_env_operator.Entity.Keys.{kubevela_app_name_label}
use elastic_env_operator.Entity.ConfigMap.{deployment_spec}
use elastic_env_operator.Kinds.Workload.{Deployment, deployment_obj, new_deployment}
use elastic_env_operator.Operator.{Operator}
use elastic_env_operator.Cluster.{unless_missing}
use elastic_env_operator.Cluster.Stores.{Holds, Stores, NoneOfKubevela, unless_missing_lem}
use elastic_env_operator.Handler
use elastic_env_operator.Handler.{deleted}
use elastic_env_operator.Handler.Writing.{create_or_update-Holds}
use elastic_env_operator.Handler.Deployment
use elastic_env_operator.Handler.Deployment.Scheduling.{delayed_health_check}
use elastic_env_operator.Handler.Deployment.Template.{desired}
use elastic_env_operator.Handler.Running.{
  running, replicas_or_one, facts, RunsAs, running-desired, meta-desired, own-desired,
}

-- Nothing of the configuration is merged into the specification of the deployment.
abbrev pub IsPlain : Operator → SqbDeployment → Type 0
IsPlain op d = (not (is_empty (deployment_spec op.config)) && d.namespace == "sqb") ≡ false

module _ (op : Operator) (stores : Stores running op.deployments)
    (own : NoneOfKubevela op.deployments) (d : SqbDeployment) (plain : IsPlain op d)
    (unowned : has d.labels kubevela_app_name_label ≡ false) where
  -- The deployment as it was found, or a new one.
  pub record IsOfIt (dep : Deployment) : Type 0 where
    pub namespaced : dep.metadata.namespace ≡ d.namespace
    pub named : dep.metadata.name ≡ d.name
    pub own_labels : has dep.metadata.labels kubevela_app_name_label ≡ false

  pub found-IsOfIt :
      (w : op.World) (dep : Deployment)
      → unless_missing (op.deployments.get d.namespace d.name w) (new_deployment d.namespace d.name)
        ≡ ok dep
      → IsOfIt dep
  unfolding lookup
  found-IsOfIt w =
      unless_missing_lem IsOfIt (op.deployments.get d.namespace d.name w)
        (new_deployment d.namespace d.name)
        (λ dep e. record {
          namespaced = (stores.named d.namespace d.name dep w e).0;
          named = (stores.named d.namespace d.name dep w e).1;
          own_labels = own d.namespace d.name dep w e;
        })
        (record { namespaced = refl; named = refl; own_labels = refl })

  returned_ends :
      (Q : op.World → Type 0) (d' : SqbDeployment) (x : Result Deployment × op.World)
      → ((dep : Deployment) → x.0 ≡ ok dep → Q x.1)
      → (u : Unit {0}) → (Deployment.returned op d' x).0 ≡ ok u
      → Q (Deployment.returned op d' x).1.1
  unfolding Deployment.returned
  returned_ends Q d' (ok dep, w) k u e = k dep refl
  returned_ends Q d' (err e', w) k u e = absurd (cc e)
  returned_ends Q d' (panic, w) k u e = absurd (cc e)

  written_runs :
      (app : SqbApplication) (dep made_dep : Deployment) (w : op.World)
      → IsOfIt dep
      → desired op app d dep ≡ ok made_dep
      → EndsIn (RunsAs op (facts d)) (Handler.create_or_update op.deployments made_dep) w
  written_runs app dep made_dep w is made_from =
      let act = Handler.create_or_update op.deployments made_dep in
      let Ends : String → String → ℤ × List (String × String) → Type 0 =
        λ namespace name v. EndsIn (Holds running op.deployments namespace name v) act w in
      let same = meta-desired op app d dep made_dep made_from in
      let v : ℤ × List (String × String) =
        (replicas_or_one d.spec.replicas, (d.name, d.spec.image) ∷ []) in
      subst (λ name. Ends d.namespace name v) (same.1 ∙ is.named)
        (subst (λ namespace. Ends namespace made_dep.metadata.name v) (same.0 ∙ is.namespaced)
          (subst (Ends made_dep.metadata.namespace made_dep.metadata.name)
            (running-desired op app d dep made_dep made_from)
            (create_or_update-Holds running op.deployments stores made_dep w
              (own-desired op app d dep made_dep made_from is.own_labels unowned))))

  pub additional_spec-plain :
      (dep : Deployment)
      → dep.metadata.namespace ≡ d.namespace
      → Deployment.additional_spec op dep ≡ ok dep
  unfolding Deployment.additional_spec
  additional_spec-plain dep same = rw (same, plain) refl

  from_desired_runs :
      (app : SqbApplication) (dep : Deployment) (made_dep : Result Deployment) (w : op.World)
      → IsOfIt dep
      → desired op app d dep ≡ made_dep
      → (u : Unit {0}) → (Deployment.from_desired op made_dep d w).0 ≡ ok u
      → RunsAs op (facts d) (Deployment.from_desired op made_dep d w).1.1
  unfolding Deployment.from_desired Deployment.written
  from_desired_runs app dep (ok made_dep) w is made_from =
      let same = (meta-desired op app d dep made_dep made_from).0 ∙ is.namespaced in
      rw (additional_spec-plain made_dep same) (
        returned_ends (RunsAs op (facts d)) (delayed_health_check d)
          (Handler.create_or_update op.deployments made_dep w)
          (written_runs app dep made_dep w is made_from))
  from_desired_runs app dep (err e') w is made_from = λ u e. absurd (cc e)
  from_desired_runs app dep panic w is made_from = λ u e. absurd (cc e)

  from_objects_runs :
      (found : Result Deployment) (app : Result SqbApplication) (w : op.World)
      → ((dep : Deployment) → found ≡ ok dep → IsOfIt dep)
      → (u : Unit {0}) → (Deployment.from_objects op found app d w).0 ≡ ok u
      → RunsAs op (facts d) (Deployment.from_objects op found app d w).1.1
  unfolding Deployment.from_objects
  from_objects_runs (ok dep) (ok app) w is =
      from_desired_runs app dep (desired op app d dep) w (is dep refl) refl
  from_objects_runs (err e') app w is = λ u e. absurd (cc e)
  from_objects_runs panic app w is = λ u e. absurd (cc e)
  from_objects_runs (ok dep) (err e') w is = λ u e. absurd (cc e)
  from_objects_runs (ok dep) panic w is = λ u e. absurd (cc e)

  pub handle_runs :
      (w : op.World)
      → deleted op.sums d.metadata ≡ false
      → EndsIn
          (λ (s : SqbDeployment × op.World). RunsAs op (facts d) s.1)
          (Deployment.handle op)
          (d, w)
  unfolding Deployment.handle Deployment.create_or_update
  handle_runs w live = rw live (
      from_objects_runs _ (op.sqb_applications.get d.namespace d.spec.selector.app w) w
        (found-IsOfIt w))
