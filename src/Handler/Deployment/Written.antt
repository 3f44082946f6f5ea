-- ===== src/Handler/Deployment/Written.antt =====
-- The deployment that is written: the one that is made, with the additional specification of the
-- configuration merged into it.
use elastic_env_operator.Base.{
  ◌≡◌, ◌≢◌, refl, sym, ap, ◌∙◌, String, Bool, true, false, none, some, Map, nil, get?, Result, ok,
  err, panic, is_empty, not, ◌&&◌, ◌==◌, if◌then◌else◌,
}
use elastic_env_operator.Api.Types.{SqbApplication, SqbDeployment}
use elastic_env_operator.Entity.ConfigMap.{deployment_spec}
use elastic_env_operator.Kinds.Workload.{Deployment, DeploymentSpec}
use elastic_env_operator.Operator.{Operator}
use elastic_env_operator.Handler.Deployment.{with_spec, merge, additional_spec}
use elastic_env_operator.Handler.Deployment.Template.{desired, injected}
use elastic_env_operator.Handler.Deployment.Template.Laws.{desired-pods_match}

module _ (op : Operator) where
  -- mergo.Merge leaves what the specification that is merged in does not set.
  pub record KeepsUnset : Type 0 where
    pub selector :
        (old new merged : DeploymentSpec)
        → op.merge_deployment_spec old new ≡ ok merged
        → new.selector ≡ none
        → merged.selector ≡ old.selector
    pub labels :
        (old new merged : DeploymentSpec)
        → op.merge_deployment_spec old new ≡ ok merged
        → new.template.labels ≡ nil
        → merged.template.labels ≡ old.template.labels

  -- The additional specification sets no selector, and no labels of the pods.
  abbrev pub SetsNoLabels : Type 0
  SetsNoLabels =
      (spec : DeploymentSpec)
      → op.unmarshal_deployment_spec (deployment_spec op.config) ≡ ok spec
      → (spec.selector ≡ none) × (spec.template.labels ≡ nil)

  -- What the merge leaves of a deployment.
  abbrev pub IsSame : Deployment → Deployment → Type 0
  IsSame dep written =
      (written.spec.selector ≡ dep.spec.selector)
      × (written.spec.template.labels ≡ dep.spec.template.labels)

  module _ (keeps : KeepsUnset) (plain : SetsNoLabels) where
    merged-IsSame :
        (dep written : Deployment) (spec : DeploymentSpec) (merged : Result DeploymentSpec)
        → op.merge_deployment_spec dep.spec spec ≡ merged
        → (spec.selector ≡ none) × (spec.template.labels ≡ nil)
        → with_spec op dep merged ≡ ok written
        → IsSame dep written
    unfolding with_spec
    merged-IsSame dep written spec (ok merged) from unset e =
        let same : record dep { spec = merged } ≡ written = cc e in
        (
          ap (λ x. x.spec.selector) (sym same) ∙ keeps.selector dep.spec spec merged from unset.0,
          ap (λ x. x.spec.template.labels) (sym same)
              ∙ keeps.labels dep.spec spec merged from unset.1,
        )
    merged-IsSame dep written spec (err e') from unset e = absurd (cc e)
    merged-IsSame dep written spec panic from unset e = absurd (cc e)

    merge-IsSame :
        (dep written : Deployment) (read : Result DeploymentSpec)
        → op.unmarshal_deployment_spec (deployment_spec op.config) ≡ read
        → merge op dep (deployment_spec op.config) ≡ ok written
        → IsSame dep written
    unfolding merge
    merge-IsSame dep written (ok spec) from =
        rw (merge, from)
          (merged-IsSame dep written spec (op.merge_deployment_spec dep.spec spec) refl
            (plain spec from))
    merge-IsSame dep written (err e') from = rw (merge, from) (λ e. absurd (cc e))
    merge-IsSame dep written panic from = rw (merge, from) (λ e. absurd (cc e))

    additional_spec-IsSame :
        (dep written : Deployment) → additional_spec op dep ≡ ok written → IsSame dep written
    unfolding additional_spec
    additional_spec-IsSame dep written =
        by_test (not (is_empty (deployment_spec op.config)) && dep.metadata.namespace == "sqb")
      where
        by_test :
            (b : Bool)
            → (if b then merge op dep (deployment_spec op.config) else ok dep) ≡ ok written
            → IsSame dep written
        by_test true = merge-IsSame dep written _ refl
        by_test false = λ e.
            let same : dep ≡ written = cc e in
            (ap (λ x. x.spec.selector) (sym same), ap (λ x. x.spec.template.labels) (sym same))

    -- The pods of the deployment that is written have every label of its selector, with its value,
    -- but for the label of the tracing sidecar, which is removed; where the additional
    -- specification of the configuration sets no selector and no labels of the pods, and mergo
    -- leaves what the specification that it merges in does not set.
    pub written-pods_match :
        (app : SqbApplication) (d : SqbDeployment) (dep made_dep written : Deployment)
        (selector : Map String) (k v : String)
        → desired op app d dep ≡ ok made_dep
        → additional_spec op made_dep ≡ ok written
        → written.spec.selector ≡ some selector
        → injected ≢ k
        → get? selector k ≡ some v
        → get? written.spec.template.labels k ≡ some v
    written-pods_match app d dep made_dep written selector k v made_from written_from has_selector n
          g =
        let same = additional_spec-IsSame made_dep written written_from in
        ap (λ m. get? m k) same.1
        ∙ desired-pods_match op app d dep made_dep selector k v made_from
            (sym same.0 ∙ has_selector) n g
