-- ===== src/Tests/Resources.antt =====
-- The Kubernetes objects of an application and its deployments.
use elastic_env_operator.Base.{
  sym, ap, ◌≡◌, refl, false, some, [], ◌∷◌, made, get?, lookup, pos, get_elem?, eq_iff, ◌↔◌, has,
  true,
}
use elastic_env_operator.Api.Core.{Probe}
use elastic_env_operator.Api.Types.{
  VolumeSpec, sqb_application_obj, sqb_deployment_obj, sqb_plane_obj,
}
use elastic_env_operator.Kinds.Core.{ingress_obj, pvc_obj, new_service}
use elastic_env_operator.Kinds.Workload.{new_deployment_spec, Deployment, deployment_obj}
use elastic_env_operator.Handler.Deployment.Volumes.{get_volume_and_volume_mounts}
use elastic_env_operator.Handler.Deployment.Volumes.Laws.{shown_by, asked_by, mounts_show_volumes}
use elastic_env_operator.Handler.Deployment.Template
use elastic_env_operator.Handler.Deployment.Template.{desired_with, injected}
use elastic_env_operator.Handler.Deployment.Written.{KeepsUnset, SetsNoLabels, written-pods_match}
use elastic_env_operator.Handler.Deployment.{additional_spec}
use elastic_env_operator.Entity.Keys.{app_key, group_key}
use elastic_env_operator.Kinds.Monitoring.{new_scrape}
use elastic_env_operator.Handler.Service
use elastic_env_operator.Handler.Selection.{
  IsSelectorOf, scrape_of, service_selects_pods, scrape_selects_service_iff,
}
use elastic_env_operator.Tests.Fixtures.{json, operator, shop, shop_base, shop_pods, claimed}

abbrev from_host : VolumeSpec
from_host = record claimed { host_path = "/var"; persistent_volume_claim = false }

abbrev shop_made : Deployment
shop_made = desired_with operator shop shop_base shop_pods []

-- The operator of the tests merges nothing.
operator-KeepsUnset : KeepsUnset operator
operator-KeepsUnset = record {
  selector = λ old new merged e unset. cc e;
  labels = λ old new merged e unset. cc e;
}

operator-SetsNoLabels : SetsNoLabels operator
operator-SetsNoLabels spec e =
    let same : new_deployment_spec ≡ spec = cc e in
    (sym (ap (λ s. s.selector) same), sym (ap (λ s. s.template.labels) same))

written-pods_match_example : get? shop_made.spec.template.labels "app" ≡ some "shop"
unfolding Template.desired lookup additional_spec
written-pods_match_example =
    written-pods_match operator operator-KeepsUnset operator-SetsNoLabels shop shop_base shop_pods
      shop_made shop_made (made (("app", "shop") ∷ [])) "app" "shop" refl refl refl
      (λ e. absurd (cc ((eq_iff injected "app").1 e))) refl

mounts_show_volumes_example :
    let (volumes, mounts) = get_volume_and_volume_mounts (claimed ∷ from_host ∷ []) in
    shown_by volumes (get_elem? mounts 1) ≡ asked_by (get_elem? (claimed ∷ from_host ∷ []) 1)
mounts_show_volumes_example = mounts_show_volumes (claimed ∷ from_host ∷ []) 1

abbrev probe : Probe
probe = record {
  handler = "";
  initial_delay_seconds = pos 205;
  timeout_seconds = pos 1;
  period_seconds = pos 10;
  success_threshold = pos 1;
  failure_threshold = pos 3;
}

service_selects_pods_example :
    IsSelectorOf
      (Service.desired json shop (new_service "sqb" "shop")).selector
      shop_made.spec.template.labels
unfolding Template.desired lookup additional_spec
service_selects_pods_example =
    service_selects_pods operator json shop shop_base (new_service "sqb" "shop") shop_pods shop_made
      shop_made (made (("app", "shop") ∷ [])) operator-KeepsUnset operator-SetsNoLabels
      (λ k v e. absurd (cc e)) refl refl refl refl

scrape_selects_service_iff_example :
    IsSelectorOf
      (scrape_of shop [] (new_scrape "sqb" "shop")).match_labels
      (Service.desired json shop (new_service "sqb" "shop")).metadata.labels
    ↔ ((get? shop.labels app_key ≡ some "shop") × (has shop.labels group_key ≡ true))
scrape_selects_service_iff_example =
    scrape_selects_service_iff json shop [] (new_scrape "sqb" "shop")
