-- ===== src/Tests/Objects.antt =====
-- Services, ingresses, claims and SQBDeployments of an application.
use elastic_env_operator.Base.{
  ◌≡◌, ◌≢◌, ◌↔◌, refl, String, true, false, Option, some, [], ◌∷◌, nil, made, get?, index, lookup,
  is_nil, ok, err, All, eq_iff,
}
use elastic_env_operator.Api.Meta.{ObjectMeta, named}
use elastic_env_operator.Api.Types.{
  DeploySpec, SqbDeployment, Domain, sqb_application_obj, sqb_deployment_obj,
}
use elastic_env_operator.Entity.Keys.{istio_inject_annotation_key}
use elastic_env_operator.Util.{contain_string}
use elastic_env_operator.Kinds.Core.{ingress_obj, pvc_obj, new_ingress, new_service, new_pvc}
use elastic_env_operator.Handler.{is_deleted}
use elastic_env_operator.Handler.Service
use elastic_env_operator.Handler.Service.Laws.{desired_idem}
use elastic_env_operator.Handler.Settings.{is_istio_inject}
use elastic_env_operator.Handler.Ingress
use elastic_env_operator.Handler.Ingress.{is_auto_ingress, delete_others, domain_name}
use elastic_env_operator.Handler.Ingress.Laws.{is_auto_ingress-desired}
use elastic_env_operator.Handler.Pvc.{ensure, delete_all}
use elastic_env_operator.Handler.Pvc.Laws.{ensure_spares, IsSpared, delete_all_succeeds}
use elastic_env_operator.Handler.SqbDeploymentList.{handle_istio, mark_deleted, truth}
use elastic_env_operator.Handler.SqbDeploymentList.Laws.{
  handle_istio_sets, is_deleted-mark_deleted, resulting,
}
use elastic_env_operator.Handler.SqbApplication.{new_deploy_spec}
use elastic_env_operator.Controllers.{generation_annotation_update}
use elastic_env_operator.Controllers.Laws.{generation_annotation_update_iff}
use elastic_env_operator.Tests.Fixtures.{operator, config, json, shop, shop_base, claimed}

desired_idem_example :
    let once = Service.desired json shop (new_service "sqb" "shop") in
    let twice = Service.desired json shop once in
    (twice.ports ≡ once.ports)
    × (twice.metadata.annotations ≡ once.metadata.annotations)
    × (get? twice.metadata.labels "app" ≡ get? once.metadata.labels "app")
    × (get? twice.selector "app" ≡ get? once.selector "app")
desired_idem_example = desired_idem json shop (new_service "sqb" "shop") "app"

abbrev shop_domain : Domain
shop_domain = record { class = "nginx"; annotation = nil; host = "shop.qa.example.com" }

is_auto_ingress-desired_example :
    is_auto_ingress shop.name
      (Ingress.desired config shop shop_domain (new_ingress "sqb" (domain_name shop shop_domain)))
    ≡ true
is_auto_ingress-desired_example =
    is_auto_ingress-desired config shop shop_domain
      (new_ingress "sqb" (domain_name shop shop_domain)) refl refl

ensure_spares_example : All (IsSpared operator shop_base ("old" ∷ [])) (claimed ∷ [])
unfolding ensure contain_string
ensure_spares_example =
    ensure_spares operator shop_base (claimed ∷ []) ("old" ∷ "shop-data" ∷ []) ("old" ∷ []) [] refl

delete_all_succeeds_example :
    (delete_all operator (new_pvc "sqb" "shop-data" ∷ []) []).0
    ≢ err (record { is_not_found = false; message = "refused" })
delete_all_succeeds_example =
    delete_all_succeeds operator (new_pvc "sqb" "shop-data" ∷ []) []
      (record { is_not_found = false; message = "refused" })

handle_istio_sets_example :
    (o : Option SqbDeployment) × (handle_istio config shop shop_base ≡ ok o)
    × (index (resulting shop_base o).annotations istio_inject_annotation_key
        ≡ truth (is_istio_inject config shop))
    × (get? (resulting shop_base o).annotations "team" ≡ get? shop_base.annotations "team")
unfolding lookup
handle_istio_sets_example =
    handle_istio_sets config shop shop_base "team" refl
      (λ e. absurd (cc ((eq_iff "team" istio_inject_annotation_key).1 e)))

is_deleted-mark_deleted_example :
    (d' : SqbDeployment) × (mark_deleted operator shop_base ≡ ok d')
    × (is_deleted operator.sums d'.metadata ≡ ok true)
is_deleted-mark_deleted_example = is_deleted-mark_deleted operator shop_base refl

abbrev renamed : ObjectMeta
renamed = record (named "sqb" "shop") { annotations = made (("a", "1") ∷ []) }

generation_annotation_update_iff_example :
    (generation_annotation_update (some (named "sqb" "shop")) (some renamed) ≡ false) ↔ (
      (renamed.generation ≡ (named "sqb" "shop").generation)
      × (is_nil (named "sqb" "shop").annotations ≡ is_nil renamed.annotations)
      × ((k : String) → get? (named "sqb" "shop").annotations k ≡ get? renamed.annotations k))
generation_annotation_update_iff_example =
    generation_annotation_update_iff (named "sqb" "shop") renamed

abbrev with_image : DeploySpec
with_image = record new_deploy_spec { image = "shop:1" }
