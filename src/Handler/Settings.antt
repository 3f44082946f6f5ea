-- ===== src/Handler/Settings.antt =====
-- The helpers of sqbapplication_handler.go and sqbdeployment_handler.go that say what is enabled
-- for an application or a deployment.
pub mod Laws
use elastic_env_operator.Base.{String, Bool, false, ◌==◌, Option, none, some, get?, if◌then◌else◌}
use elastic_env_operator.Api.Types.{SqbApplication, SqbDeployment}
use elastic_env_operator.Entity.Keys.{
  istio_inject_annotation_key, ingress_open_annotation_key, public_entry_annotation_key,
  special_virtual_service_ingress_key,
}
use elastic_env_operator.Entity.ConfigMap
use elastic_env_operator.Entity.ConfigMap.{SqbConfigMapEntity}

-- The annotation decides if there is one, and the default if not.
unfoldable pub from_annotation : Option String → Bool → Bool
from_annotation none default = default
from_annotation (some value) default = value == "true"

module _ (sc : SqbConfigMapEntity) where
  -- IsIstioInject
  unfoldable pub is_istio_inject : SqbApplication → Bool
  unfolding ConfigMap.istio_inject from_annotation
  is_istio_inject app =
      if ConfigMap.istio_enable sc
      then from_annotation (get? app.annotations istio_inject_annotation_key)
          (ConfigMap.istio_inject sc)
      else false

  -- HasIstioIngressGateway
  abbrev pub has_istio_ingress_gateway : Bool
  has_istio_ingress_gateway = ConfigMap.has_istio_ingress_gateway sc

  -- IsIngressOpen
  unfoldable pub is_ingress_open : SqbApplication → Bool
  unfolding from_annotation
  is_ingress_open app =
      from_annotation (get? app.annotations ingress_open_annotation_key) (ConfigMap.ingress_open sc)

  -- SpecialVirtualServiceIngress
  unfoldable pub special_virtual_service_ingress : SqbDeployment → String
  special_virtual_service_ingress d =
      elim (get? d.annotations special_virtual_service_ingress_key) [
        | some class ↦ class
        | none ↦ ConfigMap.special_virtual_service_ingress sc
      ]

-- HasPublicEntry
unfoldable pub has_public_entry : SqbDeployment → Bool
unfolding from_annotation
has_public_entry d = from_annotation (get? d.annotations public_entry_annotation_key) false
