-- ===== src/Handler/Settings/Laws.antt =====
-- When Istio and the ingress are enabled for an application.
use elastic_env_operator.Base.{
  ◌≡◌, ◌↔◌, String, eq_iff, Bool, true, Option, none, some, get?, arith, ◌⊎◌,
}
use elastic_env_operator.Api.Types.{SqbApplication}
use elastic_env_operator.Entity.Keys.{istio_inject_annotation_key}
use elastic_env_operator.Entity.ConfigMap
use elastic_env_operator.Entity.ConfigMap.{SqbConfigMapEntity}
use elastic_env_operator.Handler.Settings.{from_annotation, is_istio_inject}

from_annotation_iff :
    (o : Option String) (default : Bool)
    → (from_annotation o default ≡ true) ↔ ((o ≡ some "true") ⊎ ((o ≡ none) × (default ≡ true)))
unfolding from_annotation
from_annotation_iff none default = ground arith
from_annotation_iff (some value) default = ground (arith, eq_iff value "true")

-- Istio is injected exactly where the cluster has it and the annotation of the application is
-- "true", or is missing and the configuration says so.
pub is_istio_inject_iff :
    (sc : SqbConfigMapEntity) (app : SqbApplication)
    → (is_istio_inject sc app ≡ true) ↔ (
        (sc.config.istio_enable ≡ true)
        × ((get? app.annotations istio_inject_annotation_key ≡ some "true")
            ⊎ ((get? app.annotations istio_inject_annotation_key ≡ none)
                × (sc.config.istio_inject ≡ true))))
unfolding is_istio_inject ConfigMap.istio_inject
is_istio_inject_iff sc app = ground (
  arith,
  from_annotation_iff (get? app.annotations istio_inject_annotation_key)
      (ConfigMap.istio_inject sc),
)
