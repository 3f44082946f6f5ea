-- ===== src/Handler/SqbDeployment/Laws.antt =====
-- What the reconciler of SQBDeployments does with the first and with a wrongly marked object.
use elastic_env_operator.Base.{
  ◌≡◌, refl, String, true, some, get?, lookup, lookup-insert, Error, ok, err, arith, if◌then◌else◌,
  entries, insert, ◌==◌,
}
use elastic_env_operator.Api.Types.{SqbApplication, SqbDeployment, sqb_deployment_obj}
use elastic_env_operator.Entity.Keys.{initialize_annotation_key, istio_inject_annotation_key}
use elastic_env_operator.Entity.ConfigMap.{SqbConfigMapEntity}
use elastic_env_operator.Operator.{Operator}
use elastic_env_operator.Handler.{is_deleted}
use elastic_env_operator.Handler.Settings.{is_istio_inject}
use elastic_env_operator.Handler.SqbDeploymentList.{truth}
use elastic_env_operator.Handler.SqbDeployment.{initialized, is_initialized, operate}

-- The first reconciliation writes the mark and whether Istio is injected, and keeps every other
-- annotation.
pub get-initialized :
    (sc : SqbConfigMapEntity) (app : SqbApplication) (d : SqbDeployment) (k : String)
    → get? (initialized sc app d).annotations k ≡ (
        if istio_inject_annotation_key == k
        then some (truth (is_istio_inject sc app))
        else if initialize_annotation_key == k
        then some "true"
        else get? d.annotations k)
unfolding initialized lookup
get-initialized sc app d k = ground (
  arith,
  lookup-insert istio_inject_annotation_key k (truth (is_istio_inject sc app))
      (insert initialize_annotation_key "true" (entries d.annotations)),
  lookup-insert initialize_annotation_key k "true" (entries d.annotations),
)

marked_is_initialized :
    (op : Operator) (d : SqbDeployment) (w : op.World)
    → get? d.annotations initialize_annotation_key ≡ some "true"
    → is_initialized op (d, w) ≡ (ok true, (d, w))
unfolding is_initialized
marked_is_initialized op d w h = rw h refl

-- Of an SQBDeployment that the first reconciliation has written, the next one says that it is
-- initialized, and neither the object nor the cluster changes.
pub is_initialized_once :
    (op : Operator) (sc : SqbConfigMapEntity) (app : SqbApplication) (d : SqbDeployment)
    (w : op.World)
    → is_initialized op (initialized sc app d, w) ≡ (ok true, (initialized sc app d, w))
is_initialized_once op sc app d w =
    marked_is_initialized op (initialized sc app d) w
      (get-initialized sc app d initialize_annotation_key)

-- An SQBDeployment with a wrong checksum is refused before any handler runs: the error is returned,
-- and neither the object nor the cluster changes.
pub operate_wrong_sum :
    (op : Operator) (d : SqbDeployment) (w : op.World) (e : Error)
    → is_deleted op.sums d.metadata ≡ err e
    → operate op (d, w) ≡ (err e, (d, w))
unfolding operate
operate_wrong_sum op d w e h = rw h refl
