-- ===== src/Handler/SqbDeploymentList.antt =====
-- sqbdeploymentlist_handler.go: what an application or a plane does to all its deployments.
pub mod Laws
use elastic_env_operator.Base.{
  String, Bool, true, false, not, ◌==◌, Option, none, some, List, [], ◌∷◌, Map, made, index, assign,
  Result, ok, err, panic, Exec, pure, lift, ◌>>=◌, ◌>>◌, if◌then◌else◌,
}
use elastic_env_operator.Api.Types.{
  SqbApplication, SqbDeployment, SqbPlane, sqb_deployment_obj, with_annotations,
}
use elastic_env_operator.Entity.Keys.{
  app_key, plane_key, initialize_annotation_key, istio_inject_annotation_key,
  explicit_delete_annotation_key,
}
use elastic_env_operator.Entity.ConfigMap.{SqbConfigMapEntity}
use elastic_env_operator.Util.{get_delete_check_sum}
use elastic_env_operator.Cluster.{list_into}
use elastic_env_operator.Operator.{Operator}
use elastic_env_operator.Handler
use elastic_env_operator.Handler.Settings.{is_istio_inject}

abbrev pub truth : Bool → String
truth b = if b then "true" else "false"

annotate : SqbDeployment → String → String → Result SqbDeployment
annotate d k v = elim (assign d.annotations k v) [
  | ok m ↦ ok (with_annotations d m)
  | err e ↦ err e
  | panic ↦ panic
]

changed : Result SqbDeployment → Result (Option SqbDeployment)
changed (ok d) = ok (some d)
changed (err e) = err e
changed panic = panic

-- Returns early where the annotation has the value, and writes it where not.
unfoldable pub set_istio : SqbDeployment → String → Result (Option SqbDeployment)
unfolding annotate changed
set_istio d value =
    if index d.annotations istio_inject_annotation_key == value
    then ok none
    else changed (annotate d istio_inject_annotation_key value)

-- handleIstio: the deployment if it is changed.
unfoldable pub handle_istio :
    SqbConfigMapEntity → SqbApplication → SqbDeployment → Result (Option SqbDeployment)
unfolding is_istio_inject set_istio
handle_istio sc app d =
    if not (index d.annotations initialize_annotation_key == "true")
    then ok none
    else if is_istio_inject sc app
    then set_istio d "true"
    else set_istio d "false"

module _ (op : Operator) where
  -- listByLabel
  unfoldable pub list_by_label : String → Map String → Exec op.World (List SqbDeployment)
  unfolding list_into
  list_by_label namespace label = list_into op.sqb_deployments namespace label []

  unfoldable pub write_changed : Option SqbDeployment → Exec op.World (Unit {0})
  unfolding Handler.create_or_update
  write_changed none = pure tt
  write_changed (some d) = Handler.create_or_update op.sqb_deployments d >> pure tt

  -- The loop of `CreateOrUpdateForSqbapplication`
  unfoldable pub update_istio : SqbApplication → List SqbDeployment → Exec op.World (Unit {0})
  unfolding handle_istio write_changed
  update_istio app [] = pure tt
  update_istio app (d ∷ ds) = do
    d' ← lift (handle_istio op.config app d)
    write_changed d'
    update_istio app ds

  -- CreateOrUpdateForSqbapplication
  unfoldable pub create_or_update_for_sqbapplication : SqbApplication → Exec op.World (Unit {0})
  unfolding update_istio list_by_label
  create_or_update_for_sqbapplication app = do
    ds ← list_by_label app.namespace (made ((app_key, app.name) ∷ []))
    update_istio app ds

  -- A write into a map of annotations that is nil panics.
  unfoldable pub mark_deleted : SqbDeployment → Result SqbDeployment
  unfolding annotate get_delete_check_sum
  mark_deleted d =
      annotate d explicit_delete_annotation_key
        (get_delete_check_sum op.sums.md5_hex op.sums.salt d.name)

  -- The loop of `deleteByLabel`
  unfoldable pub mark_all : List SqbDeployment → Exec op.World (Unit {0})
  unfolding mark_deleted Handler.create_or_update
  mark_all [] = pure tt
  mark_all (d ∷ ds) = do
    d' ← lift (mark_deleted d)
    Handler.create_or_update op.sqb_deployments d'
    mark_all ds

  -- deleteByLabel
  unfoldable pub delete_by_label : String → Map String → Exec op.World (Unit {0})
  unfolding list_by_label mark_all
  delete_by_label namespace label = do ds ← list_by_label namespace label; mark_all ds

  -- func (h *sqbDeploymentListHandler) Handle, for an application and for a plane
  unfoldable pub handle_sqbapplication : SqbApplication → Exec op.World (Unit {0})
  unfolding create_or_update_for_sqbapplication delete_by_label Handler.deleted
  handle_sqbapplication app =
      if Handler.deleted op.sums app.metadata
      then delete_by_label app.namespace (made ((app_key, app.name) ∷ []))
      else create_or_update_for_sqbapplication app

  unfoldable pub handle_sqbplane : SqbPlane → Exec op.World (Unit {0})
  unfolding delete_by_label Handler.deleted
  handle_sqbplane plane =
      if Handler.deleted op.sums plane.metadata
      then delete_by_label plane.namespace (made ((plane_key, plane.name) ∷ []))
      else pure tt
