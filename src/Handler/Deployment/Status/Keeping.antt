-- ===== src/Handler/Deployment/Status/Keeping.antt =====
-- The reconciliation of a deployment writes statuses and lets the deployment go; it deletes nothing.
use elastic_env_operator.Base.{
  ◌≡◌, refl, ok, err, panic, Result, Exec, pure, on_rest, ◌>>◌, String, List, [], made, ◌∷◌, Keeps,
  Keeps-bind, Keeps-on_rest, Keeps-on_object, index, is_empty, both_branches,
}
use elastic_env_operator.Api.Meta.{is_zero}
use elastic_env_operator.Api.Types.{SqbApplication, SqbPlane, sqb_application_obj, sqb_plane_obj}
use elastic_env_operator.Entity.Keys.{app_key, plane_key}
use elastic_env_operator.Entity.ConfigMap.{SqbConfigMapEntity}
use elastic_env_operator.Kinds.Workload.{Deployment, deployment_obj}
use elastic_env_operator.Cluster.{list_into, get}
use elastic_env_operator.Operator.{Operator}
use elastic_env_operator.Handler
use elastic_env_operator.Handler.Reconcile.{handle_reconcile}
use elastic_env_operator.Handler.Reconcile.Keeping.{handle_reconcile-Kept}
use elastic_env_operator.Handler.Guards.{
  create_or_update-Keeps, update_status-Keeps, KeepsWrites, KeepsAllWrites,
}
use elastic_env_operator.Handler.Deployment.Status.{
  with_status, plane_with_status, write_app, update_app, write_plane, update_plane,
  without_finalizer, release, update_both, operate, reconciler,
}

module _ (op : Operator) (P : op.World → Type 0) (planes : KeepsWrites P op.sqb_planes) where
  write_plane-Keeps :
      (items : List Deployment) (plane : Result SqbPlane) → Keeps P (write_plane op items plane)
  unfolding write_plane
  write_plane-Keeps items (ok plane) =
      let write = Handler.update_status op.sqb_planes (plane_with_status plane items) in
      both_branches (Keeps P) (is_zero plane.metadata.deletion_timestamp) (write >> pure tt)
        (pure tt)
        (Keeps-bind P write (λ _. pure tt)
          (update_status-Keeps P op.sqb_planes planes (plane_with_status plane items)) (λ _ w h. h))
        (λ w h. h)
  write_plane-Keeps items (err e) = λ w h. h
  write_plane-Keeps items panic = λ w h. h

  pub update_plane-Keeps :
      (namespace plane : String) (before : List Deployment)
      → Keeps P (update_plane op namespace plane before)
  unfolding update_plane list_into
  update_plane-Keeps namespace plane before =
      let write : List Deployment → Exec op.World (Unit {0}) =
        λ items w. write_plane op items (op.sqb_planes.get namespace plane w) w in
      both_branches (Keeps P) (is_empty plane) (pure tt) _ (λ w h. h)
        (Keeps-bind P (list_into op.deployments namespace (made ((plane_key, plane) ∷ [])) before)
          write (λ w h. h)
          (λ items w h. write_plane-Keeps items (op.sqb_planes.get namespace plane w) w h))

module _ (op : Operator) (P : op.World → Type 0) (deployments : KeepsWrites P op.deployments) where
  pub release-Keeps : Keeps (λ (s : Deployment × op.World). P s.1) (release op)
  unfolding release
  release-Keeps (dep, w) h =
      both_branches (λ (x : Result (Unit {0}) × (Deployment × op.World)). P x.1.1)
        (is_zero dep.metadata.deletion_timestamp) (ok tt, (dep, w)) _ h
        (Keeps-on_object P (Handler.create_or_update op.deployments)
          (create_or_update-Keeps P op.deployments deployments) (without_finalizer op dep, w) h)

module _ (op : Operator) (P : op.World → Type 0) (writes : KeepsAllWrites op P) where
  write_app-Keeps :
      (items : List Deployment) (app : Result SqbApplication) → Keeps P (write_app op items app)
  unfolding write_app
  write_app-Keeps items (ok app) =
      let write = Handler.update_status op.sqb_applications (with_status app items) in
      both_branches (Keeps P) (is_zero app.metadata.deletion_timestamp) (write >> pure tt) (pure tt)
        (Keeps-bind P write (λ _. pure tt)
          (update_status-Keeps P op.sqb_applications writes.sqb_applications
            (with_status app items))
          (λ _ w h. h))
        (λ w h. h)
  write_app-Keeps items (err e) = λ w h. h
  write_app-Keeps items panic = λ w h. h

  update_app-Keeps : (namespace app : String) → Keeps P (update_app op namespace app)
  unfolding update_app list_into
  update_app-Keeps namespace app =
      let write : List Deployment → Exec op.World (Unit {0}) =
        λ items w. write_app op items (op.sqb_applications.get namespace app w) w in
      both_branches (Keeps P) (is_empty app) (pure []) _ (λ w h. h)
        (Keeps-bind P (list_into op.deployments namespace (made ((app_key, app) ∷ [])) [])
          (λ items. write items >> pure items) (λ w h. h)
          (λ items.
            Keeps-bind P (write items) (λ _. pure items)
              (λ w h. write_app-Keeps items (op.sqb_applications.get namespace app w) w h)
              (λ _ w h. h)))

  update_both-Keeps : (dep : Deployment) → Keeps P (update_both op dep)
  unfolding update_both
  update_both-Keeps dep =
      Keeps-bind P (update_app op dep.metadata.namespace (index dep.metadata.labels app_key))
        (update_plane op dep.metadata.namespace (index dep.metadata.labels plane_key))
        (update_app-Keeps dep.metadata.namespace (index dep.metadata.labels app_key))
        (update_plane-Keeps op P writes.sqb_planes dep.metadata.namespace
          (index dep.metadata.labels plane_key))

  operate-Keeps : Keeps (λ (s : Deployment × op.World). P s.1) (operate op)
  unfolding operate
  operate-Keeps =
      Keeps-bind (λ (s : Deployment × op.World). P s.1) (on_rest (update_both op)) (λ _. release op)
        (Keeps-on_rest P (update_both op) update_both-Keeps)
        (λ _. release-Keeps op P writes.deployments)

  -- The reconciliation of a request for a deployment deletes nothing, whatever it reads: each
  -- property of the cluster survives that all writes keep.
  pub deployment_request_deletes_nothing :
      (sc : SqbConfigMapEntity) (namespace name : String) (w : op.World)
      → P w
      → P (handle_reconcile (reconciler op namespace name) sc w).1
  unfolding reconciler get
  deployment_request_deletes_nothing sc namespace name w h =
      handle_reconcile-Kept P (λ dep. ok dep ≡ ok dep) (reconciler op namespace name)
        (record {
          get_instance = λ w h. h;
          is_initialized = λ dep w l h. (h, l);
          operate = λ dep w l h. operate-Keeps (dep, w) h;
          reconcile_fail = λ e dep w h. h;
        })
        sc w (λ dep _. refl) h
