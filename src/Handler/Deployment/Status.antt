-- ===== src/Handler/Deployment/Status.antt =====
-- deployment_handler.go: the reconciler of deployments, which keeps the status of applications and
-- planes.
pub mod Laws
pub mod Keeping
pub mod Storing
use elastic_env_operator.Base.{
  on_rest, ℕ, String, Bool, true, false, not, ◌&&◌, ◌||◌, ◌==◌, Option, none, some, List, [], ◌∷◌,
  Map, nil, made, get?, index, Entries, insert, is_empty, Error, Result, ok, err, panic, Exec, pure,
  on_object, ◌>>=◌, ◌>>◌, if◌then◌else◌,
}
use elastic_env_operator.Api.Meta.{is_zero}
use elastic_env_operator.Api.Types.{
  SqbApplication, SqbApplicationStatus, SqbPlane, SqbPlaneStatus, sqb_application_obj,
  sqb_plane_obj,
}
use elastic_env_operator.Entity.Keys.{app_key, plane_key, finalizer}
use elastic_env_operator.Kinds.Workload.{Deployment, new_deployment, deployment_obj}
use elastic_env_operator.Cluster.{get, list_into}
use elastic_env_operator.Operator.{Operator}
use elastic_env_operator.Handler
use elastic_env_operator.Handler.Reconcile.{SqbReconciler}

-- The loop over the deployments: a mirror for each that is not being deleted.
unfoldable pub mirrors_of : Entries ℕ → List Deployment → Entries ℕ
mirrors_of mirrors [] = mirrors
mirrors_of mirrors (x ∷ xs) =
    mirrors_of
      (if is_zero x.metadata.deletion_timestamp then insert x.metadata.name 1 mirrors else mirrors)
      xs

add_plane : Option String → Entries ℕ → Entries ℕ
add_plane none planes = planes
add_plane (some p) planes = insert p 1 planes

-- A plane for each of those that has the label.
unfoldable pub planes_of : Entries ℕ → List Deployment → Entries ℕ
unfolding add_plane
planes_of planes [] = planes
planes_of planes (x ∷ xs) =
    planes_of
      (if is_zero x.metadata.deletion_timestamp
        then add_plane (get? x.metadata.labels plane_key) planes
        else planes)
      xs

-- The application with the status that its deployments give.
unfoldable pub with_status : SqbApplication → List Deployment → SqbApplication
unfolding mirrors_of planes_of
with_status app items = record app {
  status = record {
    planes = made (planes_of [] items);
    mirrors = made (mirrors_of [] items);
    error_info = "";
  };
}

unfoldable pub plane_with_status : SqbPlane → List Deployment → SqbPlane
unfolding mirrors_of
plane_with_status plane items = record plane {
  status = record { mirrors = made (mirrors_of [] items); error_info = "" };
}

module _ (op : Operator) where
  write_app : List Deployment → Result SqbApplication → Exec op.World (Unit {0})
  unfolding with_status Handler.update_status
  write_app items (ok app) w =
      (if is_zero app.metadata.deletion_timestamp
          then Handler.update_status op.sqb_applications (with_status app items) >> pure tt
          else pure tt)
        w
  write_app items (err e) w = (if e.is_not_found then ok tt else err e, w)
  write_app items panic w = (panic, w)

  -- The part of `Operate` for the application: the items that were listed.
  unfoldable pub update_app : String → String → Exec op.World (List Deployment)
  unfolding write_app list_into
  update_app namespace app = if is_empty app then pure [] else do
    items ← list_into op.deployments namespace (made ((app_key, app) ∷ [])) []
    λ w. write_app items (op.sqb_applications.get namespace app w) w
    pure items

  write_plane : List Deployment → Result SqbPlane → Exec op.World (Unit {0})
  unfolding plane_with_status Handler.update_status
  write_plane items (ok plane) w =
      (if is_zero plane.metadata.deletion_timestamp
          then Handler.update_status op.sqb_planes (plane_with_status plane items) >> pure tt
          else pure tt)
        w
  write_plane items (err e) w = (if e.is_not_found then ok tt else err e, w)
  write_plane items panic w = (panic, w)

  -- The part for the plane, whose list call fills the list that the first part filled.
  unfoldable pub update_plane : String → String → List Deployment → Exec op.World (Unit {0})
  unfolding write_plane list_into
  update_plane namespace plane before = if is_empty plane then pure tt else do
    items ← list_into op.deployments namespace (made ((plane_key, plane) ∷ [])) before
    λ w. write_plane items (op.sqb_planes.get namespace plane w) w

  without_finalizer : Deployment → Deployment
  without_finalizer dep = record dep {
    metadata = record dep.metadata {
      finalizers = op.remove_finalizer dep.metadata.finalizers finalizer;
    };
  }

  -- The end of `Operate`: a deployment that is being deleted is let go.
  pub release : Exec (Deployment × op.World) (Unit {0})
  unfolding without_finalizer Handler.create_or_update
  release (dep, w) =
      if is_zero dep.metadata.deletion_timestamp
      then (ok tt, (dep, w))
      else on_object (Handler.create_or_update op.deployments) (without_finalizer dep, w)

  -- The two updates of `Operate`.
  unfoldable pub update_both : Deployment → Exec op.World (Unit {0})
  unfolding update_app update_plane
  update_both dep = do
    items ← update_app dep.metadata.namespace (index dep.metadata.labels app_key)
    update_plane dep.metadata.namespace (index dep.metadata.labels plane_key) items

  -- func (h *deploymentHandler) Operate
  unfoldable pub operate : Exec (Deployment × op.World) (Unit {0})
  unfolding update_both release
  operate = do on_rest update_both; release

  -- NewDeploymentHandlerWithReq, for a request of a namespace and a name. `ReconcileFail` does
  -- nothing.
  unfoldable pub reconciler : String → String → SqbReconciler op.World Deployment
  unfolding operate get
  reconciler namespace name = record {
    blank = new_deployment "" "";
    get_instance = get op.deployments namespace name;
    is_initialized = pure true;
    operate = operate;
    reconcile_fail = λ e. pure tt;
  }
