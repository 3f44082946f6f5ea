-- ===== src/Handler/SqbPlane.antt =====
-- sqbplane_handler.go: the reconciler of planes.
pub mod Laws
use elastic_env_operator.Base.{
  String, Bool, true, false, nil, not, is_empty, Error, Exec, pure, lift, on_rest, on_object, ◌>>=◌,
  ◌>>◌, if◌then◌else◌, ok,
}
use elastic_env_operator.Api.Meta.{named}
use elastic_env_operator.Api.Types.{SqbPlane, sqb_plane_obj}
use elastic_env_operator.Cluster.{get}
use elastic_env_operator.Operator.{Operator}
use elastic_env_operator.Handler
use elastic_env_operator.Handler.Reconcile.{SqbReconciler}
use elastic_env_operator.Handler.SqbDeploymentList

-- &qav1alpha1.SQBPlane{}
abbrev pub new_plane : SqbPlane
new_plane = record {
  metadata = named "" "";
  spec = record { description = "" };
  status = record { mirrors = nil; error_info = "" };
}

abbrev pub with_error : SqbPlane → String → SqbPlane
with_error p message = record p { status = record p.status { error_info = message } }

module _ (op : Operator) where
  -- What `Operate` does after its handlers.
  unfoldable pub finish : Bool → Exec (SqbPlane × op.World) (Unit {0})
  unfolding Handler.delete Handler.update_status
  finish deleted (p, w) =
      if deleted
      then on_rest (Handler.delete op.sqb_planes) (p, w)
      else if not (is_empty p.status.error_info)
      then on_object (Handler.update_status op.sqb_planes) (with_error p "", w)
      else (ok tt, (p, w))

  -- func (h *sqbPlaneHandler) Operate
  unfoldable pub operate : Exec (SqbPlane × op.World) (Unit {0})
  unfolding Handler.is_deleted SqbDeploymentList.handle_sqbplane finish
  operate (p, w) =
      (do
        deleted ← lift (Handler.is_deleted op.sums p.metadata)
        on_rest (SqbDeploymentList.handle_sqbplane op)
        finish deleted)
        (p, w)

  -- func (h *sqbPlaneHandler) ReconcileFail
  unfoldable pub reconcile_fail : Error → Exec (SqbPlane × op.World) (Unit {0})
  unfolding Handler.update_status
  reconcile_fail e (p, w) =
      on_object (Handler.update_status op.sqb_planes) (with_error p e.message, w)

  -- NewSqbPlaneHanlder, for a request of a namespace and a name
  unfoldable pub reconciler : String → String → SqbReconciler op.World SqbPlane
  unfolding operate reconcile_fail get
  reconciler namespace name = record {
    blank = new_plane;
    get_instance = get op.sqb_planes namespace name;
    is_initialized = pure true;
    operate = operate;
    reconcile_fail = reconcile_fail;
  }
