-- ===== src/Handler/Guards/Requests.antt =====
-- What the reconciliation of a request deletes at most, where the object that is read does not count
-- as deleted.
use elastic_env_operator.Base.{
  is_empty, not, ◌≡◌, ◌∙◌, String, Bool, true, false, ok, err, panic, Result, on_object, pure,
  Keeps-bind, Keeps-on_object, index, ◌==◌, both_branches,
}
use elastic_env_operator.Api.Types.{
  SqbApplication, SqbDeployment, SqbPlane, sqb_deployment_obj, sqb_application_obj, sqb_plane_obj,
}
use elastic_env_operator.Entity.Keys.{initialize_annotation_key}
use elastic_env_operator.Entity.ConfigMap.{SqbConfigMapEntity}
use elastic_env_operator.Cluster.{get}
use elastic_env_operator.Operator.{Operator}
use elastic_env_operator.Handler
use elastic_env_operator.Handler.{is_deleted, deleted}
use elastic_env_operator.Handler.SqbDeploymentList
use elastic_env_operator.Handler.Reconcile.{handle_reconcile}
use elastic_env_operator.Handler.Reconcile.Keeping.{handle_reconcile-Kept}
use elastic_env_operator.Handler.SqbDeployment
use elastic_env_operator.Handler.SqbDeployment.{initialized}
use elastic_env_operator.Handler.SqbApplication
use elastic_env_operator.Handler.SqbPlane
use elastic_env_operator.Handler.Guards.{
  create_or_update-Keeps, update_status-Keeps, KeepsDeletes, KeepsAllWrites,
}
use elastic_env_operator.Handler.Guards.Reconcilers.{operate_deletes_at_most}
use elastic_env_operator.Handler.Guards.Applications.{application_deletes_at_most}
use elastic_env_operator.Handler.Guards.Marks.{AnswersMark, is_initialized-AgreesOn}

module _ (op : Operator) (P : op.World → Type 0) (writes : KeepsAllWrites op P) where
  initialize-keeps :
      (app : Result SqbApplication) (d : SqbDeployment) (w : op.World)
      → P w
      → P (SqbDeployment.initialize op app (d, w)).1.1
  unfolding SqbDeployment.initialize
  initialize-keeps (ok app) d w h =
      Keeps-bind (λ s. P s.1) (on_object (Handler.create_or_update op.sqb_deployments))
        (λ u. pure false)
        (Keeps-on_object P (Handler.create_or_update op.sqb_deployments)
          (create_or_update-Keeps P op.sqb_deployments writes.sqb_deployments))
        (λ u s k. k) (initialized op.config app d, w) h
  initialize-keeps (err e) d w h = h
  initialize-keeps panic d w h = h

  is_initialized-keeps :
      (d : SqbDeployment) (w : op.World) → P w → P (SqbDeployment.is_initialized op (d, w)).1.1
  unfolding SqbDeployment.is_initialized
  is_initialized-keeps d w h =
      both_branches (λ (x : Result Bool × (SqbDeployment × op.World)). P x.1.1)
        (index d.annotations initialize_annotation_key == "true") (ok true, (d, w)) _ h
        (initialize-keeps (op.sqb_applications.get d.namespace d.spec.selector.app w) d w h)

  -- The reconciliation of a request for an SQBDeployment, whatever it reads, writes and fails at,
  -- deletes ingresses, claims and virtual services at most, where what is read does not count as
  -- deleted and the server answers a write with an object that counts as deleted when the written
  -- one does: each property of the cluster survives that these deletions and all writes keep.
  pub request_deletes_at_most :
      KeepsDeletes P op.ingresses
      → KeepsDeletes P op.pvcs
      → KeepsDeletes P op.virtual_services
      → AnswersMark op
      → (sc : SqbConfigMapEntity) (namespace name : String) (w : op.World)
      → ((d : SqbDeployment)
          → op.sqb_deployments.get namespace name w ≡ ok d
          → is_deleted op.sums d.metadata ≡ ok false)
      → P w
      → P (handle_reconcile (SqbDeployment.reconciler op namespace name) sc w).1
  unfolding SqbDeployment.reconciler SqbDeployment.reconcile_fail get
  request_deletes_at_most ingresses claims specials answers sc namespace name w live h =
      handle_reconcile-Kept P (λ d. is_deleted op.sums d.metadata ≡ ok false)
        (SqbDeployment.reconciler op namespace name)
        (record {
          get_instance = λ w h. h;
          is_initialized =
              λ d w l h. (is_initialized-keeps d w h, is_initialized-AgreesOn op answers d w ∙ l);
          operate =
              λ d w l h. operate_deletes_at_most op P writes ingresses claims specials d w l h;
          reconcile_fail = λ e d w h.
              Keeps-on_object P (Handler.update_status op.sqb_deployments)
                (update_status-Keeps P op.sqb_deployments writes.sqb_deployments)
                (SqbDeployment.with_error d e.message, w) h;
        })
        sc w live h

  -- The reconciliation of a request for an application that does not count as deleted deletes
  -- ingresses and scrapes at most: each property of the cluster survives that these deletions and
  -- all writes keep.
  pub application_request_deletes_at_most :
      KeepsDeletes P op.ingresses
      → KeepsDeletes P op.vm_service_scrapes
      → (sc : SqbConfigMapEntity) (namespace name : String) (w : op.World)
      → ((app : SqbApplication)
          → op.sqb_applications.get namespace name w ≡ ok app
          → is_deleted op.sums app.metadata ≡ ok false)
      → P w
      → P (handle_reconcile (SqbApplication.reconciler op namespace name) sc w).1
  unfolding SqbApplication.reconciler SqbApplication.reconcile_fail get
  application_request_deletes_at_most ingresses scrapes sc namespace name w live h =
      handle_reconcile-Kept P (λ app. is_deleted op.sums app.metadata ≡ ok false)
        (SqbApplication.reconciler op namespace name)
        (record {
          get_instance = λ w h. h;
          is_initialized = λ app w l h. (h, l);
          operate =
              λ app w l h. application_deletes_at_most op P writes ingresses scrapes app w l h;
          reconcile_fail = λ e app w h.
              Keeps-on_object P (Handler.update_status op.sqb_applications)
                (update_status-Keeps P op.sqb_applications writes.sqb_applications)
                (SqbApplication.with_error app e.message, w) h;
        })
        sc w live h

  finish_plane : (p : SqbPlane) (w : op.World) → P w → P (SqbPlane.finish op false (p, w)).1.1
  unfolding SqbPlane.finish
  finish_plane p w h =
      both_branches (λ (x : Result (Unit {0}) × (SqbPlane × op.World)). P x.1.1)
        (not (is_empty p.status.error_info)) _ (ok tt, (p, w))
        (Keeps-on_object P (Handler.update_status op.sqb_planes)
          (update_status-Keeps P op.sqb_planes writes.sqb_planes) (SqbPlane.with_error p "", w) h)
        h

  plane_deletes_nothing :
      (p : SqbPlane) (w : op.World)
      → is_deleted op.sums p.metadata ≡ ok false
      → P w
      → P (SqbPlane.operate op (p, w)).1.1
  unfolding SqbPlane.operate SqbDeploymentList.handle_sqbplane deleted
  plane_deletes_nothing p w e h = rw e (rw e (finish_plane p w h))

  -- The reconciliation of a request for a plane that does not count as deleted deletes nothing:
  -- each property of the cluster survives that all writes keep.
  pub plane_request_deletes_nothing :
      (sc : SqbConfigMapEntity) (namespace name : String) (w : op.World)
      → ((p : SqbPlane)
          → op.sqb_planes.get namespace name w ≡ ok p
          → is_deleted op.sums p.metadata ≡ ok false)
      → P w
      → P (handle_reconcile (SqbPlane.reconciler op namespace name) sc w).1
  unfolding SqbPlane.reconciler SqbPlane.reconcile_fail get
  plane_request_deletes_nothing sc namespace name w live h =
      handle_reconcile-Kept P (λ p. is_deleted op.sums p.metadata ≡ ok false)
        (SqbPlane.reconciler op namespace name)
        (record {
          get_instance = λ w h. h;
          is_initialized = λ p w l h. (h, l);
          operate = λ p w l h. plane_deletes_nothing p w l h;
          reconcile_fail = λ e p w h.
              Keeps-on_object P (Handler.update_status op.sqb_planes)
                (update_status-Keeps P op.sqb_planes writes.sqb_planes)
                (SqbPlane.with_error p e.message, w) h;
        })
        sc w live h
