-- ===== src/System/Laws.antt =====
-- What no run of the operator does, whatever the order of its requests, loads and timers.
use elastic_env_operator.Base.{
  String, ◌≡◌, refl, sym, ◌∙◌, false, ok, err, panic, Result, Map, arith,
}
use elastic_env_operator.Api.Types.{sqb_application_obj, sqb_deployment_obj, sqb_plane_obj}
use elastic_env_operator.Kinds.Workload.{deployment_obj}
use elastic_env_operator.Entity.ConfigMap.{Json, SqbConfigMapEntity, from_map, fire}
use elastic_env_operator.Operator.{Operator}
use elastic_env_operator.Controllers.{reconcile_config_map}
use elastic_env_operator.Controllers.Requests.{
  Request, for_application, for_sqb_deployment, for_plane, for_deployment, IsLive, reconcile,
  reconcile_application, reconcile_sqb_deployment, reconcile_plane, reconcile_deployment,
}
use elastic_env_operator.Handler.Reconcile.Laws.{reconcile_not_ready}
use elastic_env_operator.Handler.SqbApplication
use elastic_env_operator.Handler.SqbDeployment
use elastic_env_operator.Handler.SqbPlane
use elastic_env_operator.Handler.Deployment.Status
use elastic_env_operator.Handler.Deployment.Status.Keeping.{deployment_request_deletes_nothing}
use elastic_env_operator.Handler.Guards.{KeepsDeletes, KeepsAllWrites}
use elastic_env_operator.Handler.Guards.Marks.{AnswersMark}
use elastic_env_operator.Handler.Guards.Requests.{
  request_deletes_at_most, application_request_deletes_at_most, plane_request_deletes_nothing,
}
use elastic_env_operator.System.{with_config, State, request, load, ring, others, Run, start, next}

-- What others do to the cluster keeps the property.
abbrev pub OthersKeep : {W : Type 0} → (W → W → Type 0) → (W → Type 0) → Type 0
OthersKeep {W} Others P = (w w' : W) → Others w w' → P w → P w'

ready-reconcile_config_map :
    (json : Json) (read : Result (Map String)) (sc : SqbConfigMapEntity)
    → (reconcile_config_map json read sc).1.ready ≡ sc.ready
unfolding reconcile_config_map from_map
ready-reconcile_config_map json (ok m) sc = refl
ready-reconcile_config_map json (err e) sc = refl
ready-reconcile_config_map json panic sc = refl

-- Before the operator is ready a request changes nothing.
reconcile_unready :
    (op : Operator) (P : op.World → Type 0) (r : Request) (w : op.World) (sc : SqbConfigMapEntity)
    → sc.ready ≡ false
    → P w
    → P (reconcile (with_config op sc) r w).1
unfolding reconcile reconcile_application reconcile_sqb_deployment reconcile_plane
    reconcile_deployment
reconcile_unready op P (for_application namespace name) w sc e h =
    rw
      (reconcile_not_ready (SqbApplication.reconciler (with_config op sc) namespace name) sc w
        (ground (arith, e)))
      h
reconcile_unready op P (for_sqb_deployment namespace name) w sc e h =
    rw
      (reconcile_not_ready (SqbDeployment.reconciler (with_config op sc) namespace name) sc w
        (ground (arith, e)))
      h
reconcile_unready op P (for_plane namespace name) w sc e h =
    rw
      (reconcile_not_ready (SqbPlane.reconciler (with_config op sc) namespace name) sc w
        (ground (arith, e)))
      h
reconcile_unready op P (for_deployment namespace name) w sc e h =
    rw
      (reconcile_not_ready (Status.reconciler (with_config op sc) namespace name) sc w
        (ground (arith, e)))
      h

-- In every run of the operator from its start to a state in which it is not ready, whatever
-- requests came, the operator has not changed the cluster: each property of it survives that the
-- others keep.
pub run_unready :
    (op : Operator) (P : op.World → Type 0)
    (Comes : SqbConfigMapEntity → Request → op.World → Type 0)
    (Others : op.World → op.World → Type 0)
    → OthersKeep Others P
    → (w : op.World) (s : State op) → P w
    → Run op Comes Others w s
    → s.1.ready ≡ false
    → P s.0
unfolding fire
run_unready op P Comes Others keep w s h start e = h
run_unready op P Comes Others keep w s h (next run (request r w' sc c)) e =
    reconcile_unready op P r w' sc e (run_unready op P Comes Others keep w (w', sc) h run e)
run_unready op P Comes Others keep w s h (next run (load read w' sc)) e =
    run_unready op P Comes Others keep w (w', sc) h run
      (sym (ready-reconcile_config_map op.json read sc) ∙ e)
run_unready op P Comes Others keep w s h (next run (ring w' sc delay rest t)) e = absurd (cc e)
run_unready op P Comes Others keep w s h (next run (others w' w'' sc o)) e =
    keep w' w'' o (run_unready op P Comes Others keep w (w', sc) h run e)

-- The same cluster with another configuration.
with_config-KeepsAllWrites :
    (op : Operator) (P : op.World → Type 0) (sc : SqbConfigMapEntity)
    → KeepsAllWrites op P
    → KeepsAllWrites (with_config op sc) P
with_config-KeepsAllWrites op P sc k = record {
  sqb_applications = k.sqb_applications;
  sqb_deployments = k.sqb_deployments;
  sqb_planes = k.sqb_planes;
  deployments = k.deployments;
  services = k.services;
  ingresses = k.ingresses;
  pvcs = k.pvcs;
  virtual_services = k.virtual_services;
  vm_service_scrapes = k.vm_service_scrapes;
}

with_config-AnswersMark :
    (op : Operator) (sc : SqbConfigMapEntity) → AnswersMark op → AnswersMark (with_config op sc)
with_config-AnswersMark op sc answers = record { create = answers.create; update = answers.update }

-- The deletions that a reconciliation of a live object may make.
pub record KeepsLooseDeletes (op : Operator) (P : op.World → Type 0) : Type 0 where
  pub ingresses : KeepsDeletes P op.ingresses
  pub pvcs : KeepsDeletes P op.pvcs
  pub virtual_services : KeepsDeletes P op.virtual_services
  pub vm_service_scrapes : KeepsDeletes P op.vm_service_scrapes

module _ (op : Operator) (P : op.World → Type 0) (writes : KeepsAllWrites op P)
    (deletes : KeepsLooseDeletes op P) (answers : AnswersMark op) where
  reconcile_live :
      (r : Request) (w : op.World) (sc : SqbConfigMapEntity)
      → IsLive (with_config op sc) r w
      → P w
      → P (reconcile (with_config op sc) r w).1
  unfolding reconcile reconcile_application reconcile_sqb_deployment reconcile_plane
      reconcile_deployment
  reconcile_live (for_application namespace name) w sc live h =
      application_request_deletes_at_most (with_config op sc) P
        (with_config-KeepsAllWrites op P sc writes) deletes.ingresses deletes.vm_service_scrapes sc
        namespace name w live h
  reconcile_live (for_sqb_deployment namespace name) w sc live h =
      request_deletes_at_most (with_config op sc) P (with_config-KeepsAllWrites op P sc writes)
        deletes.ingresses deletes.pvcs deletes.virtual_services
        (with_config-AnswersMark op sc answers) sc namespace name w live h
  reconcile_live (for_plane namespace name) w sc live h =
      plane_request_deletes_nothing (with_config op sc) P
        (with_config-KeepsAllWrites op P sc writes) sc namespace name w live h
  reconcile_live (for_deployment namespace name) w sc live h =
      deployment_request_deletes_nothing (with_config op sc) P
        (with_config-KeepsAllWrites op P sc writes) sc namespace name w h

  -- In every run of the operator, of requests for objects that do not count as deleted, loads of
  -- the configuration, timers and what others do, in any order, the operator deletes ingresses,
  -- claims, virtual services and scrapes at most: each property of the cluster survives that these
  -- deletions, all writes and the others keep, where the server answers a write of an SQBDeployment
  -- with one that counts as deleted when the written one does.
  pub run_deletes_at_most :
      (Others : op.World → op.World → Type 0)
      → OthersKeep Others P
      → (w : op.World) (s : State op) → P w
      → Run op (λ sc. IsLive (with_config op sc)) Others w s
      → P s.0
  run_deletes_at_most Others keep w s h start = h
  run_deletes_at_most Others keep w s h (next run (request r w' sc live)) =
      reconcile_live r w' sc live (run_deletes_at_most Others keep w (w', sc) h run)
  run_deletes_at_most Others keep w s h (next run (load read w' sc)) =
      run_deletes_at_most Others keep w (w', sc) h run
  run_deletes_at_most Others keep w s h (next run (ring w' sc delay rest t)) =
      run_deletes_at_most Others keep w (w', sc) h run
  run_deletes_at_most Others keep w s h (next run (others w' w'' sc o)) =
      keep w' w'' o (run_deletes_at_most Others keep w (w', sc) h run)
