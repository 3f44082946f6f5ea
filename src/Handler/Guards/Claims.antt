-- ===== src/Handler/Guards/Claims.antt =====
-- What the handler of volume claims keeps.
use elastic_env_operator.Base.{
  ◌≡◌, refl, String, false, not, List, [], ◌∷◌, Result, ok, err, panic, pure, Keeps, Keeps-bind,
  both_branches,
}
use elastic_env_operator.Api.Types.{SqbDeployment, VolumeSpec, sqb_deployment_obj}
use elastic_env_operator.Kinds.Core.{
  PersistentVolumeClaim, ingress_obj, pvc_obj, service_obj, new_pvc,
}
use elastic_env_operator.Kinds.Istio.{virtual_service_obj}
use elastic_env_operator.Kinds.Monitoring.{scrape_obj}
use elastic_env_operator.Kinds.Workload.{deployment_obj}
use elastic_env_operator.Entity.ConfigMap.{is_pvc_enable}
use elastic_env_operator.Util.{contain_string}
use elastic_env_operator.Operator.{Operator}
use elastic_env_operator.Handler
use elastic_env_operator.Handler.{deleted}
use elastic_env_operator.Handler.Pvc
use elastic_env_operator.Handler.Guards.{
  KeepsDeletes, KeepsWrites, create_or_update-Keeps, delete-Keeps,
}

module _ (op : Operator) (P : op.World → Type 0) (writes : KeepsWrites P op.pvcs) where
  claim_missing-keeps :
      (d : SqbDeployment) (name : String) (found : Result PersistentVolumeClaim)
      → Keeps P (Pvc.claim_missing op d name found)
  unfolding Pvc.claim_missing
  claim_missing-keeps d name (ok pvc) w h = h
  claim_missing-keeps d name (err e) w h =
      both_branches (λ (x : Result (Unit {0}) × op.World). P x.1) e.is_not_found _ _
        (Keeps-bind P (Handler.create_or_update op.pvcs (Pvc.new_claim d name)) (λ _. pure tt)
          (create_or_update-Keeps P op.pvcs writes (Pvc.new_claim d name)) (λ _ s k. k) w h)
        h
  claim_missing-keeps d name panic w h = h

  create_missing-Keeps :
      (d : SqbDeployment) (name : String) → Keeps P (Pvc.create_missing op d name)
  unfolding Pvc.create_missing
  create_missing-Keeps d name w h = claim_missing-keeps d name (op.pvcs.get d.namespace name w) w h

  go_on-keeps :
      (v : VolumeSpec) (vs : List VolumeSpec) (created : Result (Unit {0}) × op.World)
      (later : Result (List String) × List VolumeSpec × op.World)
      → P created.1
      → P later.2
      → P (Pvc.go_on op v vs created later).2
  unfolding Pvc.go_on
  go_on-keeps v vs (ok u, w) later h k = k
  go_on-keeps v vs (err e, w) later h k = h
  go_on-keeps v vs (panic, w) later h k = h

  ensure-keeps :
      (d : SqbDeployment) (vs : List VolumeSpec) (exists : List String) (w : op.World)
      → P w
      → P (Pvc.ensure op d vs exists w).2
  unfolding Pvc.ensure
  ensure-keeps d [] exists w h = h
  ensure-keeps d (v ∷ vs) exists w h =
      let name = (Pvc.named_volume op d v).persistent_volume_claim_name in
      let h' = create_missing-Keeps d name w h in
      both_branches (λ (x : Result (List String) × List VolumeSpec × op.World). P x.2)
        (not v.persistent_volume_claim) _ _ (ensure-keeps d vs exists w h)
        (both_branches (λ (x : Result (List String) × List VolumeSpec × op.World). P x.2)
          (contain_string exists name) _ _ (ensure-keeps d vs (Pvc.without name exists) w h)
          (go_on-keeps _ vs (Pvc.create_missing op d name w) _ h'
            (ensure-keeps d vs exists (Pvc.create_missing op d name w).1 h')))

  delete_unused-Keeps :
      KeepsDeletes P op.pvcs
      → (d : SqbDeployment) (names : List String) → Keeps P (Pvc.delete_unused op d names)
  unfolding Pvc.delete_unused
  delete_unused-Keeps k d [] = λ w h. h
  delete_unused-Keeps k d (name ∷ names) =
      Keeps-bind P _ _ (delete-Keeps P op.pvcs k (new_pvc d.namespace name))
        (λ _. delete_unused-Keeps k d names)

  after_ensure-keeps :
      KeepsDeletes P op.pvcs
      → (d : SqbDeployment) (x : Result (List String) × List VolumeSpec × op.World) → P x.2
      → P (Pvc.after_ensure op d x).1.1 × ((Pvc.after_ensure op d x).1.0.metadata ≡ d.metadata)
  unfolding Pvc.after_ensure
  after_ensure-keeps k d (ok exists, volumes, w) h =
      (delete_unused-Keeps k (Pvc.with_volumes d volumes) exists w h, refl)
  after_ensure-keeps k d (err e, volumes, w) h = (h, refl)
  after_ensure-keeps k d (panic, volumes, w) h = (h, refl)

  pub after_list-keeps :
      KeepsDeletes P op.pvcs
      → (d : SqbDeployment) (x : Result (List PersistentVolumeClaim) × op.World) → P x.1
      → P (Pvc.after_list op d x).1.1 × ((Pvc.after_list op d x).1.0.metadata ≡ d.metadata)
  unfolding Pvc.after_list
  after_list-keeps k d (ok pvcs, w) h =
      after_ensure-keeps k d (Pvc.ensure op d d.spec.volumes (Pvc.names pvcs) w)
        (ensure-keeps d d.spec.volumes (Pvc.names pvcs) w h)
  after_list-keeps k d (err e, w) h = (h, refl)
  after_list-keeps k d (panic, w) h = (h, refl)

  -- The handler of an SQBDeployment that does not count as deleted deletes claims only, and leaves
  -- the metadata of the SQBDeployment.
  pub handle_claims-keeps :
      KeepsDeletes P op.pvcs
      → (d : SqbDeployment) (w : op.World) → deleted op.sums d.metadata ≡ false
      → P w
      → P (Pvc.handle op (d, w)).1.1 × ((Pvc.handle op (d, w)).1.0.metadata ≡ d.metadata)
  unfolding Pvc.handle Pvc.create_or_update Pvc.get_pvc_list
  handle_claims-keeps k d w e h =
      let m = d.metadata in
      rw e (
        both_branches
          (λ (x : Result (Unit {0}) × (SqbDeployment × op.World)). P x.1.1 × (x.1.0.metadata ≡ m))
          (not (is_pvc_enable op.config)) _ _ (h, refl)
          (after_list-keeps k d (Pvc.get_pvc_list op d w) h))
