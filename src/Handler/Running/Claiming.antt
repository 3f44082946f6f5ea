-- ===== src/Handler/Running/Claiming.antt =====
-- The handler of the volume claims: what it leaves of the SQBDeployment, and that it ends well where
-- the server answers.
use elastic_env_operator.Base.{
  ◌≡◌, refl, false, not, String, List, [], ◌∷◌, Result, ok, err, panic, EndsWell, EndsWell-bind,
  pure, both_branches,
}
use elastic_env_operator.Api.Types.{SqbDeployment, VolumeSpec}
use elastic_env_operator.Entity.ConfigMap.{is_pvc_enable}
use elastic_env_operator.Kinds.Core.{PersistentVolumeClaim, pvc_obj, new_pvc}
use elastic_env_operator.Util.{contain_string}
use elastic_env_operator.Operator.{Operator}
use elastic_env_operator.Cluster.Answers.{Answers, IsAnswer, list_into-EndsWell}
use elastic_env_operator.Handler
use elastic_env_operator.Handler.{deleted}
use elastic_env_operator.Handler.Pvc
use elastic_env_operator.Handler.Writing.{create_or_update-EndsWell, delete-EndsWell}

abbrev pub HasValue : {A : Type 0} → Result A → Type 0
HasValue {A} r = (a : A) × (r ≡ ok a)

-- The handler of the claims changes the volumes of the SQBDeployment at most.
abbrev pub OnlyVolumes : SqbDeployment → SqbDeployment → Type 0
OnlyVolumes d d' = (volumes : List VolumeSpec) × (d' ≡ Pvc.with_volumes d volumes)

module _ (op : Operator) where
  after_ensure-OnlyVolumes :
      (d : SqbDeployment) (x : Result (List String) × List VolumeSpec × op.World)
      → OnlyVolumes d (Pvc.after_ensure op d x).1.0
  unfolding Pvc.after_ensure
  after_ensure-OnlyVolumes d (ok exists, volumes, w) = (volumes, refl)
  after_ensure-OnlyVolumes d (err e, volumes, w) = (volumes, refl)
  after_ensure-OnlyVolumes d (panic, volumes, w) = (volumes, refl)

  after_list-OnlyVolumes :
      (d : SqbDeployment) (x : Result (List PersistentVolumeClaim) × op.World)
      → OnlyVolumes d (Pvc.after_list op d x).1.0
  unfolding Pvc.after_list
  after_list-OnlyVolumes d (ok pvcs, w) = after_ensure-OnlyVolumes d _
  after_list-OnlyVolumes d (err e, w) = (d.spec.volumes, refl)
  after_list-OnlyVolumes d (panic, w) = (d.spec.volumes, refl)

  pub handle_claims-OnlyVolumes :
      (d : SqbDeployment) (w : op.World) → OnlyVolumes d (Pvc.handle op (d, w)).1.0
  unfolding Pvc.handle Pvc.create_or_update
  handle_claims-OnlyVolumes d w =
      let Same : Result (Unit {0}) × (SqbDeployment × op.World) → Type 0 =
        λ x. OnlyVolumes d x.1.0 in
      both_branches Same (not (is_pvc_enable op.config)) _ _ (d.spec.volumes, refl)
        (both_branches Same (deleted op.sums d.metadata) _ _ (d.spec.volumes, refl)
          (after_list-OnlyVolumes d (Pvc.get_pvc_list op d w)))

module _ (op : Operator) (answers : Answers op.pvcs) where
  claim_missing-EndsWell :
      (d : SqbDeployment) (name : String) (found : Result PersistentVolumeClaim)
      → IsAnswer found
      → EndsWell (Pvc.claim_missing op d name found)
  unfolding Pvc.claim_missing
  claim_missing-EndsWell d name (ok pvc) h = λ w. (tt, refl)
  claim_missing-EndsWell d name (err e) h = λ w. rw h (
      EndsWell-bind (Handler.create_or_update op.pvcs (Pvc.new_claim d name)) (λ _. pure tt)
        (create_or_update-EndsWell op.pvcs answers (Pvc.new_claim d name)) (λ _ w'. (tt, refl)) w)
  claim_missing-EndsWell d name panic h = elim h [ ]

  create_missing-EndsWell :
      (d : SqbDeployment) (name : String) → EndsWell (Pvc.create_missing op d name)
  unfolding Pvc.create_missing
  create_missing-EndsWell d name w =
      claim_missing-EndsWell d name (op.pvcs.get d.namespace name w)
        (answers.get d.namespace name w) w

  go_on-value :
      (v : VolumeSpec) (vs : List VolumeSpec) (created : Result (Unit {0}) × op.World)
      (later : Result (List String) × List VolumeSpec × op.World)
      → HasValue created.0
      → HasValue later.0
      → HasValue (Pvc.go_on op v vs created later).0
  unfolding Pvc.go_on
  go_on-value v vs (ok u, w) later h k = k
  go_on-value v vs (err e, w) later h k = absurd (cc h.1)
  go_on-value v vs (panic, w) later h k = absurd (cc h.1)

  ensure-value :
      (d : SqbDeployment) (vs : List VolumeSpec) (exists : List String) (w : op.World)
      → HasValue (Pvc.ensure op d vs exists w).0
  unfolding Pvc.ensure
  ensure-value d [] exists w = (exists, refl)
  ensure-value d (v ∷ vs) exists w =
      let name = (Pvc.named_volume op d v).persistent_volume_claim_name in
      let created = Pvc.create_missing op d name w in
      let Good : Result (List String) × List VolumeSpec × op.World → Type 0 = λ x. HasValue x.0 in
      both_branches Good (not v.persistent_volume_claim) _ _ (ensure-value d vs exists w) (
        both_branches Good (contain_string exists name) _ _
          (ensure-value d vs (Pvc.without name exists) w)
          (go_on-value _ vs created _ (create_missing-EndsWell d name w)
            (ensure-value d vs exists created.1)))

  delete_unused-EndsWell :
      (d : SqbDeployment) (names : List String) → EndsWell (Pvc.delete_unused op d names)
  unfolding Pvc.delete_unused
  delete_unused-EndsWell d [] = λ w. (tt, refl)
  delete_unused-EndsWell d (name ∷ names) =
      EndsWell-bind (Handler.delete op.pvcs (new_pvc d.namespace name))
        (λ _. Pvc.delete_unused op d names)
        (delete-EndsWell op.pvcs answers (new_pvc d.namespace name))
        (λ _. delete_unused-EndsWell d names)

  after_ensure-value :
      (d : SqbDeployment) (x : Result (List String) × List VolumeSpec × op.World)
      → HasValue x.0
      → HasValue (Pvc.after_ensure op d x).0
  unfolding Pvc.after_ensure
  after_ensure-value d (ok exists, volumes, w) h =
      delete_unused-EndsWell (Pvc.with_volumes d volumes) exists w
  after_ensure-value d (err e, volumes, w) h = absurd (cc h.1)
  after_ensure-value d (panic, volumes, w) h = absurd (cc h.1)

  after_list-value :
      (d : SqbDeployment) (x : Result (List PersistentVolumeClaim) × op.World)
      → HasValue x.0
      → HasValue (Pvc.after_list op d x).0
  unfolding Pvc.after_list
  after_list-value d (ok pvcs, w) h =
      after_ensure-value d (Pvc.ensure op d d.spec.volumes (Pvc.names pvcs) w)
        (ensure-value d d.spec.volumes (Pvc.names pvcs) w)
  after_list-value d (err e, w) h = absurd (cc h.1)
  after_list-value d (panic, w) h = absurd (cc h.1)

  -- The handler, for an SQBDeployment that does not count as deleted.
  pub handle_claims-value :
      (d : SqbDeployment) (w : op.World)
      → deleted op.sums d.metadata ≡ false
      → HasValue (Pvc.handle op (d, w)).0
  unfolding Pvc.handle Pvc.create_or_update Pvc.get_pvc_list
  handle_claims-value d w live = rw live (
      both_branches (λ (x : Result (Unit {0}) × (SqbDeployment × op.World)). HasValue x.0)
        (not (is_pvc_enable op.config)) _ _ (tt, refl)
        (after_list-value d (Pvc.get_pvc_list op d w)
          (list_into-EndsWell op.pvcs answers d.namespace _ [] w)))
