-- ===== src/Handler/Pvc.antt =====
-- pvc_handler.go: the persistent volume claims of a deployment. The claim names that it fills in
-- are written into the deployment's own volumes, so the handler works on the deployment and the
-- cluster.
pub mod Laws
use elastic_env_operator.Base.{
  String, ◌<>◌, Bool, true, false, not, ◌==◌, Option, none, some, List, [], ◌∷◌, Map, made, index,
  is_empty, Result, ok, err, panic, Exec, pure, crash, ◌>>=◌, ◌>>◌, if◌then◌else◌,
}
use elastic_env_operator.Api.Types.{VolumeSpec, SqbDeployment}
use elastic_env_operator.Entity.Keys.{app_key, plane_key, group_key}
use elastic_env_operator.Entity.ConfigMap.{is_pvc_enable}
use elastic_env_operator.Util.{merge_string_map, contain_string}
use elastic_env_operator.Kinds.Core.{PersistentVolumeClaim, new_pvc, pvc_obj}
use elastic_env_operator.Cluster.{list_into}
use elastic_env_operator.Operator.{Operator}
use elastic_env_operator.Handler

unfoldable pub names : List PersistentVolumeClaim → List String
names [] = []
names (pvc ∷ pvcs) = pvc.metadata.name ∷ names pvcs

-- delete(exists, name), of the set of names as a list
unfoldable pub without : String → List String → List String
without name [] = []
without name (n ∷ ns) = let rest = without name ns in if n == name then rest else n ∷ rest

-- The claim that is created for a volume.
unfoldable pub new_claim : SqbDeployment → String → PersistentVolumeClaim
unfolding merge_string_map
new_claim d name =
    let group = index d.labels group_key in
    let blank = new_pvc d.namespace name in
    record {
      metadata = record blank.metadata { labels = merge_string_map blank.metadata.labels d.labels };
      access_modes = "ReadWriteMany" ∷ [];
      storage_request = "2Gi";
      storage_class_name = some (if is_empty group then "ack-qa" else "ack" <> ("-" <> group));
    }

-- The deployment with other volumes.
abbrev pub with_volumes : SqbDeployment → List VolumeSpec → SqbDeployment
with_volumes d volumes = record d {
  spec = record d.spec { deploy_spec = record d.spec.deploy_spec { volumes = volumes } };
}

module _ (op : Operator) where
  -- getPVCName
  unfoldable pub get_pvc_name : SqbDeployment → String → String
  get_pvc_name d mount_path =
      index d.labels app_key
      <> ("-"
          <> (index d.labels plane_key
              <> ("-"
                  <> op.sums.md5_hex (mount_path <> op.time_string d.metadata.creation_timestamp))))

  -- The volume with its claim's name filled in.
  unfoldable pub named_volume : SqbDeployment → VolumeSpec → VolumeSpec
  unfolding get_pvc_name
  named_volume d v =
      if is_empty v.persistent_volume_claim_name
      then record v { persistent_volume_claim_name = get_pvc_name d v.mount_path }
      else v

  -- getPVCList
  unfoldable pub get_pvc_list : SqbDeployment → Exec op.World (List PersistentVolumeClaim)
  unfolding list_into
  get_pvc_list d =
      list_into op.pvcs d.namespace
        (made ((app_key, index d.labels app_key) ∷ (plane_key, index d.labels plane_key) ∷ [])) []

  unfoldable pub claim_missing :
      SqbDeployment → String → Result PersistentVolumeClaim → Exec op.World (Unit {0})
  unfolding new_claim Handler.create_or_update
  claim_missing d name (ok pvc) w = (ok tt, w)
  claim_missing d name (err e) w =
      if e.is_not_found
      then (Handler.create_or_update op.pvcs (new_claim d name) >> pure tt) w
      else (err e, w)
  claim_missing d name panic w = (panic, w)

  -- The claim of one volume that no listed claim serves.
  unfoldable pub create_missing : SqbDeployment → String → Exec op.World (Unit {0})
  unfolding claim_missing
  create_missing d name w = claim_missing d name (op.pvcs.get d.namespace name w) w

  -- The rest of the loop, after the claim of a volume.
  unfoldable pub go_on :
      VolumeSpec
      → List VolumeSpec
      → Result (Unit {0}) × op.World
      → Result (List String) × List VolumeSpec × op.World
      → Result (List String) × List VolumeSpec × op.World
  go_on v vs (ok u, w) later = (later.0, v ∷ later.1, later.2)
  go_on v vs (err e, w) later = (err e, v ∷ vs, w)
  go_on v vs (panic, w) later = (panic, v ∷ vs, w)

  -- The loop over the volumes: the names of claims that are not used yet, and the volumes as they
  -- are left. On an error the volumes that were not visited stay as they were.
  unfoldable pub ensure :
      SqbDeployment
      → List VolumeSpec
      → List String
      → op.World
      → Result (List String) × List VolumeSpec × op.World
  unfolding named_volume create_missing without go_on contain_string
  ensure d [] exists w = (ok exists, [], w)
  ensure d (v ∷ vs) exists w =
      let v' = named_volume d v in
      let name = v'.persistent_volume_claim_name in
      let skipped = ensure d vs exists w in
      let used = ensure d vs (without name exists) w in
      let created = create_missing d name w in
      let later = ensure d vs exists created.1 in
      if not v.persistent_volume_claim
      then (skipped.0, v ∷ skipped.1, skipped.2)
      else if contain_string exists name
      then (used.0, v' ∷ used.1, used.2)
      else go_on v' vs created later

  -- The claims that no volume uses any more.
  unfoldable pub delete_unused : SqbDeployment → List String → Exec op.World (Unit {0})
  unfolding Handler.delete
  delete_unused d [] = pure tt
  delete_unused d (name ∷ exists) = do
    Handler.delete op.pvcs (new_pvc d.namespace name)
    delete_unused d exists

  abbrev on_world :
      SqbDeployment → Result (Unit {0}) × op.World → Result (Unit {0}) × (SqbDeployment × op.World)
  on_world d (result, w) = (result, (d, w))

  unfoldable pub after_ensure :
      SqbDeployment
      → Result (List String) × List VolumeSpec × op.World
      → Result (Unit {0}) × (SqbDeployment × op.World)
  unfolding delete_unused
  after_ensure d (ok exists, volumes, w) =
      on_world (with_volumes d volumes) (delete_unused d exists w)
  after_ensure d (err e, volumes, w) = (err e, (with_volumes d volumes, w))
  after_ensure d (panic, volumes, w) = (panic, (with_volumes d volumes, w))

  unfoldable pub after_list :
      SqbDeployment
      → Result (List PersistentVolumeClaim) × op.World
      → Result (Unit {0}) × (SqbDeployment × op.World)
  unfolding names ensure after_ensure
  after_list d (ok pvcs, w) = after_ensure d (ensure d d.spec.volumes (names pvcs) w)
  after_list d (err e, w) = (err e, (d, w))
  after_list d (panic, w) = (panic, (d, w))

  -- func (h *pvcHandler) CreateOrUpdate
  unfoldable pub create_or_update : Exec (SqbDeployment × op.World) (Unit {0})
  unfolding get_pvc_list after_list
  create_or_update (d, w) = after_list d (get_pvc_list d w)

  -- The loop of `Delete`. Where a claim cannot be deleted it returns the error of the list call,
  -- which is nil there.
  unfoldable pub delete_all : List PersistentVolumeClaim → Exec op.World (Unit {0})
  unfolding Handler.delete
  delete_all [] w = (ok tt, w)
  delete_all (pvc ∷ pvcs) w =
      let (result, w') = Handler.delete op.pvcs pvc w in
      let rest = delete_all pvcs w' in
      elim result [ ok u ↦ rest | err e ↦ (ok tt, w') | panic ↦ (panic, w') ]

  -- func (h *pvcHandler) Delete
  unfoldable pub delete : SqbDeployment → Exec op.World (Unit {0})
  unfolding get_pvc_list delete_all
  delete d = do pvcs ← get_pvc_list d; delete_all pvcs

  -- func (h *pvcHandler) Handle
  unfoldable pub handle : Exec (SqbDeployment × op.World) (Unit {0})
  unfolding create_or_update delete Handler.deleted
  handle (d, w) =
      if not (is_pvc_enable op.config)
      then (ok tt, (d, w))
      else if Handler.deleted op.sums d.metadata
      then on_world d (delete d w)
      else create_or_update (d, w)
