-- ===== src/Handler.antt =====
-- domain/handler: what the reconcilers of all kinds share (handler.go).
pub mod Reconcile
pub mod Laws
pub mod Service
pub mod Monitoring
pub mod Settings
pub mod VirtualService
pub mod Istio
pub mod Pvc
pub mod Ingress
pub mod SqbDeploymentList
pub mod SqbPlane
pub mod SqbApplication
pub mod Deployment
pub mod SqbDeployment
pub mod Selection
pub mod Writing
pub mod Serving
pub mod Marking
pub mod Running
pub mod Guards
use elastic_env_operator.Base.{
  String, ◌<>◌, Bool, true, false, ◌==◌, Option, none, some, get?, has, Error, errorf, Result, ok,
  err, panic, Exec, pure, lift, raise, ◌>>=◌, if◌then◌else◌,
}
use elastic_env_operator.Api.Meta.{ObjectMeta, RuntimeObj, meta, is_zero}
use elastic_env_operator.Entity.Keys.{kubevela_app_name_label, explicit_delete_annotation_key}
use elastic_env_operator.Util.{get_delete_check_sum}
use elastic_env_operator.Cluster.{Resource}
use elastic_env_operator.Operator.{Checksum}

module _ {W O : Type 0} ⦃r : RuntimeObj O⦄ (client : Resource W O) where
  -- CreateOrUpdate. The object comes back as the server returned it.
  unfoldable pub create_or_update : O → Exec W O
  create_or_update obj =
      if is_zero (meta obj).creation_timestamp
      then client.create obj
      else if has (meta obj).labels kubevela_app_name_label
      then pure obj
      else client.update obj

  -- UpdateStatus
  unfoldable pub update_status : O → Exec W O
  update_status obj = client.update_status obj

  abbrev ignore_not_found : Result (Unit {0}) → Result (Unit {0})
  ignore_not_found (ok u) = ok u
  ignore_not_found (err e) = if e.is_not_found then ok tt else err e
  ignore_not_found panic = panic

  -- Delete
  unfoldable pub delete : O → Exec W (Unit {0})
  delete obj w =
      if has (meta obj).labels kubevela_app_name_label
      then (ok tt, w)
      else let (result, w') = client.delete obj w in (ignore_not_found result, w')

-- The annotation, if there is one, against the checksum that is expected.
unfoldable pub compare_sum : String → Option String → Result Bool
compare_sum expected none = ok false
compare_sum expected (some sum) =
    if sum == expected then ok true else err (errorf ("delete annotation " <> (sum <> " is wrong")))

abbrev pub succeeded : Result Bool → Bool
succeeded (ok b) = b
succeeded (err e) = false
succeeded panic = false

module _ (sums : Checksum) where
  -- IsDeleted
  unfoldable pub is_deleted : ObjectMeta → Result Bool
  unfolding get_delete_check_sum compare_sum
  is_deleted m =
      compare_sum (get_delete_check_sum sums.md5_hex sums.salt m.name)
        (get? m.annotations explicit_delete_annotation_key)

  -- `deleted, _ := IsDeleted(obj)`
  unfoldable pub deleted : ObjectMeta → Bool
  unfolding is_deleted
  deleted m = succeeded (is_deleted m)
