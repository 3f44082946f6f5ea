-- ===== src/Handler/Pvc/Laws.antt =====
-- What the loops over claims do.
use elastic_env_operator.Base.{
  ◌&&◌, String, ◌≡◌, ◌≢◌, Bool-cases, inl, inr, false, ◌==◌, eq_iff, eq_refl, List, [], ◌∷◌, All,
  Error, ok, err, arith, if◌then◌else◌,
}
use elastic_env_operator.Api.Types.{VolumeSpec, SqbDeployment}
use elastic_env_operator.Util.{contain_string}
use elastic_env_operator.Kinds.Core.{PersistentVolumeClaim, pvc_obj}
use elastic_env_operator.Operator.{Operator}
use elastic_env_operator.Handler
use elastic_env_operator.Handler.Pvc.{without, named_volume, ensure, delete_all, create_missing}

module _ (op : Operator) where
  -- A claim that cannot be deleted ends the deletion of a deployment's claims with success, and the
  -- claims after it are not tried.
  pub delete_all_swallows :
      (pvc : PersistentVolumeClaim) (pvcs : List PersistentVolumeClaim) (w w' : op.World)
      {e : Error}
      → Handler.delete op.pvcs pvc w ≡ (err e, w')
      → delete_all op (pvc ∷ pvcs) w ≡ (ok tt, w')
  unfolding delete_all
  delete_all_swallows pvc pvcs w w' h = ground arith

  -- The deletion of the claims of an SQBDeployment never returns an error of a deletion: what it
  -- returns is success or a panic.
  pub delete_all_succeeds :
      (pvcs : List PersistentVolumeClaim) (w : op.World) (e : Error)
      → (delete_all op pvcs w).0 ≢ err e
  unfolding delete_all
  delete_all_succeeds [] w e h = cc h
  delete_all_succeeds (pvc ∷ pvcs) w e h =
      ground (arith, delete_all_succeeds pvcs (Handler.delete op.pvcs pvc w).1 e)

contain_string-without :
    (name j : String) (ns : List String)
    → contain_string (without name ns) j ≡ (if name == j then false else contain_string ns j)
unfolding contain_string without
contain_string-without name j [] = ground arith
contain_string-without name j (n ∷ ns) =
    ground (arith, eq_iff n name, eq_iff n j, eq_iff name j, contain_string-without name j ns)

module _ (op : Operator) (d : SqbDeployment) where
  -- A claim is spared if the loop over the volumes leaves it out of those that are not used.
  abbrev pub IsSpared : List String → VolumeSpec → Type 0
  IsSpared unused v =
      (v.persistent_volume_claim
        && contain_string unused (named_volume op d v).persistent_volume_claim_name)
      ≡ false

  abbrev claim_name : VolumeSpec → String
  claim_name v = (named_volume op d v).persistent_volume_claim_name

  -- The claims that are left are among those that were there.
  ensure-subset :
      (vs : List VolumeSpec) (exists unused : List String) (w : op.World) (j : String)
      → (ensure op d vs exists w).0 ≡ ok unused
      → contain_string exists j ≡ false
      → contain_string unused j ≡ false
  unfolding ensure
  ensure-subset [] exists unused w j h n = ground arith
  ensure-subset (v ∷ vs) exists unused w j h n = ground (
    arith,
    ensure-subset vs exists unused w j,
    ensure-subset vs (without (claim_name v) exists) unused w j,
    ensure-subset vs exists unused (create_missing op d (claim_name v) w).1 j,
    contain_string-without (claim_name v) j exists,
  )

  -- After a loop over the volumes that succeeds, no claim that a volume names is among those that
  -- are deleted as unused.
  pub ensure_spares :
      (vs : List VolumeSpec) (exists unused : List String) (w : op.World)
      → (ensure op d vs exists w).0 ≡ ok unused
      → All (IsSpared unused) vs
  unfolding ensure
  ensure_spares [] exists unused w h = tt
  ensure_spares (v ∷ vs) exists unused w h = (
    elim (Bool-cases v.persistent_volume_claim) [
      | inr plain ↦ ground arith
      | inl flag ↦ ground (
        arith,
        ensure-subset vs (without (claim_name v) exists) unused w (claim_name v),
        ensure-subset vs exists unused (create_missing op d (claim_name v) w).1 (claim_name v),
        contain_string-without (claim_name v) (claim_name v) exists,
        eq_refl (claim_name v),
      )
    ],
    elim (Bool-cases v.persistent_volume_claim) [
      | inr plain ↦ ensure_spares vs exists unused w (ground arith)
      | inl flag ↦ elim (Bool-cases (contain_string exists (claim_name v))) [
        | inl listed ↦ ensure_spares vs (without (claim_name v) exists) unused w (ground arith)
        | inr missing ↦
            ensure_spares vs exists unused (create_missing op d (claim_name v) w).1 (ground arith)
      ]
    ],
  )
