-- ===== src/Handler/Guards/Marks.antt =====
-- The first reconciliation of an SQBDeployment leaves the mark of its deletion.
use elastic_env_operator.Base.{
  continue_keeps, replaced, ◌≡◌, refl, ◌∙◌, Bool, true, false, ok, err, panic, Result, Exec, pure,
  index, ◌==◌, both_branches, has,
}
use elastic_env_operator.Api.Meta.{is_zero}
use elastic_env_operator.Api.Types.{
  SqbApplication, SqbDeployment, sqb_deployment_obj, sqb_application_obj, sqb_plane_obj,
}
use elastic_env_operator.Entity.Keys.{
  explicit_delete_annotation_key, initialize_annotation_key, kubevela_app_name_label,
}
use elastic_env_operator.Entity.ConfigMap.{SqbConfigMapEntity}
use elastic_env_operator.Operator.{Operator}
use elastic_env_operator.Handler
use elastic_env_operator.Handler.{is_deleted, deleted}
use elastic_env_operator.Handler.SqbDeployment
use elastic_env_operator.Handler.SqbDeployment.{initialized}
use elastic_env_operator.Handler.SqbDeployment.Laws.{get-initialized}

-- The server answers a write with an object whose annotations say the same of its deletion.
pub record AnswersMark (op : Operator) : Type 0 where
  pub create :
      (o o' : SqbDeployment) (w : op.World)
      → (op.sqb_deployments.create o w).0 ≡ ok o'
      → is_deleted op.sums o'.metadata ≡ is_deleted op.sums o.metadata
  pub update :
      (o o' : SqbDeployment) (w : op.World)
      → (op.sqb_deployments.update o w).0 ≡ ok o'
      → is_deleted op.sums o'.metadata ≡ is_deleted op.sums o.metadata

is_deleted-initialized :
    (op : Operator) (sc : SqbConfigMapEntity) (app : SqbApplication) (d : SqbDeployment)
    → is_deleted op.sums (initialized sc app d).metadata ≡ is_deleted op.sums d.metadata
unfolding is_deleted initialized
is_deleted-initialized op sc app d = rw (get-initialized sc app d explicit_delete_annotation_key)

module _ (op : Operator) (answers : AnswersMark op) where
  abbrev pub AgreesOn : SqbDeployment → SqbDeployment → Type 0
  AgreesOn o o' = is_deleted op.sums o'.metadata ≡ is_deleted op.sums o.metadata

  create_or_update-AgreesOn :
      (o o' : SqbDeployment) (w : op.World)
      → (Handler.create_or_update op.sqb_deployments o w).0 ≡ ok o'
      → AgreesOn o o'
  unfolding Handler.create_or_update
  create_or_update-AgreesOn o o' w =
      let Answer : Exec op.World SqbDeployment → Type 0 =
        λ act. (act w).0 ≡ ok o' → AgreesOn o o' in
      both_branches Answer (is_zero o.metadata.creation_timestamp) (op.sqb_deployments.create o) _
        (answers.create o o' w)
        (both_branches Answer (has o.metadata.labels kubevela_app_name_label) (pure o)
          (op.sqb_deployments.update o) (λ e. cc e) (answers.update o o' w))

  replaced-AgreesOn :
      (d o : SqbDeployment) (r : Result SqbDeployment) (w : op.World)
      → AgreesOn d o
      → ((o' : SqbDeployment) → r ≡ ok o' → AgreesOn o o')
      → AgreesOn d (replaced o r w).1.0
  replaced-AgreesOn d o (ok o') w h k = k o' refl ∙ h
  replaced-AgreesOn d o (err e) w h k = h
  replaced-AgreesOn d o panic w h k = h

  initialize-AgreesOn :
      (app : Result SqbApplication) (d : SqbDeployment) (w : op.World)
      → AgreesOn d (SqbDeployment.initialize op app (d, w)).1.0
  unfolding SqbDeployment.initialize
  initialize-AgreesOn (ok app) d w =
      let o = initialized op.config app d in
      let act = Handler.create_or_update op.sqb_deployments o w in
      continue_keeps (λ s. AgreesOn d s.0) (replaced o act.0 act.1).0 (λ u. pure false)
        (replaced o act.0 act.1).1
        (replaced-AgreesOn d o act.0 act.1 (is_deleted-initialized op op.config app d)
          (λ o' e. create_or_update-AgreesOn o o' w e))
        (λ u s h. h)
  initialize-AgreesOn (err e) d w = refl
  initialize-AgreesOn panic d w = refl

  pub is_initialized-AgreesOn :
      (d : SqbDeployment) (w : op.World) → AgreesOn d (SqbDeployment.is_initialized op (d, w)).1.0
  unfolding SqbDeployment.is_initialized
  is_initialized-AgreesOn d w =
      both_branches (λ (x : Result Bool × (SqbDeployment × op.World)). AgreesOn d x.1.0)
        (index d.annotations initialize_annotation_key == "true") (ok true, (d, w)) _ refl
        (initialize-AgreesOn (op.sqb_applications.get d.namespace d.spec.selector.app w) d w)
