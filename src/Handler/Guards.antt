-- ===== src/Handler/Guards.antt =====
-- What the operator deletes: the rules by which a property of the cluster survives its handlers.
-- A property that all writes of a kind keep stands for any trace that a deletion would leave.
pub mod Claims
pub mod Handlers
pub mod Applications
pub mod Reconcilers
pub mod Ingresses
pub mod Domains
pub mod Marks
pub mod Requests
pub mod LastDeletion
use elastic_env_operator.Base.{
  Bool, true, false, Exec, Result, ok, err, panic, pure, Keeps, Keeps-bind, Keeps-if, if◌then◌else◌,
  String, Map, List, has, Bool-cases, inl, inr,
}
use elastic_env_operator.Api.Meta.{RuntimeObj, meta, is_zero}
use elastic_env_operator.Entity.Keys.{kubevela_app_name_label}
use elastic_env_operator.Cluster.{Resource, get_or_new, list_into, get}
use elastic_env_operator.Operator.{Operator}
use elastic_env_operator.Handler

-- Creating and updating objects of a kind, and deleting them, keeps the property.
pub record KeepsWrites {W O : Type 0} (P : W → Type 0) (r : Resource W O) : Type 0 where
  pub create : (o : O) → Keeps P (r.create o)
  pub update : (o : O) → Keeps P (r.update o)
  pub update_status : (o : O) → Keeps P (r.update_status o)

abbrev pub KeepsDeletes : {W O : Type 0} → (W → Type 0) → Resource W O → Type 0
KeepsDeletes {O = O} P r = (o : O) → Keeps P (r.delete o)

module _ {W O : Type 0} ⦃obj : RuntimeObj O⦄ (P : W → Type 0) (r : Resource W O) where
  pub create_or_update-Keeps : KeepsWrites P r → (o : O) → Keeps P (Handler.create_or_update r o)
  unfolding Handler.create_or_update
  create_or_update-Keeps k o =
      Keeps-if P (is_zero (meta o).creation_timestamp) (r.create o) _ (λ _. k.create o)
        (λ _.
          Keeps-if P (has (meta o).labels kubevela_app_name_label) (pure o) (r.update o)
            (λ _ s h. h) (λ _. k.update o))

  pub update_status-Keeps : KeepsWrites P r → (o : O) → Keeps P (Handler.update_status r o)
  unfolding Handler.update_status
  update_status-Keeps k o = k.update_status o

  pub delete-Keeps : KeepsDeletes P r → (o : O) → Keeps P (Handler.delete r o)
  unfolding Handler.delete
  delete-Keeps k o w h = elim (Bool-cases (has (meta o).labels kubevela_app_name_label)) [
    | inl e ↦ rw e h
    | inr e ↦ rw e (k o w h)
  ]

-- What every kind of reconciliation may do: read, create and write.
pub record KeepsAllWrites (op : Operator) (P : op.World → Type 0) : Type 0 where
  pub sqb_applications : KeepsWrites P op.sqb_applications
  pub sqb_deployments : KeepsWrites P op.sqb_deployments
  pub sqb_planes : KeepsWrites P op.sqb_planes
  pub deployments : KeepsWrites P op.deployments
  pub services : KeepsWrites P op.services
  pub ingresses : KeepsWrites P op.ingresses
  pub pvcs : KeepsWrites P op.pvcs
  pub virtual_services : KeepsWrites P op.virtual_services
  pub vm_service_scrapes : KeepsWrites P op.vm_service_scrapes
