-- ===== src/Handler/Deployment/Status/Storing.antt =====
-- After a reconciliation of a deployment that ends well, the cluster has the status of its application.
use elastic_env_operator.Base.{
  ◌≡◌, ap, ◌∙◌, true, false, some, none, ok, pure, continue_reaches, String, List, [], made, ◌∷◌,
  if◌then◌else◌, index, get?, is_empty,
}
use elastic_env_operator.Api.Meta.{is_zero}
use elastic_env_operator.Api.Types.{
  SqbApplication, SqbApplicationStatus, sqb_application_obj, sqb_plane_obj,
}
use elastic_env_operator.Entity.Keys.{app_key, plane_key}
use elastic_env_operator.Kinds.Workload.{Deployment, deployment_obj}
use elastic_env_operator.Cluster.{list_into}
use elastic_env_operator.Operator.{Operator}
use elastic_env_operator.Handler
use elastic_env_operator.Handler.Guards.{KeepsWrites}
use elastic_env_operator.Handler.Deployment.Status.{
  with_status, write_app, update_app, update_plane, release, update_both, operate,
}
use elastic_env_operator.Handler.Deployment.Status.Laws.{live_named, live_in_plane, get-with_status}
use elastic_env_operator.Handler.Deployment.Status.Keeping.{update_plane-Keeps, release-Keeps}

-- The application of a name is in the cluster, with the status.
abbrev pub HasStatus : (op : Operator) → String → String → SqbApplicationStatus → op.World → Type 0
HasStatus op namespace name status w =
    (app : SqbApplication) × (op.sqb_applications.get namespace name w ≡ ok app)
    × (app.status ≡ status)

-- The server stores the status of an update that succeeds.
abbrev pub StoresStatus : Operator → Type 0
StoresStatus op =
    (app answer : SqbApplication) (w w' : op.World)
    → op.sqb_applications.update_status app w ≡ (ok answer, w')
    → HasStatus op app.namespace app.name app.status w'

module _ (op : Operator) (P : op.World → Type 0) where
  write_app_reaches :
      (app : SqbApplication) (items : List Deployment) (w : op.World) (u : Unit {0})
      → is_zero app.metadata.deletion_timestamp ≡ true
      → ((answer : SqbApplication)
          → (op.sqb_applications.update_status (with_status app items) w).0 ≡ ok answer
          → P (op.sqb_applications.update_status (with_status app items) w).1)
      → (write_app op items (ok app) w).0 ≡ ok u
      → P (write_app op items (ok app) w).1
  unfolding write_app Handler.update_status
  write_app_reaches app items w u alive stored = rw alive (
      continue_reaches P (op.sqb_applications.update_status (with_status app items) w).0
        (λ _. pure tt) (op.sqb_applications.update_status (with_status app items) w).1 tt stored
        (λ _ s h. h))

  update_app_reaches :
      (namespace name : String) (app : SqbApplication) (items : List Deployment) (w : op.World)
      (b : List Deployment)
      → is_empty name ≡ false
      → op.deployments.list namespace (made ((app_key, name) ∷ [])) w ≡ ok items
      → op.sqb_applications.get namespace name w ≡ ok app
      → is_zero app.metadata.deletion_timestamp ≡ true
      → ((answer : SqbApplication)
          → (op.sqb_applications.update_status (with_status app items) w).0 ≡ ok answer
          → P (op.sqb_applications.update_status (with_status app items) w).1)
      → (update_app op namespace name w).0 ≡ ok b
      → P (update_app op namespace name w).1
  unfolding update_app list_into
  update_app_reaches namespace name app items w b named listed found alive stored = rw named (
      rw listed (
        rw found (
          continue_reaches P (write_app op items (ok app) w).0 (λ _. pure items)
            (write_app op items (ok app) w).1 b
            (λ u e. write_app_reaches app items w u alive stored e) (λ _ s h. h))))

  operate_reaches :
      (dep : Deployment) (app : SqbApplication) (items : List Deployment) (w : op.World)
      → KeepsWrites P op.sqb_planes
      → KeepsWrites P op.deployments
      → is_empty (index dep.metadata.labels app_key) ≡ false
      → op.deployments.list dep.metadata.namespace
          (made ((app_key, index dep.metadata.labels app_key) ∷ []))
          w
        ≡ ok items
      → op.sqb_applications.get dep.metadata.namespace (index dep.metadata.labels app_key) w
        ≡ ok app
      → is_zero app.metadata.deletion_timestamp ≡ true
      → ((answer : SqbApplication)
          → (op.sqb_applications.update_status (with_status app items) w).0 ≡ ok answer
          → P (op.sqb_applications.update_status (with_status app items) w).1)
      → (operate op (dep, w)).0 ≡ ok tt
      → P (operate op (dep, w)).1.1
  unfolding operate update_both
  operate_reaches dep app items w planes deployments named listed found alive stored =
      let namespace = dep.metadata.namespace in
      let first = update_app op namespace (index dep.metadata.labels app_key) w in
      let both = update_both op dep w in
      continue_reaches (λ (s : Deployment × op.World). P s.1) both.0 (λ _. release op) (dep, both.1)
        tt
        (λ u e.
          continue_reaches P first.0
            (update_plane op namespace (index dep.metadata.labels plane_key)) first.1 u
            (λ b e'.
              update_app_reaches namespace (index dep.metadata.labels app_key) app items w b named
                listed found alive stored e')
            (update_plane-Keeps op P planes namespace (index dep.metadata.labels plane_key)) e)
        (λ _. release-Keeps op P deployments)

-- After the Operate of a deployment with the label of an application, where the deployments of that
-- application can be listed, the application can be read and is not being deleted, and Operate
-- succeeds, the cluster has the application with a mirror for exactly the names of the listed
-- deployments that are not being deleted and a plane for exactly their planes, if the server stores
-- the statuses that it accepts and writes of planes and deployments leave the application.
pub operate-StoresStatus :
    (op : Operator) (dep : Deployment) (app : SqbApplication) (items : List Deployment)
    (w : op.World)
    → StoresStatus op
    → KeepsWrites (HasStatus op app.namespace app.name (with_status app items).status) op.sqb_planes
    → KeepsWrites
        (HasStatus op app.namespace app.name (with_status app items).status)
        op.deployments
    → is_empty (index dep.metadata.labels app_key) ≡ false
    → op.deployments.list dep.metadata.namespace
        (made ((app_key, index dep.metadata.labels app_key) ∷ []))
        w
      ≡ ok items
    → op.sqb_applications.get dep.metadata.namespace (index dep.metadata.labels app_key) w ≡ ok app
    → is_zero app.metadata.deletion_timestamp ≡ true
    → (operate op (dep, w)).0 ≡ ok tt
    → (stored : SqbApplication) × (op.sqb_applications.get app.namespace app.name
          (operate op (dep, w)).1.1
        ≡ ok stored)
      × ((k : String)
          → (get? stored.status.mirrors k ≡ (if live_named k items then some 1 else none))
            × (get? stored.status.planes k ≡ (if live_in_plane k items then some 1 else none)))
unfolding with_status
operate-StoresStatus op dep app items w stores planes deployments named listed found alive e =
    let written = with_status app items in
    let (stored, there, same) =
      operate_reaches op (HasStatus op app.namespace app.name written.status) dep app items w planes
        deployments named listed found alive
        (λ answer done.
          stores written answer w (op.sqb_applications.update_status written w).1
            (ap (λ r. (r, (op.sqb_applications.update_status written w).1)) done))
        e in
    (
      stored,
      there,
      λ k.
          let (mirrors, in_planes) = get-with_status app items k in
          (
            ap (λ (s : SqbApplicationStatus). get? s.mirrors k) same ∙ mirrors,
            ap (λ (s : SqbApplicationStatus). get? s.planes k) same ∙ in_planes,
          ),
    )
