-- ===== src/Handler/Marking/Deletions.antt =====
-- The deletion by labels, and the operation on a plane that counts as deleted.
use mathlib.Core.Path.{subst}
use elastic_env_operator.Base.{
  sym, ◌≡◌, true, List, [], ◌∷◌, made, All, String, Map, ok, Exec, ◌>>=◌, ◌>>◌, on_rest, Attains,
  Attains-bind, Attains-kept, lift, Bool,
}
use elastic_env_operator.Api.Types.{
  SqbPlane, SqbDeployment, sqb_deployment_obj, sqb_plane_obj, sqb_application_obj,
}
use elastic_env_operator.Entity.Keys.{plane_key}
use elastic_env_operator.Api.Meta.{RuntimeObj}
use elastic_env_operator.Operator.{Operator}
use elastic_env_operator.Cluster.{Resource, list_into}
use elastic_env_operator.Cluster.Answers.{Answers}
use elastic_env_operator.Cluster.Stores.{Stores, Leaves}
use elastic_env_operator.Kinds.Core.{service_obj}
use elastic_env_operator.Kinds.Monitoring.{scrape_obj}
use elastic_env_operator.Handler
use elastic_env_operator.Handler.{is_deleted, deleted, succeeded}
use elastic_env_operator.Handler.SqbDeploymentList
use elastic_env_operator.Handler.SqbPlane
use elastic_env_operator.Handler.Guards.{delete-Keeps}
use elastic_env_operator.Handler.Writing.{IsOf, Holds-IsOf, Leaves-KeepsDeletes, delete-EndsWell}
use elastic_env_operator.Handler.Serving.Answering.{AnswersAll}
use elastic_env_operator.Handler.Marking.{
  mark_of, IsMarked, IsMarkable, loop_marks, mark_all-EndsWell,
}

module _ (op : Operator) (stores : Stores (mark_of op) op.sqb_deployments)
    (answers : Answers op.sqb_deployments) (namespace : String) (ds : List SqbDeployment)
    (markable : All (IsMarkable op namespace) ds) where
  -- The SQBDeployments that a search finds, and that they are marked.
  abbrev IsFound : Map String → op.World → Type 0
  IsFound labels w = op.sqb_deployments.list namespace labels w ≡ ok ds

  abbrev AreMarked : op.World → Type 0
  AreMarked w = All (IsMarked op namespace w) ds

  pub label_deletion :
      (labels : Map String) (w : op.World)
      → IsFound labels w
      → Attains AreMarked (SqbDeploymentList.delete_by_label op namespace labels) w
  unfolding SqbDeploymentList.delete_by_label SqbDeploymentList.list_by_label list_into
  label_deletion labels w found = rw found (
      let (u, e) = mark_all-EndsWell op namespace ds answers markable w in
      (u, e, loop_marks op stores namespace ds w markable u e))

  pub marks-IsOf :
      (some_ds : List SqbDeployment)
      → IsOf op.sqb_deployments (λ w. All (IsMarked op namespace w) some_ds)
  marks-IsOf [] w w' same h = tt
  marks-IsOf (d ∷ rest) w w' same h = (
    Holds-IsOf (mark_of op) op.sqb_deployments namespace d.name (ok true) w w' same h.0,
    marks-IsOf rest w w' same h.1,
  )

  -- The last deletion, that of the plane or the application.
  pub deletion_at_last :
      {O : Type 0} ⦃obj : RuntimeObj O⦄ (r : Resource op.World O) (o : O) (w : op.World)
      → Answers r
      → Leaves op.sqb_deployments r
      → AreMarked w
      → Attains (λ (s : O × op.World). AreMarked s.1) (on_rest (Handler.delete r)) (o, w)
  deletion_at_last r o w answers' leaves =
      Attains-kept (λ s. AreMarked s.1) (on_rest (Handler.delete r)) (o, w)
        (λ s. delete-EndsWell r answers' s.0 s.1)
        (λ s.
          delete-Keeps AreMarked r
            (Leaves-KeepsDeletes op.sqb_deployments r AreMarked leaves (marks-IsOf ds)) s.0 s.1)

module _ (op : Operator) (stores : Stores (mark_of op) op.sqb_deployments)
    (answers : AnswersAll op) where
  plane_deployments :
      (p : SqbPlane) (w : op.World) (ds : List SqbDeployment)
      → is_deleted op.sums p.metadata ≡ ok true
      → op.sqb_deployments.list p.namespace (made ((plane_key, p.name) ∷ [])) w ≡ ok ds
      → All (IsMarkable op p.namespace) ds
      → Attains
          (λ w'. All (IsMarked op p.namespace w') ds)
          (SqbDeploymentList.handle_sqbplane op p)
          w
  unfolding SqbDeploymentList.handle_sqbplane deleted
  plane_deployments p w ds gone found markable = rw gone (
      label_deletion op stores answers.sqb_deployments p.namespace ds markable
        (made ((plane_key, p.name) ∷ [])) w found)

  -- Operate of a plane that counts as deleted ends well, and afterwards the cluster has each
  -- SQBDeployment that a search by the label of the plane found before as one that counts as
  -- deleted, where these are in the namespace of the plane, have annotations and are not made by
  -- KubeVela, and the server answers the calls, stores the annotations that it accepts, and leaves
  -- the SQBDeployments when a plane is deleted.
  pub plane_deletion_marks :
      Answers op.sqb_planes
      → Leaves op.sqb_deployments op.sqb_planes
      → (p : SqbPlane) (w : op.World) (ds : List SqbDeployment)
      → is_deleted op.sums p.metadata ≡ ok true
      → op.sqb_deployments.list p.namespace (made ((plane_key, p.name) ∷ [])) w ≡ ok ds
      → All (IsMarkable op p.namespace) ds
      → Attains (λ s. All (IsMarked op p.namespace s.1) ds) (SqbPlane.operate op) (p, w)
  unfolding SqbPlane.operate SqbPlane.finish
  plane_deletion_marks planes leaves p w ds gone found markable =
      let Marked : SqbPlane × op.World → Type 0 = λ s. All (IsMarked op p.namespace s.1) ds in
      let last : Bool → Exec (SqbPlane × op.World) (Unit {0}) =
        λ deleted. on_rest (SqbDeploymentList.handle_sqbplane op) >> SqbPlane.finish op deleted in
      subst (λ r. Attains Marked (lift r >>= last) (p, w)) (sym gone)
        (Attains-bind Marked Marked (on_rest (SqbDeploymentList.handle_sqbplane op))
          (λ _. SqbPlane.finish op true) (p, w) (plane_deployments p w ds gone found markable)
          (λ _ s h.
            deletion_at_last op stores answers.sqb_deployments p.namespace ds markable op.sqb_planes
              s.0 s.1 planes leaves h))
