-- ===== src/Handler/Marking/Blocked.antt =====
-- A deletion that never ends well: deleteByLabel writes into the annotations of what it lists.
use mathlib.Core.Path.{subst}
use elastic_env_operator.Base.{
  ◌≡◌, ◌≢◌, sym, Bool, Bool-cases, inl, inr, true, false, ◌||◌, is_nil, List, [], ◌∷◌, made, nil,
  refl, String, Map, ok, Exec, ◌>>=◌, ◌>>◌, on_rest, EndsIn, EndsIn-bind, lift, arith,
}
use elastic_env_operator.Api.Types.{SqbPlane, SqbDeployment, sqb_deployment_obj, sqb_plane_obj}
use elastic_env_operator.Entity.Keys.{plane_key}
use elastic_env_operator.Operator.{Operator}
use elastic_env_operator.Cluster.{list_into}
use elastic_env_operator.Handler
use elastic_env_operator.Handler.{is_deleted, deleted, succeeded}
use elastic_env_operator.Handler.SqbDeploymentList
use elastic_env_operator.Handler.SqbDeploymentList.Laws.{mark_deleted-bare}
use elastic_env_operator.Handler.SqbPlane

-- One of the SQBDeployments has no annotations: they are nil.
unfoldable pub has_bare : List SqbDeployment → Bool
has_bare [] = false
has_bare (d ∷ ds) = is_nil d.metadata.annotations || has_bare ds

-- An action that does not end well.
abbrev NeverEnds : {S A : Type 0} → Exec S A → S → Type 0
NeverEnds act s = EndsIn (λ _. ⊥) act s

nil_of_test : (m : Map String) → is_nil m ≡ true → m ≡ nil
nil_of_test nil h = refl
nil_of_test (made m) h = absurd (cc h)

module _ (op : Operator) where
  bare_stops :
      (d d' : SqbDeployment)
      → is_nil d.metadata.annotations ≡ true
      → SqbDeploymentList.mark_deleted op d ≡ ok d'
      → ⊥
  bare_stops d d' bare e = cc (mark_deleted-bare op d (nil_of_test d.metadata.annotations bare), e)

  marks_blocked :
      (ds : List SqbDeployment) (w : op.World)
      → has_bare ds ≡ true
      → NeverEnds (SqbDeploymentList.mark_all op ds) w
  unfolding SqbDeploymentList.mark_all has_bare
  marks_blocked [] w h = absurd (cc h)
  marks_blocked (d ∷ ds) w h =
      EndsIn-bind (λ _. ⊥) (lift (SqbDeploymentList.mark_deleted op d))
        (λ d'. Handler.create_or_update op.sqb_deployments d' >> SqbDeploymentList.mark_all op ds) w
        (λ d' e. elim (Bool-cases (is_nil d.metadata.annotations)) [
          | inl bare ↦ absurd (bare_stops d d' bare e)
          | inr given ↦
              EndsIn-bind (λ _. ⊥) (Handler.create_or_update op.sqb_deployments d')
                (λ _. SqbDeploymentList.mark_all op ds) w
                (λ _ _. marks_blocked ds _ (ground (arith, h, given)))
        ])

  listed_blocked :
      (namespace : String) (labels : Map String) (ds : List SqbDeployment) (w : op.World)
      → op.sqb_deployments.list namespace labels w ≡ ok ds
      → has_bare ds ≡ true
      → NeverEnds (SqbDeploymentList.delete_by_label op namespace labels) w
  unfolding SqbDeploymentList.delete_by_label SqbDeploymentList.list_by_label list_into
  listed_blocked namespace labels ds w found h = rw found (marks_blocked ds w h)

  -- Operate of a plane that counts as deleted never ends well while a search by the label of the
  -- plane finds, at any place, an SQBDeployment whose annotations are nil, whatever the calls of
  -- the cluster do.
  pub plane_deletion_blocked :
      (p : SqbPlane) (w : op.World) (ds : List SqbDeployment)
      → is_deleted op.sums p.metadata ≡ ok true
      → op.sqb_deployments.list p.namespace (made ((plane_key, p.name) ∷ [])) w ≡ ok ds
      → has_bare ds ≡ true
      → (SqbPlane.operate op (p, w)).0 ≢ ok tt
  unfolding SqbPlane.operate SqbDeploymentList.handle_sqbplane deleted
  plane_deletion_blocked p w ds gone found bare =
      let last : Bool → Exec (SqbPlane × op.World) (Unit {0}) =
        λ deleted. on_rest (SqbDeploymentList.handle_sqbplane op) >> SqbPlane.finish op deleted in
      let first : NeverEnds (SqbDeploymentList.handle_sqbplane op p) w =
        rw gone (listed_blocked p.namespace (made ((plane_key, p.name) ∷ [])) ds w found bare) in
      subst (λ r. NeverEnds (lift r >>= last) (p, w)) (sym gone)
        (EndsIn-bind (λ _. ⊥) (on_rest (SqbDeploymentList.handle_sqbplane op))
          (λ _. SqbPlane.finish op true) (p, w) (λ u e. absurd (first u e)))
        tt
