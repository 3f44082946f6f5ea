-- ===== src/Handler/Marking.antt =====
-- The deletion of an application or of a plane marks its SQBDeployments.
pub mod Blocked
pub mod Deletions
pub mod Applications
use mathlib.Core.Path.{subst}
use elastic_env_operator.Base.{
  ◌≡◌, refl, sym, ◌∙◌, ap, Bool, true, false, List, [], ◌∷◌, All, String, Map, made, insert, has,
  lookup, lookup-insert, eq_refl, eq_iff, ◌==◌, Bool-cases, inl, inr, ok, Result, Exec, Entries,
  lift, ◌>>=◌, ◌>>◌, Keeps, EndsIn, EndsIn-bind, EndsIn-kept, EndsWell, EndsWell-bind,
  continue-EndsWell, on_rest, arith,
}
use elastic_env_operator.Api.Types.{
  SqbDeployment, SqbPlane, SqbApplication, with_annotations, sqb_deployment_obj, sqb_plane_obj,
}
use elastic_env_operator.Entity.Keys.{
  explicit_delete_annotation_key, kubevela_app_name_label, plane_key,
}
use elastic_env_operator.Util.{get_delete_check_sum}
use elastic_env_operator.Operator.{Operator}
use elastic_env_operator.Cluster.{list_into}
use elastic_env_operator.Cluster.Answers.{Answers}
use elastic_env_operator.Cluster.Stores.{Holds, Stores, Leaves}
use elastic_env_operator.Handler
use elastic_env_operator.Handler.{is_deleted, deleted}
use elastic_env_operator.Handler.SqbDeploymentList
use elastic_env_operator.Handler.SqbDeploymentList.{mark_deleted, mark_all}
use elastic_env_operator.Handler.Writing.{
  create_or_update-Holds, create_or_update_other, create_or_update-EndsWell,
}

module _ (op : Operator) where
  -- Whether an SQBDeployment counts as deleted.
  abbrev pub mark_of : SqbDeployment → Result Bool
  mark_of d = is_deleted op.sums d.metadata

  abbrev pub IsMarked : String → op.World → SqbDeployment → Type 0
  IsMarked namespace w d = Holds mark_of op.sqb_deployments namespace d.name (ok true) w

  -- It is of the namespace, it has annotations, and KubeVela did not make it.
  pub record IsMarkable (namespace : String) (d : SqbDeployment) : Type 0 where
    pub namespaced : d.namespace ≡ namespace
    pub own : has d.labels kubevela_app_name_label ≡ false
    pub written : Entries String
    pub annotated : d.annotations ≡ made written

  -- The SQBDeployment with its mark.
  marked : (d : SqbDeployment) → Entries String → SqbDeployment
  marked d m = with_annotations d (
      made (
        insert explicit_delete_annotation_key
          (get_delete_check_sum op.sums.md5_hex op.sums.salt d.name) m))

  mark_deleted-marked :
      (d : SqbDeployment) (m : Entries String)
      → d.annotations ≡ made m
      → mark_deleted op d ≡ ok (marked d m)
  unfolding mark_deleted marked
  mark_deleted-marked d m h = rw h refl

  mark_all-cons :
      (namespace : String) (d : SqbDeployment) (ds : List SqbDeployment)
      (markable : IsMarkable namespace d)
      → (Handler.create_or_update op.sqb_deployments (marked d markable.written) >> mark_all op ds)
        ≡ mark_all op (d ∷ ds)
  unfolding mark_all
  mark_all-cons namespace d ds markable =
      ap
        (λ result.
          lift result >>= (λ d'. Handler.create_or_update op.sqb_deployments d' >> mark_all op ds))
        (sym (mark_deleted-marked d markable.written markable.annotated))

  mark_of-marked : (d : SqbDeployment) (m : Entries String) → mark_of (marked d m) ≡ ok true
  unfolding marked is_deleted
  mark_of-marked d m = rw lookup-insert (rw eq_refl)

  module _ (stores : Stores mark_of op.sqb_deployments) (namespace : String) where
    -- The write of a marked SQBDeployment, and what it leaves of another.
    mark_one :
        (d : SqbDeployment) (m : Entries String) (w : op.World)
        → d.namespace ≡ namespace
        → has d.labels kubevela_app_name_label ≡ false
        → EndsIn
            (λ w'. IsMarked namespace w' d)
            (Handler.create_or_update op.sqb_deployments (marked d m))
            w
    unfolding marked
    mark_one d m w namespaced own =
        let act = Handler.create_or_update op.sqb_deployments (marked d m) in
        subst (λ n. EndsIn (Holds mark_of op.sqb_deployments n d.name (ok true)) act w) namespaced
          (subst (λ v. EndsIn (Holds mark_of op.sqb_deployments d.namespace d.name v) act w)
            (mark_of-marked d m)
            (create_or_update-Holds mark_of op.sqb_deployments stores (marked d m) w own))

    mark_beside :
        (d other : SqbDeployment) (m : Entries String) (w : op.World)
        → other.namespace ≡ namespace
        → has other.labels kubevela_app_name_label ≡ false
        → IsMarked namespace w d
        → EndsIn
            (λ w'. IsMarked namespace w' d)
            (Handler.create_or_update op.sqb_deployments (marked other m))
            w
    unfolding marked
    mark_beside d other m w namespaced own h =
        let act = Handler.create_or_update op.sqb_deployments (marked other m) in
        elim (Bool-cases (other.name == d.name)) [
          | inl same ↦
              subst
                (λ name. EndsIn (Holds mark_of op.sqb_deployments namespace name (ok true)) act w)
                ((eq_iff other.name d.name).0 same) (mark_one other m w namespaced own)
          | inr apart ↦
              EndsIn-kept (λ w'. IsMarked namespace w' d) act w
                (create_or_update_other mark_of op.sqb_deployments stores (marked other m) namespace
                  d.name (ok true) (λ e. cc (apart, (eq_iff other.name d.name).1 e)))
                h
        ]

    -- The rest of the loop leaves one that is marked.
    rest_marks :
        (d : SqbDeployment) (others : List SqbDeployment) (w : op.World)
        → All (IsMarkable namespace) others
        → IsMarked namespace w d
        → EndsIn (λ w'. IsMarked namespace w' d) (mark_all op others) w
    unfolding mark_all
    rest_marks d [] w markable h = λ u e. h
    rest_marks d (other ∷ others) w markable h =
        let one = markable.0 in
        let There : op.World → Type 0 = λ w'. IsMarked namespace w' d in
        subst (λ act. EndsIn There act w) (mark_all-cons namespace other others one)
          (EndsIn-bind There
            (Handler.create_or_update op.sqb_deployments (marked other one.written))
            (λ _. mark_all op others) w
            (λ answer e.
              rest_marks d others _ markable.1
                (mark_beside d other one.written w one.namespaced one.own h answer e)))

    -- The whole loop.
    pub loop_marks :
        (ds : List SqbDeployment) (w : op.World)
        → All (IsMarkable namespace) ds
        → EndsIn (λ w'. All (IsMarked namespace w') ds) (mark_all op ds) w
    unfolding mark_all
    loop_marks [] w markable = λ u e. tt
    loop_marks (d ∷ ds) w markable =
        let one = markable.0 in
        let There : op.World → Type 0 = λ w'. All (IsMarked namespace w') (d ∷ ds) in
        subst (λ act. EndsIn There act w) (mark_all-cons namespace d ds one)
          (EndsIn-bind There (Handler.create_or_update op.sqb_deployments (marked d one.written))
            (λ _. mark_all op ds) w
            (λ answer e u e'. (
              rest_marks d ds _ markable.1
                  (mark_one d one.written w one.namespaced one.own answer e) u e',
              loop_marks ds _ markable.1 u e',
            )))

  -- Where the server answers, the loop ends well.
  pub mark_all-EndsWell :
      (namespace : String) (ds : List SqbDeployment)
      → Answers op.sqb_deployments
      → All (IsMarkable namespace) ds
      → EndsWell (mark_all op ds)
  unfolding mark_all
  mark_all-EndsWell namespace [] answers markable = λ w. (tt, refl)
  mark_all-EndsWell namespace (d ∷ ds) answers markable =
      let one = markable.0 in
      subst EndsWell (mark_all-cons namespace d ds one) (
        EndsWell-bind (Handler.create_or_update op.sqb_deployments (marked d one.written))
          (λ _. mark_all op ds)
          (create_or_update-EndsWell op.sqb_deployments answers (marked d one.written))
          (λ _. mark_all-EndsWell namespace ds answers markable.1))
