-- ===== src/Handler/SqbDeploymentList/Laws.antt =====
-- What the loops over deployments do to each of them.
use elastic_env_operator.Base.{
  panic, String, ◌≡◌, ◌≢◌, refl, true, Option, none, some, List, Map, nil, made, get?, index,
  insert, lookup, lookup-insert, eq_iff, eq_refl, ◌==◌, Entries, Bool-cases, inl, inr, ok, arith,
}
use elastic_env_operator.Api.Types.{SqbApplication, SqbDeployment, with_annotations}
use elastic_env_operator.Entity.Keys.{
  initialize_annotation_key, istio_inject_annotation_key, explicit_delete_annotation_key,
}
use elastic_env_operator.Entity.ConfigMap.{SqbConfigMapEntity}
use elastic_env_operator.Util.{get_delete_check_sum}
use elastic_env_operator.Operator.{Operator}
use elastic_env_operator.Handler.{is_deleted}
use elastic_env_operator.Handler.Settings.{is_istio_inject}
use elastic_env_operator.Handler.SqbDeploymentList.{
  annotate, truth, set_istio, handle_istio, mark_deleted,
}

abbrev pub resulting : SqbDeployment → Option SqbDeployment → SqbDeployment
resulting d none = d
resulting d (some d') = d'

set_istio_sets :
    (d : SqbDeployment) (value k : String) (m : Entries String)
    → d.metadata.annotations ≡ made m
    → k ≢ istio_inject_annotation_key
    → (o : Option SqbDeployment) × (set_istio d value ≡ ok o)
      × (index (resulting d o).annotations istio_inject_annotation_key ≡ value)
      × (get? (resulting d o).annotations k ≡ get? d.annotations k)
unfolding set_istio
set_istio_sets d value k m e n =
    elim (Bool-cases (index d.annotations istio_inject_annotation_key == value)) [
      | inl same ↦ (
        none,
        rw same,
        (eq_iff (index d.annotations istio_inject_annotation_key) value).0 same,
        refl,
      )
      | inr other ↦ (
        some (with_annotations d (made (insert istio_inject_annotation_key value m))),
        rw other (ground arith),
        rw lookup-insert refl,
        ground (
          arith,
          lookup-insert istio_inject_annotation_key k value m,
          eq_iff istio_inject_annotation_key k,
        ),
      )
    ]

initialised_is_made :
    (m : Map String) (k : String) → index m k ≡ "true" → (m' : Entries String) × (m ≡ made m')
unfolding lookup
initialised_is_made nil k h = absurd (cc h)
initialised_is_made (made m) k h = (m, refl)

-- An initialized SQBDeployment leaves handleIstio with its application's setting for Istio and with
-- every other annotation as it was.
pub handle_istio_sets :
    (sc : SqbConfigMapEntity) (app : SqbApplication) (d : SqbDeployment) (k : String)
    → index d.metadata.annotations initialize_annotation_key ≡ "true"
    → k ≢ istio_inject_annotation_key
    → (o : Option SqbDeployment) × (handle_istio sc app d ≡ ok o)
      × (index (resulting d o).annotations istio_inject_annotation_key
          ≡ truth (is_istio_inject sc app))
      × (get? (resulting d o).annotations k ≡ get? d.annotations k)
unfolding handle_istio
handle_istio_sets sc app d k h n =
    let (m, e) = initialised_is_made d.metadata.annotations initialize_annotation_key h in
    let i = (eq_iff (index d.metadata.annotations initialize_annotation_key) "true").1 h in
    elim (Bool-cases (is_istio_inject sc app)) [
      | inl yes' ↦ rw (i, yes') (set_istio_sets d "true" k m e n)
      | inr no' ↦ rw (i, no') (set_istio_sets d "false" k m e n)
    ]

-- A deployment that is not initialised is left alone.
pub handle_istio_waits :
    (sc : SqbConfigMapEntity) (app : SqbApplication) (d : SqbDeployment)
    → index d.annotations initialize_annotation_key ≢ "true"
    → handle_istio sc app d ≡ ok none
unfolding handle_istio
handle_istio_waits sc app d h =
    ground (arith, eq_iff (index d.annotations initialize_annotation_key) "true")

module _ (op : Operator) where
  -- The checksum that the deletion of an application or a plane writes into the annotations that an
  -- SQBDeployment has is the one by which it counts as deleted.
  pub is_deleted-mark_deleted :
      (d : SqbDeployment) {m : List (String × String)}
      → d.metadata.annotations ≡ made m
      → (d' : SqbDeployment) × (mark_deleted op d ≡ ok d')
        × (is_deleted op.sums d'.metadata ≡ ok true)
  unfolding mark_deleted is_deleted
  is_deleted-mark_deleted d {m} h = (
    with_annotations d (
        made (
          insert explicit_delete_annotation_key
            (get_delete_check_sum op.sums.md5_hex op.sums.salt d.metadata.name) m)),
    ground arith,
    rw lookup-insert (rw eq_refl),
  )

  pub mark_deleted-bare :
      (d : SqbDeployment) → d.metadata.annotations ≡ nil → mark_deleted op d ≡ panic
  unfolding mark_deleted annotate
  mark_deleted-bare d h = rw h refl
