-- ===== src/Handler/Writing.antt =====
-- What the shared create, update and delete of handler.go do in a cluster that stores what it accepts.
use elastic_env_operator.Base.{
  ◌∙◌, String, ◌≡◌, ◌≢◌, refl, false, has, ok, pure, Keeps, EndsIn, EndsWell, Result, err, panic,
  both_branches, Bool-cases, inl, inr,
}
use elastic_env_operator.Api.Meta.{RuntimeObj, meta, is_zero}
use elastic_env_operator.Entity.Keys.{kubevela_app_name_label}
use elastic_env_operator.Cluster.{Resource}
use elastic_env_operator.Cluster.Answers.{IsAnswer, Answers}
use elastic_env_operator.Cluster.Stores.{Holds, Stores, Leaves, ReadsSame}
use elastic_env_operator.Handler
use elastic_env_operator.Handler.Guards.{KeepsWrites, KeepsDeletes}

module _ {W O V : Type 0} ⦃obj : RuntimeObj O⦄ (view : O → V) (r : Resource W O)
    (stores : Stores view r) where
  pub create_or_update-Holds :
      (o : O) (w : W)
      → has (meta o).labels kubevela_app_name_label ≡ false
      → EndsIn
          (Holds view r (meta o).namespace (meta o).name (view o))
          (Handler.create_or_update r o)
          w
  unfolding Handler.create_or_update
  create_or_update-Holds o w own =
      let There : W → Type 0 = Holds view r (meta o).namespace (meta o).name (view o) in
      rw own (
        both_branches (λ act. EndsIn There act w) (is_zero (meta o).creation_timestamp) (r.create o)
          (r.update o) (stores.created o w) (stores.updated o w))

  pub create_or_update_other :
      (o : O) (namespace name : String) (v : V)
      → (meta o).name ≢ name
      → Keeps (Holds view r namespace name v) (Handler.create_or_update r o)
  unfolding Handler.create_or_update
  create_or_update_other o namespace name v apart =
      let There : W → Type 0 = Holds view r namespace name v in
      both_branches (Keeps There) (is_zero (meta o).creation_timestamp) (r.create o) _
        (stores.create_other o namespace name v apart)
        (both_branches (Keeps There) (has (meta o).labels kubevela_app_name_label) (pure o)
          (r.update o) (λ w h. h) (stores.update_other o namespace name v apart))

  pub delete_other :
      (o : O) (namespace name : String) (v : V) (w : W)
      → (meta o).name ≢ name
      → Holds view r namespace name v w
      → Holds view r namespace name v (Handler.delete r o w).1
  unfolding Handler.delete
  delete_other o namespace name v w apart h =
      elim (Bool-cases (has (meta o).labels kubevela_app_name_label)) [
        | inl e ↦ rw e h
        | inr e ↦ rw e (stores.delete_other o namespace name v apart w h)
      ]

-- Where the server answers, they succeed.
module _ {W O : Type 0} ⦃obj : RuntimeObj O⦄ (r : Resource W O) (answers : Answers r) where
  pub create_or_update-EndsWell : (o : O) → EndsWell (Handler.create_or_update r o)
  unfolding Handler.create_or_update
  create_or_update-EndsWell o =
      both_branches EndsWell (is_zero (meta o).creation_timestamp) (r.create o) _ (answers.create o)
        (both_branches EndsWell (has (meta o).labels kubevela_app_name_label) (pure o) (r.update o)
          (λ w. (o, refl)) (answers.update o))

  ignored_answer :
      (result : Result (Unit {0})) → IsAnswer result → Handler.ignore_not_found r result ≡ ok tt
  ignored_answer (ok u) h = refl
  ignored_answer (err e) h = rw h refl
  ignored_answer panic h = elim h [ ]

  pub delete-EndsWell : (o : O) → EndsWell (Handler.delete r o)
  unfolding Handler.delete
  delete-EndsWell o w = elim (Bool-cases (has (meta o).labels kubevela_app_name_label)) [
    | inl e ↦ (tt, rw e refl)
    | inr e ↦ (tt, rw e (ignored_answer (r.delete o w).0 (answers.delete o w)))
  ]

-- A property of what is read of one kind is kept by what is done to another.
abbrev pub IsOf : {W O : Type 0} → Resource W O → (W → Type 0) → Type 0
IsOf r P = (w w' : _) → ReadsSame r w w' → P w → P w'

module _ {W O O' : Type 0} (r : Resource W O) (beside : Resource W O') (P : W → Type 0) where
  pub Leaves-KeepsWrites : Leaves r beside → IsOf r P → KeepsWrites P beside
  Leaves-KeepsWrites leaves of = record {
    create = λ o w. of w _ (leaves.create o w);
    update = λ o w. of w _ (leaves.update o w);
    update_status = λ o w. of w _ (leaves.update_status o w);
  }

  pub Leaves-KeepsDeletes : Leaves r beside → IsOf r P → KeepsDeletes P beside
  Leaves-KeepsDeletes leaves of o w = of w _ (leaves.delete o w)

pub Holds-IsOf :
    {W O V : Type 0} ⦃obj : RuntimeObj O⦄ (view : O → V) (r : Resource W O)
    (namespace name : String) (v : V)
    → IsOf r (Holds view r namespace name v)
Holds-IsOf view r namespace name v w w' same h = (h.0, same.0 namespace name ∙ h.1, h.2)
