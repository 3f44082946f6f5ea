-- ===== src/Tests/Shelves.antt =====
-- A cluster that stores what is written: one shelf for each kind that the statements are about.
use mathlib.Core.Path.{subst}
use elastic_env_operator.Base.{
  ◌≡◌, ◌≢◌, refl, ◌∙◌, ap, arith, String, false, ◌&&◌, ◌==◌, eq_refl, eq_iff, if◌then◌else◌, Option,
  none, some, List, [], has, Result, ok, err,
}
use elastic_env_operator.Api.Meta.{RuntimeObj, meta}
use elastic_env_operator.Entity.Keys.{kubevela_app_name_label}
use elastic_env_operator.Cluster.{Resource}
use elastic_env_operator.Cluster.Stores.{Holds, Stores, NoneOfKubevela, Leaves, ReadsSame}
use elastic_env_operator.Cluster.Answers.{Answers, IsAnswer}
use elastic_env_operator.Tests.Fixtures.{missing}

-- What is stored under a namespace and a name.
abbrev pub Shelf : Type 0 → Type 0
Shelf S = String → String → Option S

abbrev pub put : {S : Type 0} → String → String → Option S → Shelf S → Shelf S
put namespace name s shelf namespace' name' =
    if (namespace == namespace') && (name == name') then s else shelf namespace' name'

put_same :
    {S : Type 0} (namespace name : String) (s : Option S) (shelf : Shelf S)
    → put namespace name s shelf namespace name ≡ s
put_same namespace name s shelf = ground (arith, eq_refl namespace, eq_refl name)

put_other :
    {S : Type 0} (namespace name : String) (s : Option S) (shelf : Shelf S)
    (namespace' name' : String)
    → name ≢ name'
    → put namespace name s shelf namespace' name' ≡ shelf namespace' name'
put_other namespace name s shelf namespace' name' apart = ground (arith, eq_iff name name')

-- How the objects of a kind are stored: what is kept of an object, how one is made of it again, the
-- shelf, and the objects that a search finds.
pub record Storage (W O S : Type 0) : Type 0 where
  pub keep : O → S
  pub build : String → String → S → O
  pub shelf : W → Shelf S
  pub store : Shelf S → W → W
  pub listed : List O

module _ {W O S : Type 0} ⦃obj : RuntimeObj O⦄ (k : Storage W O S) where
  abbrev fetched : String → String → Option S → Result O
  fetched namespace name none = err missing
  fetched namespace name (some s) = ok (k.build namespace name s)

  abbrev kept : O → Option S → W → W
  kept o s w = k.store (put (meta o).namespace (meta o).name s (k.shelf w)) w

  abbrev pub shelved : Resource W O
  shelved = record {
    get = λ namespace name w. fetched namespace name (k.shelf w namespace name);
    list = λ namespace labels w. ok k.listed;
    create = λ o w. (ok o, kept o (some (k.keep o)) w);
    update = λ o w. (ok o, kept o (some (k.keep o)) w);
    update_status = λ o w. (ok o, w);
    delete = λ o w. (ok tt, kept o none w);
  }

  module _ {V : Type 0} (view : O → V) (stored : (s : Shelf S) (w : W) → k.shelf (k.store s w) ≡ s)
      (shown : (o : O) → view (k.build (meta o).namespace (meta o).name (k.keep o)) ≡ view o)
      (named : (namespace name : String) (s : S)
        → ((meta (k.build namespace name s)).namespace ≡ namespace)
          × ((meta (k.build namespace name s)).name ≡ name)
          × (has (meta (k.build namespace name s)).labels kubevela_app_name_label ≡ false)) where
    fetched_named :
        (namespace name : String) (s : Option S) (o : O)
        → fetched namespace name s ≡ ok o
        → ((meta o).namespace ≡ namespace)
          × ((meta o).name ≡ name)
          × (has (meta o).labels kubevela_app_name_label ≡ false)
    fetched_named namespace name none o e = absurd (cc e)
    fetched_named namespace name (some s) o e =
        subst
          (λ (x : O).
            ((meta x).namespace ≡ namespace)
            × ((meta x).name ≡ name)
            × (has (meta x).labels kubevela_app_name_label ≡ false))
          (cc e) (named namespace name s)

    kept-Holds :
        (o : O) (w : W)
        → Holds view shelved (meta o).namespace (meta o).name (view o) (kept o (some (k.keep o)) w)
    kept-Holds o w =
        let m = meta o in
        (
          k.build m.namespace m.name (k.keep o),
          ap (λ s. fetched m.namespace m.name (s m.namespace m.name)) (stored _ w)
              ∙ ap (fetched m.namespace m.name)
                  (put_same m.namespace m.name (some (k.keep o)) (k.shelf w)),
          shown o,
        )

    kept_other :
        (o : O) (s : Option S) (namespace name : String) (v : V) (w : W)
        → (meta o).name ≢ name
        → Holds view shelved namespace name v w
        → Holds view shelved namespace name v (kept o s w)
    kept_other o s namespace name v w apart h = (
      h.0,
      ap (λ x. fetched namespace name (x namespace name)) (stored _ w)
          ∙ (ap (fetched namespace name)
                (put_other (meta o).namespace (meta o).name s (k.shelf w) namespace name apart)
              ∙ h.1),
      h.2,
    )

    pub shelved-Stores : Stores view shelved
    shelved-Stores = record {
      named = λ namespace name o w e.
          let h = fetched_named namespace name (k.shelf w namespace name) o e in (h.0, h.1);
      created = λ o w answer e. kept-Holds o w;
      updated = λ o w answer e. kept-Holds o w;
      create_other = λ o namespace name v apart w. kept_other o _ namespace name v w apart;
      update_other = λ o namespace name v apart w. kept_other o _ namespace name v w apart;
      delete_other = λ o namespace name v apart w. kept_other o _ namespace name v w apart;
    }

    pub shelved-NoneOfKubevela : NoneOfKubevela shelved
    shelved-NoneOfKubevela namespace name o w e =
        (fetched_named namespace name (k.shelf w namespace name) o e).2

  shelved_answer : (namespace name : String) (s : Option S) → IsAnswer (fetched namespace name s)
  shelved_answer namespace name none = refl
  shelved_answer namespace name (some s) = tt

  pub shelved-Answers : Answers shelved
  shelved-Answers = record {
    get = λ namespace name w. shelved_answer namespace name (k.shelf w namespace name);
    list = λ namespace labels w. tt;
    create = λ o w. (o, refl);
    update = λ o w. (o, refl);
    update_status = λ o w. (o, refl);
    delete = λ o w. tt;
  }

  pub shelved-Leaves :
      {O' : Type 0} (r : Resource W O')
      → ((s : Shelf S) (w : W) → ReadsSame r w (k.store s w))
      → Leaves r shelved
  shelved-Leaves r same = record {
    create = λ o w. same _ w;
    update = λ o w. same _ w;
    update_status = λ o w. (λ namespace name. refl, λ namespace labels. refl);
    delete = λ o w. same _ w;
  }

-- The objects of a kind that are read as given, whatever is written.
module _ {W O : Type 0} (found : Result O) where
  abbrev pub fixed : Resource W O
  fixed = record {
    get = λ namespace name w. found;
    list = λ namespace labels w. ok [];
    create = λ o w. (ok o, w);
    update = λ o w. (ok o, w);
    update_status = λ o w. (ok o, w);
    delete = λ o w. (ok tt, w);
  }

  pub fixed-Answers : IsAnswer found → Answers fixed
  fixed-Answers h = record {
    get = λ namespace name w. h;
    list = λ namespace labels w. tt;
    create = λ o w. (o, refl);
    update = λ o w. (o, refl);
    update_status = λ o w. (o, refl);
    delete = λ o w. tt;
  }

  pub fixed-Leaves : {O' : Type 0} (r : Resource W O') → Leaves r fixed
  fixed-Leaves r = record {
    create = λ o w. (λ namespace name. refl, λ namespace labels. refl);
    update = λ o w. (λ namespace name. refl, λ namespace labels. refl);
    update_status = λ o w. (λ namespace name. refl, λ namespace labels. refl);
    delete = λ o w. (λ namespace name. refl, λ namespace labels. refl);
  }
