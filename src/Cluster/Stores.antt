-- ===== src/Cluster/Stores.antt =====
-- What the server promises of the objects of one kind: a write that succeeds is read back, as far as
-- `view` shows an object, and touches no object of another name.
use mathlib.Core.Path.{subst}
use elastic_env_operator.Base.{
  String, ◌≡◌, ◌≢◌, Result, ok, err, panic, Keeps, EndsIn, if◌then◌else◌, Error, Bool, true, false,
  has, Map,
}
use elastic_env_operator.Api.Meta.{RuntimeObj, meta}
use elastic_env_operator.Entity.Keys.{kubevela_app_name_label}
use elastic_env_operator.Cluster.{Resource, unless_missing}

module _ {W O V : Type 0} ⦃obj : RuntimeObj O⦄ (view : O → V) (r : Resource W O) where
  abbrev pub Holds : String → String → V → W → Type 0
  Holds namespace name v w = (o : O) × (r.get namespace name w ≡ ok o) × (view o ≡ v)

  pub record Stores : Type 0 where
    pub named :
        (namespace name : String) (o : O) (w : W)
        → r.get namespace name w ≡ ok o
        → ((meta o).namespace ≡ namespace) × ((meta o).name ≡ name)
    pub created :
        (o : O) (w : W) → EndsIn (Holds (meta o).namespace (meta o).name (view o)) (r.create o) w
    pub updated :
        (o : O) (w : W) → EndsIn (Holds (meta o).namespace (meta o).name (view o)) (r.update o) w
    pub create_other :
        (o : O) (namespace name : String) (v : V)
        → (meta o).name ≢ name
        → Keeps (Holds namespace name v) (r.create o)
    pub update_other :
        (o : O) (namespace name : String) (v : V)
        → (meta o).name ≢ name
        → Keeps (Holds namespace name v) (r.update o)
    pub delete_other :
        (o : O) (namespace name : String) (v : V)
        → (meta o).name ≢ name
        → Keeps (Holds namespace name v) (r.delete o)

-- What is done to the objects of one kind leaves what is read of another.
abbrev pub ReadsSame : {W O : Type 0} → Resource W O → W → W → Type 0
ReadsSame r w w' =
    ((namespace name : String) → r.get namespace name w' ≡ r.get namespace name w)
    × ((namespace : String) (labels : Map String)
        → r.list namespace labels w' ≡ r.list namespace labels w)

module _ {W O O' : Type 0} (r : Resource W O) (beside : Resource W O') where
  pub record Leaves : Type 0 where
    pub create : (o : O') (w : W) → ReadsSame r w (beside.create o w).1
    pub update : (o : O') (w : W) → ReadsSame r w (beside.update o w).1
    pub update_status : (o : O') (w : W) → ReadsSame r w (beside.update_status o w).1
    pub delete : (o : O') (w : W) → ReadsSame r w (beside.delete o w).1

-- KubeVela made none of the objects of the kind.
abbrev pub NoneOfKubevela : {W O : Type 0} ⦃obj : RuntimeObj O⦄ → Resource W O → Type 0
NoneOfKubevela {W} {O} r =
    (namespace name : String) (o : O) (w : W)
    → r.get namespace name w ≡ ok o
    → has (meta o).labels kubevela_app_name_label ≡ false

blank_or :
    {O : Type 0} (Q : O → Type 0) (missing : Bool) (blank : O) (e : Error) (o : O)
    → Q blank
    → (if missing then ok blank else err e) ≡ ok o
    → Q o
blank_or Q true blank e o q same = subst Q (cc same) q
blank_or Q false blank e o q same = absurd (cc same)

-- What holds of the object that was read and of the one that stands for a missing one.
pub unless_missing_lem :
    {O : Type 0} (Q : O → Type 0) (found : Result O) (blank : O)
    → ((o : O) → found ≡ ok o → Q o)
    → Q blank
    → (o : O) → unless_missing found blank ≡ ok o
    → Q o
unless_missing_lem Q (ok o) blank k q o' e = k o' e
unless_missing_lem Q (err e') blank k q o e = blank_or Q e'.is_not_found blank e' o q e
unless_missing_lem Q panic blank k q o e = absurd (cc e)
