-- ===== src/Api/Meta.antt =====
-- The metadata that every Kubernetes object carries, as far as the operator reads or writes it.
use elastic_env_operator.Base.{ℕ, String, Bool, List, [], Map, nil, nat_eq}

-- Seconds; 0 is the zero time, and a time that is not set.
abbrev pub Time : Type 0
Time = ℕ

-- t.IsZero()
abbrev pub is_zero : Time → Bool
is_zero t = nat_eq t 0

pub record ObjectMeta : Type 0 where
  pub namespace : String
  pub name : String
  pub labels : Map String
  pub annotations : Map String
  pub creation_timestamp : Time
  pub deletion_timestamp : Time
  pub finalizers : List String
  pub generation : ℕ

-- metav1.ObjectMeta{Namespace: namespace, Name: name}
abbrev pub named : String → String → ObjectMeta
named namespace name = record {
  namespace = namespace;
  name = name;
  labels = nil;
  annotations = nil;
  creation_timestamp = 0;
  deletion_timestamp = 0;
  finalizers = [];
  generation = 0;
}

-- The interface `runtimeObj`: an object gives its metadata.
pub record RuntimeObj (O : Type 0) : Type 0 where
  pub meta : O → ObjectMeta

abbrev pub meta : {O : Type 0} ⦃r : RuntimeObj O⦄ → O → ObjectMeta
meta ⦃r⦄ = r.meta
