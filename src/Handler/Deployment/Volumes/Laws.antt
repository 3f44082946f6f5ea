-- ===== src/Handler/Deployment/Volumes/Laws.antt =====
-- How the volumes and the mounts of a pod fit each other.
use text.Mathlib.TextLemmas.{append_cancel_left}
use elastic_env_operator.Base.{
  ℕ, zero, suc, ◌+◌, ◌≡◌, ◌≢◌, refl, ap, ◌∙◌, String, Option, none, some, List, [], ◌∷◌, decimal,
  decimal-injective, get_elem?, arith, Bool-cases, inl, inr, false, eq_iff, ◌<◌, ◌==◌,
  if◌then◌else◌,
}
use elastic_env_operator.Api.Types.{VolumeSpec}
use elastic_env_operator.Kinds.Workload.{Volume, VolumeMount, VolumeSource}
use elastic_env_operator.Handler.Deployment.Volumes.{
  volume_name, source_of, volumes_from, mounts_from, with_source, get_volume_and_volume_mounts,
}

volume_name-injective : (i j : ℕ) → volume_name i ≡ volume_name j → i ≡ j
unfolding volume_name
volume_name-injective i j e =
    decimal-injective i j (append_cancel_left "volume-" (decimal i) (decimal j) e)

abbrev pub mount_of : ℕ → Option VolumeSpec → Option VolumeMount
mount_of n none = none
mount_of n (some v) = some (record { name = volume_name n; mount_path = v.mount_path })

get_elem?-mounts_from :
    (vs : List VolumeSpec) (n i : ℕ)
    → get_elem? (mounts_from n vs) i ≡ mount_of (n + i) (get_elem? vs i)
unfolding mounts_from
get_elem?-mounts_from [] n i = refl
get_elem?-mounts_from (v ∷ vs) n zero =
    ap (λ k. some (record { name = volume_name k; mount_path = v.mount_path })) (omega arith)
get_elem?-mounts_from (v ∷ vs) n (suc i) =
    get_elem?-mounts_from vs (suc n) i ∙ ap (λ k. mount_of k (get_elem? vs i)) (omega arith)

-- The i-th volume specification is mounted at its path under the name of its index, and there are
-- no other mounts.
pub get_elem?-mounts :
    (vs : List VolumeSpec) (i : ℕ)
    → get_elem? (get_volume_and_volume_mounts vs).1 i ≡ mount_of i (get_elem? vs i)
unfolding get_volume_and_volume_mounts
get_elem?-mounts vs i =
    get_elem?-mounts_from vs 0 i ∙ ap (λ k. mount_of k (get_elem? vs i)) (omega arith)

-- The source that a name stands for.
abbrev pub find_volume : String → List Volume → Option VolumeSource
find_volume name [] = none
find_volume name (v ∷ volumes) = if name == v.name then some v.source else find_volume name volumes

abbrev pub source_at : Option VolumeSpec → Option VolumeSource
source_at none = none
source_at (some v) = source_of v

name_differs : (i j : ℕ) → i ≢ j → (volume_name i == volume_name j) ≡ false
name_differs i j h = elim (Bool-cases (volume_name i == volume_name j)) [
  | inl e ↦ absurd (h (volume_name-injective i j ((eq_iff _ _).0 e)))
  | inr e ↦ e
]

-- What `with_source` puts first.
find-with_source :
    (name : String) (n : ℕ) (s : Option VolumeSource) (rest : List Volume)
    → name == volume_name n ≡ false
    → find_volume name (with_source n s rest) ≡ find_volume name rest
unfolding with_source
find-with_source name n none rest h = refl
find-with_source name n (some s) rest h = rw h refl

find-with_source_same :
    (n : ℕ) (s : Option VolumeSource) (rest : List Volume)
    → find_volume (volume_name n) rest ≡ none
    → find_volume (volume_name n) (with_source n s rest) ≡ s
unfolding with_source
find-with_source_same n none rest h = h
find-with_source_same n (some s) rest h = rw ((eq_iff (volume_name n) (volume_name n)).1 refl) refl

-- No volume of a later index has the name.
find-volumes_later :
    (vs : List VolumeSpec) (n i : ℕ)
    → i < n
    → find_volume (volume_name i) (volumes_from n vs) ≡ none
unfolding volumes_from
find-volumes_later [] n i h = refl
find-volumes_later (v ∷ vs) n i h =
    find-with_source (volume_name i) n (source_of v) (volumes_from (suc n) vs)
      (name_differs i n (λ e. absurd (omega arith)))
    ∙ find-volumes_later vs (suc n) i (omega arith)

find-volumes_from :
    (vs : List VolumeSpec) (n i : ℕ)
    → find_volume (volume_name (n + i)) (volumes_from n vs) ≡ source_at (get_elem? vs i)
unfolding volumes_from
find-volumes_from [] n i = refl
find-volumes_from (v ∷ vs) n zero =
    ap (λ k. find_volume (volume_name k) (volumes_from n (v ∷ vs))) (omega arith)
    ∙ find-with_source_same n (source_of v) (volumes_from (suc n) vs)
        (find-volumes_later vs (suc n) n (omega arith))
find-volumes_from (v ∷ vs) n (suc i) =
    find-with_source (volume_name (n + suc i)) n (source_of v) (volumes_from (suc n) vs)
      (name_differs (n + suc i) n (λ e. absurd (omega arith)))
    ∙ (ap (λ k. find_volume (volume_name k) (volumes_from (suc n) vs)) (omega arith)
        ∙ find-volumes_from vs (suc n) i)

find_volume-volume_name :
    (vs : List VolumeSpec) (i : ℕ)
    → find_volume (volume_name i) (get_volume_and_volume_mounts vs).0 ≡ source_at (get_elem? vs i)
unfolding get_volume_and_volume_mounts
find_volume-volume_name vs i =
    ap (λ k. find_volume (volume_name k) (volumes_from 0 vs)) (omega arith)
    ∙ find-volumes_from vs 0 i

-- Where a mount stands in the container, and what it shows among the volumes of the pod.
abbrev pub shown_by : List Volume → Option VolumeMount → Option (String × Option VolumeSource)
shown_by volumes none = none
shown_by volumes (some m) = some (m.mount_path, find_volume m.name volumes)

-- What a specification asks for: a path, and a source if it has one.
abbrev pub asked_by : Option VolumeSpec → Option (String × Option VolumeSource)
asked_by none = none
asked_by (some v) = some (v.mount_path, source_of v)

shown-mount_of :
    (volumes : List Volume) (i : ℕ) (v : Option VolumeSpec)
    → find_volume (volume_name i) volumes ≡ source_at v
    → shown_by volumes (mount_of i v) ≡ asked_by v
shown-mount_of volumes i none h = refl
shown-mount_of volumes i (some v) h = ap (λ s. some (v.mount_path, s)) h

-- The i-th mount stands at the path of the i-th volume specification, and its name stands, among
-- the volumes of the pod, for the source of that specification, or for nothing where it has no
-- source; there is an i-th mount only where there is an i-th specification.
pub mounts_show_volumes :
    (vs : List VolumeSpec) (i : ℕ)
    → let (volumes, mounts) = get_volume_and_volume_mounts vs in
      shown_by volumes (get_elem? mounts i) ≡ asked_by (get_elem? vs i)
mounts_show_volumes vs i =
    ap (shown_by (get_volume_and_volume_mounts vs).0) (get_elem?-mounts vs i)
    ∙ shown-mount_of (get_volume_and_volume_mounts vs).0 i (get_elem? vs i)
        (find_volume-volume_name vs i)
