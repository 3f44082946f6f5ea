-- ===== src/Handler/Deployment/Status/Laws.antt =====
-- What the status of an application or a plane records of a list of deployments.
use elastic_env_operator.Base.{
  insert, ℕ, ◌≡◌, refl, ◌∙◌, String, Bool, false, ◌&&◌, ◌||◌, ◌==◌, Option, none, some, List, [],
  ◌∷◌, Entries, lookup, lookup-insert, get?, arith, if◌then◌else◌,
}
use elastic_env_operator.Api.Meta.{is_zero}
use elastic_env_operator.Entity.Keys.{plane_key}
use elastic_env_operator.Api.Types.{SqbApplication}
use elastic_env_operator.Kinds.Workload.{Deployment}
use elastic_env_operator.Handler.Deployment.Status.{add_plane, mirrors_of, planes_of, with_status}

-- A deployment of the name is there and is not being deleted.
abbrev pub live_named : String → List Deployment → Bool
live_named name [] = false
live_named name (x ∷ xs) =
    let later = live_named name xs in
    (is_zero x.metadata.deletion_timestamp && x.metadata.name == name) || later

abbrev is_plane : String → Option String → Bool
is_plane plane none = false
is_plane plane (some p) = p == plane

-- A deployment of the plane is there and is not being deleted.
abbrev pub live_in_plane : String → List Deployment → Bool
live_in_plane plane [] = false
live_in_plane plane (x ∷ xs) =
    let later = live_in_plane plane xs in
    (is_zero x.metadata.deletion_timestamp && is_plane plane (get? x.metadata.labels plane_key))
    || later

lookup-mirrors_of :
    (items : List Deployment) (mirrors : Entries ℕ) (name : String)
    → lookup name (mirrors_of mirrors items)
      ≡ (if live_named name items then some 1 else lookup name mirrors)
unfolding mirrors_of
lookup-mirrors_of [] mirrors name = refl
lookup-mirrors_of (x ∷ xs) mirrors name =
    lookup-mirrors_of xs
      (if is_zero x.metadata.deletion_timestamp then insert x.metadata.name 1 mirrors else mirrors)
      name
    ∙ ground (arith, lookup-insert x.metadata.name name 1 mirrors)

lookup-add_plane :
    (p : Option String) (planes : Entries ℕ) (plane : String)
    → lookup plane (add_plane p planes) ≡ (if is_plane plane p then some 1 else lookup plane planes)
unfolding add_plane
lookup-add_plane none planes plane = refl
lookup-add_plane (some p) planes plane = lookup-insert p plane 1 planes

lookup-planes_of :
    (items : List Deployment) (planes : Entries ℕ) (plane : String)
    → lookup plane (planes_of planes items)
      ≡ (if live_in_plane plane items then some 1 else lookup plane planes)
unfolding planes_of
lookup-planes_of [] planes plane = refl
lookup-planes_of (x ∷ xs) planes plane =
    lookup-planes_of xs
      (if is_zero x.metadata.deletion_timestamp
        then add_plane (get? x.metadata.labels plane_key) planes
        else planes)
      plane
    ∙ ground (arith, lookup-add_plane (get? x.metadata.labels plane_key) planes plane)

-- The status of an application lists a mirror for exactly the names of its deployments that are not
-- being deleted, and a plane for exactly their planes, whatever the order of the deployments and
-- the status before.
pub get-with_status :
    (app : SqbApplication) (items : List Deployment) (k : String)
    → (get? (with_status app items).status.mirrors k
        ≡ (if live_named k items then some 1 else none))
      × (get? (with_status app items).status.planes k
          ≡ (if live_in_plane k items then some 1 else none))
unfolding with_status lookup
get-with_status app items k = (lookup-mirrors_of items [] k, lookup-planes_of items [] k)
