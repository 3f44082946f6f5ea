-- ===== src/Handler/Deployment/Volumes.antt =====
-- getVolumeAndVolumeMounts of deployment_handler.go
pub mod Laws
use elastic_env_operator.Base.{
  ℕ, zero, suc, ◌+◌, ◌≡◌, ◌≢◌, ◌↔◌, refl, ap, ◌∙◌, sym, inl, inr, Bool-cases, String, ◌<>◌, Bool,
  true, false, Option, none, some, List, [], ◌∷◌, map, decimal, decimal-injective, is_empty, length,
  get_elem?, arith, if◌then◌else◌,
}
use elastic_env_operator.Api.Types.{VolumeSpec, DownwardApiFile}
use elastic_env_operator.Kinds.Workload.{
  Volume, VolumeMount, VolumeSource, DownwardApiVolumeFile, empty_dir, host_path, config_map,
  secret, claim, downward_api,
}

-- fmt.Sprintf("volume-%d", i)
unfoldable pub volume_name : ℕ → String
unfolding decimal
volume_name i = "volume-" <> decimal i

file_of : DownwardApiFile → DownwardApiVolumeFile
file_of f = record { path = f.file_name; field_path = f.field_path }

downward_source : Option (List DownwardApiFile) → Option VolumeSource
unfolding file_of
downward_source none = none
downward_source (some files) = some (downward_api (map file_of files))

-- The source of a volume: the first one that is set, in the order of the tests.
unfoldable pub source_of : VolumeSpec → Option VolumeSource
unfolding downward_source
source_of v =
    if v.empty_dir
    then some empty_dir
    else if is_empty v.host_path
    then (if is_empty v.config_map
        then (if is_empty v.secret
            then (if is_empty v.persistent_volume_claim_name
                then downward_source v.downward_api
                else some (claim v.persistent_volume_claim_name))
            else some (secret v.secret))
        else some (config_map v.config_map))
    else some (host_path v.host_path)

-- A volume is written only where the specification has a source.
with_source : ℕ → Option VolumeSource → List Volume → List Volume
with_source i none volumes = volumes
with_source i (some s) volumes = record { name = volume_name i; source = s } ∷ volumes

-- The loop, from the index of the first specification.
unfoldable pub volumes_from : ℕ → List VolumeSpec → List Volume
unfolding with_source
volumes_from i [] = []
volumes_from i (v ∷ vs) = with_source i (source_of v) (volumes_from (suc i) vs)

unfoldable pub mounts_from : ℕ → List VolumeSpec → List VolumeMount
mounts_from i [] = []
mounts_from i (v ∷ vs) =
    record { name = volume_name i; mount_path = v.mount_path } ∷ mounts_from (suc i) vs

-- getVolumeAndVolumeMounts
unfoldable pub get_volume_and_volume_mounts : List VolumeSpec → List Volume × List VolumeMount
unfolding volumes_from mounts_from
get_volume_and_volume_mounts specs = (volumes_from 0 specs, mounts_from 0 specs)
