-- ===== src/Clientset/Rest.antt =====
-- The REST client of k8s.io/client-go, as the typed clients use it: a request is begun, described and
-- sent.
use elastic_env_operator.Base.{
  String, Bool, List, Option, none, some, ℤ, pos, to_int64, times, Exec,
}
use elastic_env_operator.Api.Core.{Raw}

-- The fields of v1.ListOptions that the clients read or write, and the others by their text.
pub record ListOptions : Type 0 where
  pub timeout_seconds : Option ℤ
  pub watch : Bool
  pub others : Raw

-- rest.Interface with its requests, for the objects of one kind. Nothing is known of a request.
pub record Rest (World O : Type 0) : Type 1 where
  pub Request : Type 0
  pub Watch : Type 0
  pub get : Request
  pub post : Request
  pub put : Request
  pub delete : Request
  -- Patch, with the type of the patch
  pub patch : String → Request
  pub namespace : String → Request → Request
  pub resource : String → Request → Request
  pub sub_resource : List String → Request → Request
  pub name : String → Request → Request
  -- VersionedParams, for the options of a list and for others
  pub list_params : ListOptions → Request → Request
  pub params : Raw → Request → Request
  -- Timeout, in nanoseconds
  pub timeout : ℤ → Request → Request
  -- Body, for an object, for options and for bytes
  pub body : O → Request → Request
  pub options_body : Raw → Request → Request
  pub bytes_body : String → Request → Request
  -- Do(ctx).Into for an object and for a list, Do(ctx).Error, and Watch(ctx)
  pub into : Request → Exec World O
  pub into_list : Request → Exec World (List O)
  pub error : Request → Exec World (Unit {0})
  pub watch : Request → Exec World Watch

-- time.Duration(*opts.TimeoutSeconds) * time.Second, and 0 for none
unfoldable pub timeout_of : Option ℤ → ℤ
timeout_of none = pos 0
timeout_of (some seconds) = to_int64 (times seconds 1_000_000_000)

-- The interfaces of the three clients, which have the same methods.
pub record TypedClient (World O W : Type 0) : Type 0 where
  pub create : O → Raw → Exec World O
  pub update : O → Raw → Exec World O
  pub delete : String → Raw → Exec World (Unit {0})
  pub delete_collection : Raw → ListOptions → Exec World (Unit {0})
  pub get : String → Raw → Exec World O
  pub list : ListOptions → Exec World (List O)
  pub watch : ListOptions → Exec World W
  pub patch : String → String → String → Raw → List String → Exec World O
