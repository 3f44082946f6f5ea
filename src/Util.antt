-- ===== src/Util.antt =====
-- domain/util/util.go
pub mod Laws
use elastic_env_operator.Base.{
  String, ◌<>◌, Bool, true, false, ◌||◌, ◌==◌, List, [], ◌∷◌, Option, none, some, Map, made,
  entries, set_all, split, contains, is_empty, Error, if◌then◌else◌,
}

-- MergeStringMap
unfoldable pub merge_string_map : Map String → Map String → Map String
merge_string_map base to_merge = made (set_all (set_all [] (entries base)) (entries to_merge))

-- ContainString
unfoldable pub contain_string : List String → String → Bool
contain_string [] item = false
contain_string (i ∷ list) item = i == item || contain_string list item

abbrev default_salt : String
default_salt = "0e80b3a3-ad6b-4bc5-a41e-57ea49266417"

-- GetDeleteCheckSum. `md5_hex` is the MD5 sum in hexadecimal digits, and `salt` what the
-- environment variable MD5_SALT holds.
unfoldable pub get_delete_check_sum : (String → String) → String → String → String
get_delete_check_sum md5_hex salt name =
    md5_hex (name <> (if is_empty salt then default_salt else salt))

-- GetSubsetName
unfoldable pub get_subset_name : String → String → String
get_subset_name service plane = (split b'.' service).0 <> ("-" <> plane)

-- IgnoreInvalidError
unfoldable pub ignore_invalid_error : Option Error → Option Error
ignore_invalid_error none = none
ignore_invalid_error (some e) =
    if contains e.message "invalid"
      || contains e.message "Invalid"
      || contains e.message "cannot unmarshal"
    then none
    else some e
