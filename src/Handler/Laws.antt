-- ===== src/Handler/Laws.antt =====
-- What IsDeleted says of an object.
use elastic_env_operator.Base.{
  ◌≡◌, ◌↔◌, String, Bool, true, false, Option, none, some, get?, Result, ok, err, panic, arith,
  eq_iff,
}
use elastic_env_operator.Api.Meta.{ObjectMeta}
use elastic_env_operator.Entity.Keys.{explicit_delete_annotation_key}
use elastic_env_operator.Util.{get_delete_check_sum}
use elastic_env_operator.Operator.{Checksum}
use elastic_env_operator.Handler.{compare_sum, succeeded, is_deleted, deleted}

compare_sum_iff :
    (expected : String) (o : Option String)
    → ((compare_sum expected o ≡ ok true) ↔ (o ≡ some expected))
      × ((compare_sum expected o ≡ ok false) ↔ (o ≡ none))
unfolding compare_sum
compare_sum_iff expected none = ground arith
compare_sum_iff expected (some sum) = ground (arith, eq_iff sum expected)

succeeded_iff : (o : Result Bool) → (succeeded o ≡ true) ↔ (o ≡ ok true)
succeeded_iff (ok b) = ground arith
succeeded_iff (err e) = ground arith
succeeded_iff panic = ground arith

module _ (sums : Checksum) (m : ObjectMeta) where
  abbrev pub check_sum : String
  check_sum = get_delete_check_sum sums.md5_hex sums.salt m.name

  abbrev pub annotation : Option String
  annotation = get? m.annotations explicit_delete_annotation_key

  -- An object counts as deleted, with the error tested or dropped, exactly when its annotation is
  -- the checksum of its name, and as not deleted, without an error, exactly when it has no such
  -- annotation.
  pub is_deleted_iff :
      ((is_deleted sums m ≡ ok true) ↔ (annotation ≡ some check_sum))
      × ((is_deleted sums m ≡ ok false) ↔ (annotation ≡ none))
      × ((deleted sums m ≡ true) ↔ (annotation ≡ some check_sum))
  unfolding deleted
  is_deleted_iff =
      let c = compare_sum_iff check_sum annotation in
      let d = succeeded_iff (compare_sum check_sum annotation) in
      (c.0, c.1, (λ h. c.0.0 (d.0 h), λ h. d.1 (c.0.1 h)))
