-- ===== src/Handler/Reconcile.antt =====
-- HandleReconcile and the interface `SQBReconciler`. The methods of a reconciler work on a pair:
-- the object, which they may change in place, and the cluster.
pub mod Laws
pub mod Keeping
pub mod Finishing
use elastic_env_operator.Base.{
  ℕ, Bool, true, false, not, Option, none, some, nat_eq, Error, Result, ok, err, panic, Exec,
  if◌then◌else◌,
}
use elastic_env_operator.Api.Meta.{ObjectMeta, RuntimeObj, meta}
use elastic_env_operator.Util.{ignore_invalid_error}
use elastic_env_operator.Entity.ConfigMap.{SqbConfigMapEntity, is_initialized, is_ready}

pub record SqbReconciler (W O : Type 0) : Type 0 where
  -- The object that stands for one that could not be read.
  pub blank : O
  pub get_instance : Exec W O
  pub is_initialized : Exec (O × W) Bool
  pub operate : Exec (O × W) (Unit {0})
  pub reconcile_fail : Error → Exec (O × W) (Unit {0})

-- ctrl.Result and the error: requeue after so many seconds, or an error, with which the request
-- is queued again, or the end.
pub data Outcome : Type 0 where
  requeue_after : ℕ → Outcome
  done : Outcome
  failed : Error → Outcome
  panicked : Outcome

abbrev pub outcome : Option Error → Outcome
outcome none = done
outcome (some e) = failed e

module _ {W O : Type 0} ⦃o : RuntimeObj O⦄ (r : SqbReconciler W O) where
  -- The return of the error that ReconcileFail was given, unless it is one of invalid input.
  after_fail : Error → Result (Unit {0}) → W → Outcome × W
  unfolding ignore_invalid_error
  after_fail e (ok u) w = (outcome (ignore_invalid_error (some e)), w)
  after_fail e (err e') w = (outcome (ignore_invalid_error (some e)), w)
  after_fail e panic w = (panicked, w)

  -- `r.ReconcileFail(obj, err)`
  fail : Error → O → W → Outcome × W
  unfolding after_fail
  fail e obj w = let (result, s) = r.reconcile_fail e (obj, w) in after_fail e result s.1

  after_operate : Result (Unit {0}) → O → W → Outcome × W
  unfolding fail
  after_operate (ok u) obj w = (done, w)
  after_operate (err e) obj w = fail e obj w
  after_operate panic obj w = (panicked, w)

  operate_on : O → W → Outcome × W
  unfolding after_operate
  operate_on obj w = let (result, s) = r.operate (obj, w) in after_operate result s.0 s.1

  after_initialized : ℕ → Result Bool → O → W → Outcome × W
  unfolding operate_on fail
  after_initialized generation (ok true) obj w = operate_on obj w
  after_initialized generation (ok false) obj w =
      if nat_eq generation (meta obj).generation then operate_on obj w else (done, w)
  after_initialized generation (err e) obj w = fail e obj w
  after_initialized generation panic obj w = (panicked, w)

  after_get : Result O → W → Outcome × W
  unfolding after_initialized fail
  after_get (ok obj) w =
      let (result, s) = r.is_initialized (obj, w) in
      after_initialized (meta obj).generation result s.0 s.1
  after_get (err e) w = if e.is_not_found then (done, w) else fail e r.blank w
  after_get panic w = (panicked, w)

  -- HandleReconcile
  unfoldable pub handle_reconcile : SqbConfigMapEntity → W → Outcome × W
  unfolding after_get
  handle_reconcile sc w =
      if not (is_initialized sc)
      then (requeue_after 1, w)
      else if not (is_ready sc)
      then (done, w)
      else let (result, w') = r.get_instance w in after_get result w'
