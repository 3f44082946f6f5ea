-- ===== src/Handler/Reconcile/Laws.antt =====
-- When a reconciliation does nothing, and what it leaves when it succeeds.
use elastic_env_operator.Base.{◌≡◌, true, false, ◌&&◌, ok, err, Error, arith, if◌then◌else◌}
use elastic_env_operator.Api.Meta.{RuntimeObj}
use elastic_env_operator.Entity.ConfigMap.{SqbConfigMapEntity, is_initialized, is_ready}
use elastic_env_operator.Handler.Reconcile.{SqbReconciler, requeue_after, done, handle_reconcile}

module _ {W O : Type 0} ⦃o : RuntimeObj O⦄ (r : SqbReconciler W O) (sc : SqbConfigMapEntity)
    (w : W) where
  -- Before the configuration is loaded a request is queued again after a second, and until the
  -- operator is ready it is dropped; in both cases the cluster stays as it is.
  pub reconcile_not_ready :
      (is_initialized sc && is_ready sc) ≡ false
      → handle_reconcile r sc w ≡ (if is_initialized sc then done else requeue_after 1, w)
  unfolding handle_reconcile
  reconcile_not_ready h = ground arith

  -- With a ready operator, an object that is not there is no error, and the cluster is as the read
  -- left it.
  pub reconcile_not_found :
      {e : Error} {w' : W}
      → is_initialized sc ≡ true
      → is_ready sc ≡ true
      → r.get_instance w ≡ (err e, w')
      → e.is_not_found ≡ true
      → handle_reconcile r sc w ≡ (done, w')
  unfolding handle_reconcile
  reconcile_not_found h h' g n = ground arith

  -- With a loaded and ready configuration, where the object is read and is initialized and Operate
  -- succeeds, the reconciliation is done, in the cluster that Operate left.
  pub reconcile_success :
      {obj : O} {w₁ : W} {s s' : O × W}
      → is_initialized sc ≡ true
      → is_ready sc ≡ true
      → r.get_instance w ≡ (ok obj, w₁)
      → r.is_initialized (obj, w₁) ≡ (ok true, s)
      → r.operate s ≡ (ok tt, s')
      → handle_reconcile r sc w ≡ (done, s'.1)
  unfolding handle_reconcile
  reconcile_success h h' g i p = ground arith
