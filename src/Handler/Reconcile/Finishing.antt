-- ===== src/Handler/Reconcile/Finishing.antt =====
-- A reconciliation whose Operate ends well is done.
use elastic_env_operator.Base.{◌≡◌, refl, ok, err, panic, true, Result, Attains}
use elastic_env_operator.Api.Meta.{RuntimeObj}
use elastic_env_operator.Entity.ConfigMap.{SqbConfigMapEntity, is_initialized, is_ready}
use elastic_env_operator.Handler.Reconcile.{
  SqbReconciler, Outcome, done, handle_reconcile, after_get, after_initialized, after_operate,
  operate_on,
}

module _ {W O : Type 0} ⦃obj : RuntimeObj O⦄ (r : SqbReconciler W O) (P : W → Type 0) where
  -- It is done, in a cluster of the property.
  abbrev pub IsDone : Outcome × W → Type 0
  IsDone (outcome, w) = (outcome ≡ done) × P w

  after_operate-IsDone :
      (result : Result (Unit {0})) (o : O) (w : W)
      → (u : Unit {0}) × (result ≡ ok u)
      → P w
      → IsDone (after_operate r result o w)
  unfolding after_operate
  after_operate-IsDone (ok u) o w h p = (refl, p)
  after_operate-IsDone (err e) o w h p = absurd (cc h.1)
  after_operate-IsDone panic o w h p = absurd (cc h.1)

  operate_on-IsDone :
      (o : O) (w : W) → Attains (λ s. P s.1) r.operate (o, w) → IsDone (operate_on r o w)
  unfolding operate_on
  operate_on-IsDone o w (u, e, p) =
      let (result, s) = r.operate (o, w) in after_operate-IsDone result s.0 s.1 (u, e) p

  after_get-IsDone :
      (found : Result O) (o : O) (w : W)
      → found ≡ ok o
      → r.is_initialized (o, w) ≡ (ok true, (o, w))
      → Attains (λ s. P s.1) r.operate (o, w)
      → IsDone (after_get r found w)
  unfolding after_get after_initialized
  after_get-IsDone found o w e i attains = rw e (rw i (operate_on-IsDone o w attains))

  -- The whole reconciliation, of an object that is there and initialized.
  pub reconcile-IsDone :
      (sc : SqbConfigMapEntity) (o : O) (w : W)
      → is_initialized sc ≡ true
      → is_ready sc ≡ true
      → r.get_instance w ≡ (ok o, w)
      → r.is_initialized (o, w) ≡ (ok true, (o, w))
      → Attains (λ s. P s.1) r.operate (o, w)
      → IsDone (handle_reconcile r sc w)
  unfolding handle_reconcile
  reconcile-IsDone sc o w initialized ready e i attains =
      rw (initialized, ready, e) (after_get-IsDone (ok o) o w refl i attains)
