-- ===== src/Handler/Reconcile/Keeping.antt =====
-- What a whole reconciliation keeps, from what the methods of its reconciler keep.
use elastic_env_operator.Base.{
  ℕ, ◌≡◌, refl, Bool, true, false, not, Error, Result, ok, err, panic, nat_eq, both_branches,
}
use elastic_env_operator.Api.Meta.{RuntimeObj, meta}
use elastic_env_operator.Entity.ConfigMap.{SqbConfigMapEntity, is_initialized, is_ready}
use elastic_env_operator.Handler.Reconcile.{
  SqbReconciler, Outcome, fail, after_fail, after_operate, operate_on, after_initialized, after_get,
  handle_reconcile,
}

module _ {W O : Type 0} ⦃obj : RuntimeObj O⦄ (P : W → Type 0) (IsLive : O → Type 0)
    (r : SqbReconciler W O) where
  -- What the methods keep, where Operate has to do so for a live object only.
  pub record KeepsMethods : Type 0 where
    pub get_instance : (w : W) → P w → P (r.get_instance w).1
    pub is_initialized :
        (o : O) (w : W)
        → IsLive o
        → P w
        → P (r.is_initialized (o, w)).1.1 × IsLive (r.is_initialized (o, w)).1.0
    pub operate : (o : O) (w : W) → IsLive o → P w → P (r.operate (o, w)).1.1
    pub reconcile_fail : (e : Error) (o : O) (w : W) → P w → P (r.reconcile_fail e (o, w)).1.1

  abbrev Kept : Outcome × W → Type 0
  Kept x = P x.1

  module _ (k : KeepsMethods) where
    after_fail-Kept :
        (e : Error) (result : Result (Unit {0})) (w : W) → P w → Kept (after_fail r e result w)
    unfolding after_fail
    after_fail-Kept e (ok u) w h = h
    after_fail-Kept e (err e') w h = h
    after_fail-Kept e panic w h = h

    fail-Kept : (e : Error) (o : O) (w : W) → P w → Kept (fail r e o w)
    unfolding fail
    fail-Kept e o w h =
        let (result, s) = r.reconcile_fail e (o, w) in
        after_fail-Kept e result s.1 (k.reconcile_fail e o w h)

    after_operate-Kept :
        (result : Result (Unit {0})) (o : O) (w : W) → P w → Kept (after_operate r result o w)
    unfolding after_operate
    after_operate-Kept (ok u) o w h = h
    after_operate-Kept (err e) o w h = fail-Kept e o w h
    after_operate-Kept panic o w h = h

    operate_on-Kept : (o : O) (w : W) → IsLive o → P w → Kept (operate_on r o w)
    unfolding operate_on
    operate_on-Kept o w live h =
        after_operate-Kept (r.operate (o, w)).0 (r.operate (o, w)).1.0 (r.operate (o, w)).1.1
          (k.operate o w live h)

    after_initialized-Kept :
        (generation : ℕ) (result : Result Bool) (o : O) (w : W)
        → IsLive o
        → P w
        → Kept (after_initialized r generation result o w)
    unfolding after_initialized
    after_initialized-Kept generation (ok true) o w live h = operate_on-Kept o w live h
    after_initialized-Kept generation (ok false) o w live h =
        both_branches Kept (nat_eq generation (meta o).generation) _ _ (operate_on-Kept o w live h)
          h
    after_initialized-Kept generation (err e) o w live h = fail-Kept e o w h
    after_initialized-Kept generation panic o w live h = h

    after_get-Kept :
        (result : Result O) (w : W)
        → ((o : O) → result ≡ ok o → IsLive o)
        → P w
        → Kept (after_get r result w)
    unfolding after_get
    after_get-Kept (ok o) w live h =
        let (h', live') = k.is_initialized o w (live o refl) h in
        let (result, (o', w')) = r.is_initialized (o, w) in
        after_initialized-Kept (meta o).generation result o' w' live' h'
    after_get-Kept (err e) w live h =
        both_branches Kept e.is_not_found _ _ h (fail-Kept e r.blank w h)
    after_get-Kept panic w live h = h

  -- A reconciliation of an object that is live if it can be read.
  pub handle_reconcile-Kept :
      KeepsMethods
      → (sc : SqbConfigMapEntity) (w : W) → ((o : O) → (r.get_instance w).0 ≡ ok o → IsLive o)
      → P w
      → P (handle_reconcile r sc w).1
  unfolding handle_reconcile
  handle_reconcile-Kept k sc w live h = both_branches Kept (not (is_initialized sc)) _ _ h (
      both_branches Kept (not (is_ready sc)) _ _ h
        (after_get-Kept k (r.get_instance w).0 (r.get_instance w).1 live (k.get_instance w h)))
