-- ===== src/Entity/ConfigMap/Locks/Laws.antt =====
-- Methods that take the lock once never stop each other.
use mathlib.Core.Path.{subst}
use elastic_env_operator.Base.{
  ltb, ℕ, suc, ◌≤◌, ◌≡◌, refl, ap, sym, Bool, Bool-cases, inl, inr, true, false, some, List, [],
  ◌∷◌, nat_eq, arith, All,
}
use elastic_env_operator.Entity.ConfigMap.Locks.{
  LockOp, r_lock, r_unlock, lock, acquire, unlock, Writer, absent, waiting, holding, Mutex,
  LockState, act, step_of, done_by, behind, step, run, idle,
}
use elastic_env_operator.Entity.ConfigMap.Locks.Counting.{
  reads, announces, writes, total, IsSimple, finished, reader, reading, loader, pending, writing,
  IsCounted, StillCounted, idle-IsCounted, run-IsCounted, IsMethod,
}

-- Some goroutine has a step.
abbrev CanStep : Mutex → List (List LockOp) → Type 0
CanStep m gs = (i : ℕ) × (s : LockState) × (step_of i m gs ≡ some s)

behind_can :
    (m : Mutex) (g : List LockOp) (gs : List (List LockOp)) → CanStep m gs → CanStep m (g ∷ gs)
unfolding step_of behind
behind_can m g gs (i, s, e) = (suc i, record s { goroutines = g ∷ s.goroutines }, ap (behind g) e)

-- A goroutine of a kind that can step, if there is one.
find_step :
    (f : List LockOp → ℕ) (m : Mutex) (gs : List (List LockOp))
    → ((g : List LockOp) (rest : List (List LockOp)) → 1 ≤ f g → CanStep m (g ∷ rest))
    → 1 ≤ total f gs
    → CanStep m gs
find_step f m [] k l = absurd (omega (arith, l))
find_step f m (g ∷ gs) k l = elim (Bool-cases (ltb 0 (f g))) [
  | inl e ↦ k g gs (ground (arith, e))
  | inr e ↦ behind_can m g gs (find_step f m gs k (ground (arith, e, l)))
]

reads_can :
    (m : Mutex) (g : List LockOp) (gs : List (List LockOp)) → 1 ≤ reads g → CanStep m (g ∷ gs)
unfolding step_of done_by act
reads_can m [] gs l = absurd (omega (arith, l))
reads_can m (r_lock ∷ ops) gs l = absurd (omega (arith, l))
reads_can m (r_unlock ∷ ops) gs l = (0, _, refl)
reads_can m (lock ∷ ops) gs l = absurd (omega (arith, l))
reads_can m (acquire ∷ ops) gs l = absurd (omega (arith, l))
reads_can m (unlock ∷ ops) gs l = absurd (omega (arith, l))

announces_can :
    (w : Writer) (g : List LockOp) (gs : List (List LockOp))
    → 1 ≤ announces g
    → CanStep (record { readers = 0; writer = w }) (g ∷ gs)
unfolding step_of done_by act
announces_can w [] gs l = absurd (omega (arith, l))
announces_can w (r_lock ∷ ops) gs l = absurd (omega (arith, l))
announces_can w (r_unlock ∷ ops) gs l = absurd (omega (arith, l))
announces_can w (lock ∷ ops) gs l = absurd (omega (arith, l))
announces_can w (acquire ∷ ops) gs l = (0, _, refl)
announces_can w (unlock ∷ ops) gs l = absurd (omega (arith, l))

writes_can :
    (m : Mutex) (g : List LockOp) (gs : List (List LockOp)) → 1 ≤ writes g → CanStep m (g ∷ gs)
unfolding step_of done_by act
writes_can m [] gs l = absurd (omega (arith, l))
writes_can m (r_lock ∷ ops) gs l = absurd (omega (arith, l))
writes_can m (r_unlock ∷ ops) gs l = absurd (omega (arith, l))
writes_can m (lock ∷ ops) gs l = absurd (omega (arith, l))
writes_can m (acquire ∷ ops) gs l = absurd (omega (arith, l))
writes_can m (unlock ∷ ops) gs l = (0, _, refl)

abbrev pub all_finished : List (List LockOp) → Bool
all_finished [] = true
all_finished ([] ∷ gs) = all_finished gs
all_finished ((op ∷ ops) ∷ gs) = false

free_can :
    (n : ℕ) (gs : List (List LockOp))
    → All IsSimple gs
    → total announces gs ≡ 0
    → all_finished gs ≡ false
    → CanStep (record { readers = n; writer = absent }) gs
unfolding step_of done_by act
free_can n [] h t u = absurd (cc u)
free_can n (_ ∷ gs) (finished, h) t u = behind_can _ [] gs (free_can n gs h (omega (arith, t)) u)
free_can n (_ ∷ gs) (reader, h) t u = (0, _, refl)
free_can n (_ ∷ gs) (reading, h) t u = (0, _, refl)
free_can n (_ ∷ gs) (loader, h) t u = (0, _, refl)
free_can n (_ ∷ gs) (pending, h) t u = absurd (omega (arith, t))
free_can n (_ ∷ gs) (writing, h) t u = (0, _, refl)

waiting_can :
    (n : ℕ) (gs : List (List LockOp))
    → n ≡ total reads gs
    → 1 ≤ total announces gs
    → CanStep (record { readers = n; writer = waiting }) gs
waiting_can n gs r l = elim (Bool-cases (nat_eq n 0)) [
  | inl e ↦
      let empty : n ≡ 0 = ground (arith, e) in
      subst (λ k. CanStep (record { readers = k; writer = waiting }) gs) (sym empty)
        (find_step announces _ gs (announces_can waiting) l)
  | inr e ↦ find_step reads _ gs (reads_can _) (ground (arith, e, r))
]

IsCounted-can :
    (n : ℕ) (w : Writer) (gs : List (List LockOp))
    → IsCounted 0 0 0 (record { readers = n; writer = w }) gs
    → all_finished gs ≡ false
    → CanStep (record { readers = n; writer = w }) gs
IsCounted-can n absent gs c u = free_can n gs c.simple (omega (arith, c.counts_announced)) u
IsCounted-can n waiting gs c u =
    waiting_can n gs (omega (arith, c.counts_reads)) (omega (arith, c.counts_announced))
IsCounted-can n holding gs c u = find_step writes _ gs (writes_can _) (omega (arith, c.counts_held))

-- Whatever the schedule was, methods that take the lock once go on: unless all of them are at their
-- end, one of them has a step.
pub single_locks_go_on :
    (gs : List (List LockOp)) (schedule : List ℕ) (s : LockState)
    → All IsMethod gs
    → run schedule (idle gs) ≡ some s
    → all_finished s.goroutines ≡ false
    → (i : ℕ) × (s' : LockState) × (step i s ≡ some s')
unfolding step
single_locks_go_on gs schedule s h e u =
    IsCounted-can s.mutex.readers s.mutex.writer s.goroutines
      (subst (StillCounted 0 0 0) e (run-IsCounted schedule (idle gs) (idle-IsCounted gs h))) u
