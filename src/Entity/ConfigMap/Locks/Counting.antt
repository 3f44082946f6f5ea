-- ===== src/Entity/ConfigMap/Locks/Counting.antt =====
-- What the mutex counts of goroutines that take the lock once.
use mathlib.Core.Path.{subst}
use elastic_env_operator.Base.{
  ◌⊎◌, ℕ, zero, suc, ◌+◌, ◌≡◌, refl, ap, sym, Bool-cases, inl, inr, Option, none, some, List, [],
  ◌∷◌, nat_eq, arith, All,
}
use elastic_env_operator.Entity.ConfigMap.Locks.{
  LockOp, r_lock, r_unlock, lock, acquire, unlock, Writer, absent, waiting, holding, Mutex,
  LockState, act, step_of, done_by, behind, step, run, continue_run, get_domain_names_locks,
  from_map_locks,
}

-- What a goroutine holds or waits for: a read lock, the announcement of a writer, the write lock.
abbrev pub reads : List LockOp → ℕ
reads (r_unlock ∷ ops) = 1
reads _ = 0

abbrev pub announces : List LockOp → ℕ
announces (acquire ∷ ops) = 1
announces _ = 0

abbrev pub writes : List LockOp → ℕ
writes (unlock ∷ ops) = 1
writes _ = 0

-- Where a method that takes the lock once may stand.
pub data IsSimple : List LockOp → Type 0 where
  finished : IsSimple []
  reader : IsSimple (r_lock ∷ r_unlock ∷ [])
  reading : IsSimple (r_unlock ∷ [])
  loader : IsSimple (lock ∷ acquire ∷ unlock ∷ [])
  pending : IsSimple (acquire ∷ unlock ∷ [])
  writing : IsSimple (unlock ∷ [])

abbrev pub total : (List LockOp → ℕ) → List (List LockOp) → ℕ
total f [] = 0
total f (g ∷ gs) = f g + total f gs

abbrev pub announced : Writer → ℕ
announced absent = 0
announced waiting = 1
announced holding = 0

abbrev pub held : Writer → ℕ
held absent = 0
held waiting = 0
held holding = 1

-- The mutex counts the goroutines, apart from `r` readers, `a` announcements and `h` holders
-- elsewhere.
pub record IsCounted (r a h : ℕ) (m : Mutex) (gs : List (List LockOp)) : Type 0 where
  pub simple : All IsSimple gs
  pub counts_reads : m.readers ≡ r + total reads gs
  pub counts_announced : announced m.writer ≡ a + total announces gs
  pub counts_held : held m.writer ≡ h + total writes gs
  pub excluded : held m.writer ≡ 1 → m.readers ≡ 0

abbrev pub StillCounted : (r a h : ℕ) → Option LockState → Type 0
StillCounted r a h none = Unit
StillCounted r a h (some s) = IsCounted r a h s.mutex s.goroutines

behind-IsCounted :
    (r a h : ℕ) (g : List LockOp) (o : Option LockState)
    → IsSimple g
    → StillCounted (r + reads g) (a + announces g) (h + writes g) o
    → StillCounted r a h (behind g o)
unfolding behind
behind-IsCounted r a h g none simple c = tt
behind-IsCounted r a h g (some s) simple c = record {
  simple = (simple, c.simple);
  counts_reads = omega (arith, c.counts_reads);
  counts_announced = omega (arith, c.counts_announced);
  counts_held = omega (arith, c.counts_held);
  excluded = c.excluded;
}

step_head-IsCounted :
    (r a h n : ℕ) (w : Writer) (g : List LockOp) (gs : List (List LockOp))
    → IsSimple g
    → IsCounted r a h (record { readers = n; writer = w }) (g ∷ gs)
    → StillCounted r a h (step_of zero (record { readers = n; writer = w }) (g ∷ gs))
unfolding step_of done_by act
step_head-IsCounted r a h n w _ gs finished c = tt
step_head-IsCounted r a h n absent _ gs reader c = record {
  simple = (reading, c.simple.1);
  counts_reads = omega (arith, c.counts_reads);
  counts_announced = c.counts_announced;
  counts_held = c.counts_held;
  excluded = λ e. absurd (omega (arith, e));
}
step_head-IsCounted r a h n waiting _ gs reader c = tt
step_head-IsCounted r a h n holding _ gs reader c = tt
step_head-IsCounted r a h n w _ gs reading c = record {
  simple = (finished, c.simple.1);
  counts_reads = omega (arith, c.counts_reads);
  counts_announced = c.counts_announced;
  counts_held = c.counts_held;
  excluded = λ e. omega (arith, c.excluded e);
}
step_head-IsCounted r a h n absent _ gs loader c = record {
  simple = (pending, c.simple.1);
  counts_reads = c.counts_reads;
  counts_announced = omega (arith, c.counts_announced);
  counts_held = c.counts_held;
  excluded = λ e. absurd (omega (arith, e));
}
step_head-IsCounted r a h n waiting _ gs loader c = tt
step_head-IsCounted r a h n holding _ gs loader c = tt
step_head-IsCounted r a h n absent _ gs pending c = absurd (omega (arith, c.counts_announced))
step_head-IsCounted r a h n waiting _ gs pending c = elim (Bool-cases (nat_eq n 0)) [
  | inr e ↦ rw e tt
  | inl e ↦
      let empty : n ≡ 0 = ground (arith, e) in
      rw e (record {
        simple = (writing, c.simple.1);
        counts_reads = omega (arith, c.counts_reads, empty);
        counts_announced = omega (arith, c.counts_announced);
        counts_held = omega (arith, c.counts_held);
        excluded = λ one. refl;
      })
]
step_head-IsCounted r a h n holding _ gs pending c = absurd (omega (arith, c.counts_announced))
step_head-IsCounted r a h n absent _ gs writing c = absurd (omega (arith, c.counts_held))
step_head-IsCounted r a h n waiting _ gs writing c = absurd (omega (arith, c.counts_held))
step_head-IsCounted r a h n holding _ gs writing c = record {
  simple = (finished, c.simple.1);
  counts_reads = c.counts_reads;
  counts_announced = c.counts_announced;
  counts_held = omega (arith, c.counts_held);
  excluded = λ e. absurd (omega (arith, e));
}

step_of-IsCounted :
    (i r a h : ℕ) (m : Mutex) (gs : List (List LockOp))
    → IsCounted r a h m gs
    → StillCounted r a h (step_of i m gs)
unfolding step_of
step_of-IsCounted i r a h m [] c = tt
step_of-IsCounted zero r a h m (g ∷ gs) c =
    step_head-IsCounted r a h m.readers m.writer g gs c.simple.0 c
step_of-IsCounted (suc i) r a h m (g ∷ gs) c =
    behind-IsCounted r a h g (step_of i m gs) c.simple.0 (
      step_of-IsCounted i (r + reads g) (a + announces g) (h + writes g) m gs (record {
        simple = c.simple.1;
        counts_reads = omega (arith, c.counts_reads);
        counts_announced = omega (arith, c.counts_announced);
        counts_held = omega (arith, c.counts_held);
        excluded = c.excluded;
      }))

-- The methods that take the lock once.
abbrev pub IsMethod : List LockOp → Type 0
IsMethod g = (g ≡ get_domain_names_locks) ⊎ (g ≡ from_map_locks)

IsMethod-IsSimple : (g : List LockOp) → IsMethod g → IsSimple g
unfolding get_domain_names_locks from_map_locks
IsMethod-IsSimple g (inl e) = subst IsSimple (sym e) reader
IsMethod-IsSimple g (inr e) = subst IsSimple (sym e) loader

IsMethod-idle : (g : List LockOp) → IsMethod g → (reads g ≡ 0) × (announces g ≡ 0) × (writes g ≡ 0)
unfolding get_domain_names_locks from_map_locks
IsMethod-idle g (inl e) = (ap reads e, ap announces e, ap writes e)
IsMethod-idle g (inr e) = (ap reads e, ap announces e, ap writes e)

pub idle-IsCounted :
    (gs : List (List LockOp))
    → All IsMethod gs
    → IsCounted 0 0 0 (record { readers = 0; writer = absent }) gs
idle-IsCounted [] h = record {
  simple = tt;
  counts_reads = refl;
  counts_announced = refl;
  counts_held = refl;
  excluded = λ e. refl;
}
idle-IsCounted (g ∷ gs) h =
    let c = idle-IsCounted gs h.1 in
    let (no_reads, no_announces, no_writes) = IsMethod-idle g h.0 in
    record {
      simple = (IsMethod-IsSimple g h.0, c.simple);
      counts_reads = omega (arith, c.counts_reads, no_reads);
      counts_announced = omega (arith, c.counts_announced, no_announces);
      counts_held = omega (arith, c.counts_held, no_writes);
      excluded = λ e. refl;
    }

continue_run-IsCounted :
    (o : Option LockState) (f : LockState → Option LockState)
    → StillCounted 0 0 0 o
    → ((s : LockState) → IsCounted 0 0 0 s.mutex s.goroutines → StillCounted 0 0 0 (f s))
    → StillCounted 0 0 0 (continue_run o f)
unfolding continue_run
continue_run-IsCounted none f c k = tt
continue_run-IsCounted (some s) f c k = k s c

pub run-IsCounted :
    (schedule : List ℕ) (s : LockState)
    → IsCounted 0 0 0 s.mutex s.goroutines
    → StillCounted 0 0 0 (run schedule s)
unfolding run step
run-IsCounted [] s c = c
run-IsCounted (i ∷ schedule) s c =
    continue_run-IsCounted (step i s) (run schedule)
      (step_of-IsCounted i 0 0 0 s.mutex s.goroutines c) (run-IsCounted schedule)
