-- ===== src/Lock/Exclusion.antt =====
-- Threads that each hold a `RWMutex::RDLock` and a `RWMutex::WRLock` of src/mutex.h on one mutex, in
-- any order of their calls. A mutex that is only locked exclusively, a `Mutex` or a `SpinLock`, is the
-- case in which nobody reads.
use proj.Base.{ℕ, suc, ◌||◌, ◌≡◌, Bool, true, false, Option, some, ◌==◌, if◌then◌else◌, ◌&&◌, ◌⊎◌}
use proj.Lock.{lock, unlock}
use proj.Lock.Mutexes.{acquire_by, release_by}

-- What the threads rely on of the system's read-write lock `P`, by who reads and who writes. A call of
-- `pthread_rwlock_rdlock` or `pthread_rwlock_wrlock` blocks or comes back with its result. With 0 a
-- reader is in, and nobody writes, or a writer is in, and nobody else is; an error number is EDEADLK,
-- for a thread that is in already. A thread that unlocks is out.
pub record Contract (P : Type 0) (rdlock wrlock : ℕ → P → Option (ℕ × P))
    (unlock_call : ℕ → P → ℕ × P) (reads writes : P → ℕ → Bool) : Type 0 where
  pub rd_refused : (t e : ℕ) (p q : P) → rdlock t p ≡ some (suc e, q) → writes p t ≡ true
  pub rd_free : (t u : ℕ) (p q : P) → rdlock t p ≡ some (0, q) → writes p u ≡ false
  pub rd_reads :
      (t u : ℕ) (p q : P)
      → rdlock t p ≡ some (0, q)
      → reads q u ≡ (if u == t then true else reads p u)
  pub rd_writes : (t u : ℕ) (p q : P) → rdlock t p ≡ some (0, q) → writes q u ≡ writes p u
  pub wr_refused :
      (t e : ℕ) (p q : P) → wrlock t p ≡ some (suc e, q) → (reads p t || writes p t) ≡ true
  pub wr_free :
      (t u : ℕ) (p q : P) → wrlock t p ≡ some (0, q) → (reads p u ≡ false) × (writes p u ≡ false)
  pub wr_reads : (t u : ℕ) (p q : P) → wrlock t p ≡ some (0, q) → reads q u ≡ reads p u
  pub wr_writes :
      (t u : ℕ) (p q : P)
      → wrlock t p ≡ some (0, q)
      → writes q u ≡ (if u == t then true else writes p u)
  pub un_reads :
      (t u : ℕ) (p : P) → reads (unlock_call t p).1 u ≡ (if u == t then false else reads p u)
  pub un_writes :
      (t u : ℕ) (p : P) → writes (unlock_call t p).1 u ≡ (if u == t then false else writes p u)

-- The flags `islock` of the threads' scoped locks, and the mutex.
pub record State (P : Type 0) : Type 0 where
  pub rd : ℕ → Bool
  pub wr : ℕ → Bool
  pub mutex : P

abbrev pub set : ℕ → Bool → (ℕ → Bool) → ℕ → Bool
set t b f k = if k == t then b else f k

module _ {P : Type 0} (rdlock wrlock : ℕ → P → Option (ℕ × P)) (unlock_call : ℕ → P → ℕ × P) where
  -- `rdlock`, `wrlock` and `unlock` of the `RWMutex`, called by a thread.
  abbrev pub rd : ℕ → P → Option P
  rd t = acquire_by (rdlock t)

  abbrev pub wr : ℕ → P → Option P
  wr t = acquire_by (wrlock t)

  abbrev pub un : ℕ → P → P
  un t = release_by (unlock_call t)

  -- One call of one thread that comes back.
  pub data Step : State P → State P → Type 0 where
    rd_lock :
        (s : State P) (t : ℕ) (b : Bool) (p : P)
        → lock (rd t) (un t) (s.rd t) s.mutex ≡ some (b, p)
        → Step s (record { rd = set t b s.rd; wr = s.wr; mutex = p })
    wr_lock :
        (s : State P) (t : ℕ) (b : Bool) (p : P)
        → lock (wr t) (un t) (s.wr t) s.mutex ≡ some (b, p)
        → Step s (record { rd = s.rd; wr = set t b s.wr; mutex = p })
    rd_unlock :
        (s : State P) (t : ℕ) (b : Bool) (p : P)
        → unlock (rd t) (un t) (s.rd t) s.mutex ≡ (b, p)
        → Step s (record { rd = set t b s.rd; wr = s.wr; mutex = p })
    wr_unlock :
        (s : State P) (t : ℕ) (b : Bool) (p : P)
        → unlock (wr t) (un t) (s.wr t) s.mutex ≡ (b, p)
        → Step s (record { rd = s.rd; wr = set t b s.wr; mutex = p })

  -- The states that steps lead to from one.
  pub data Steps : State P → State P → Type 0 where
    stop : (s : State P) → Steps s s
    more : (s t u : State P) → Steps s t → Step t u → Steps s u

  -- A thread takes a lock of one kind only while its lock of the other kind is not taken.
  abbrev pub IsApart : (s u : State P) → Step s u → Type 0
  IsApart s u (Step.rd_lock r t b p h) = s.wr t ≡ false
  IsApart s u (Step.wr_lock r t b p h) = s.rd t ≡ false
  IsApart s u (Step.rd_unlock r t b p h) = Unit
  IsApart s u (Step.wr_unlock r t b p h) = Unit

  abbrev pub AllApart : (s u : State P) → Steps s u → Type 0
  AllApart s u (Steps.stop r) = Unit
  AllApart s u (Steps.more r t v before step) = AllApart s t before × IsApart t u step

-- The flags say who is in, and a writer is in alone.
pub record IsExclusive {P : Type 0} (reads writes : P → ℕ → Bool) (s : State P) : Type 0 where
  pub rd_in : (t : ℕ) → s.rd t ≡ reads s.mutex t
  pub wr_in : (t : ℕ) → s.wr t ≡ writes s.mutex t
  pub one_writer : (t u : ℕ) → (t ≡ u) ⊎ ((s.wr t && s.wr u) ≡ false)
  pub no_reader : (t u : ℕ) → (s.wr t && s.rd u) ≡ false
