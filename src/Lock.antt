-- ===== src/Lock.antt =====
-- The scoped locks of src/mutex.h: `SelfLock`, `RDSelfLock` and `WRSelfLock` are one class at the
-- three ways to acquire a mutex. What the mutex is, a `pthread_mutex_t`, `pthread_spinlock_t` or
-- `pthread_rwlock_t` behind `Mutex`, `SpinLock` and `RWMutex`, is a parameter.
pub mod Scope
pub mod Exclusion
pub mod Mutexes
mod Tests
use proj.Base.{
  ℕ, Bool, true, false, not, Option, none, some, List, [], ◌∷◌, if◌then◌else◌, ◌>>=◌, ◌==◌,
}

-- `acquire` is what the mutex does for a lock, none while the call blocks; `release` is its unlock.
module _ {P : Type 0} (acquire : P → Option P) (release : P → P) where
  -- `lock`, by `islock`.
  unfoldable pub lock : Bool → P → Option (Bool × P)
  lock islock p = if not islock then (acquire p >>= λ q. some (true, q)) else some (islock, p)

  -- The constructor, of a lock whose `islock` is false.
  abbrev pub construct : P → Option (Bool × P)
  construct p = lock false p

  -- `unlock`
  unfoldable pub unlock : Bool → P → Bool × P
  unlock islock p = if islock then (false, release p) else (islock, p)

  -- The destructor.
  abbrev pub destroy : Bool → P → P
  destroy islock p = (unlock islock p).1

-- The calls of a scoped lock's methods.
pub data Op : Type 0 where
  lock_op unlock_op : Op

module _ {P : Type 0} (acquire : P → Option P) (release : P → P) where
  -- The calls in a row; none while one blocks.
  unfoldable pub run : List Op → Bool → P → Option (Bool × P)
  run [] islock p = some (islock, p)
  run (Op.lock_op ∷ ops) islock p = lock acquire release islock p >>= λ r. run ops r.0 r.1
  run (Op.unlock_op ∷ ops) islock p = let r = unlock acquire release islock p in run ops r.0 r.1

  -- The life of a scoped lock, with the calls between its constructor and its destructor.
  unfoldable pub scope : List Op → P → Option P
  scope ops p = construct acquire release p >>= λ r.
      run ops r.0 r.1 >>= λ e. some (destroy acquire release e.0 e.1)
