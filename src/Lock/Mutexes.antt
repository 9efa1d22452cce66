-- ===== src/Lock/Mutexes.antt =====
-- `Mutex`, `RWMutex` and `SpinLock` of src/mutex.h: each method is one call of the system, whose
-- result is dropped; and what a scoped lock does where that call failed.
use proj.Base.{ℕ, ◌≡◌, refl, ap, ◌∙◌, Bool, true, Option, some, List, [], ◌∷◌, ◌>>=◌, All}
use proj.Lock.{Op, lock, unlock, run, scope, construct, destroy}

-- `Mutex::lock`, `SpinLock::lock`, `RWMutex::rdlock` and `RWMutex::wrlock`. `call` is the system's
-- function: none while it blocks, and otherwise its result, 0 or an error number, and the mutex.
unfoldable pub acquire_by : {P : Type 0} → (P → Option (ℕ × P)) → P → Option P
acquire_by call p = call p >>= λ r. some r.1

-- `Mutex::unlock`, `SpinLock::unlock` and `RWMutex::unlock`.
unfoldable pub release_by : {P : Type 0} → (P → ℕ × P) → P → P
release_by call p = (call p).1

-- The constructors and the destructors of the three classes.
unfoldable pub init_by : {P : Type 0} → (P → ℕ × P) → P → P
init_by call p = (call p).1

unfoldable pub destroy_by : {P : Type 0} → (P → ℕ × P) → P → P
destroy_by call p = (call p).1

-- The calls are all of `lock`.
abbrev pub AllLocks : List Op → Type 0
AllLocks ops = All (λ o. o ≡ Op.lock_op) ops

module _ {P : Type 0} (call : P → Option (ℕ × P)) (uncall : P → ℕ × P) (err : ℕ) (held free : P)
    (refused : call held ≡ some (err, held)) (undone : uncall held ≡ (0, free)) where
  acquire_held : acquire_by call held ≡ some held
  unfolding acquire_by
  acquire_held = rw refused refl

  construct_held : construct (acquire_by call) (release_by uncall) held ≡ some (true, held)
  unfolding lock
  construct_held = rw acquire_held refl

  run_locks :
      (ops : List Op)
      → AllLocks ops
      → run (acquire_by call) (release_by uncall) ops true held ≡ some (true, held)
  unfolding run lock
  run_locks [] all = refl
  run_locks (Op.lock_op ∷ ops) all = run_locks ops all.1
  run_locks (Op.unlock_op ∷ ops) all = cc

  destroy_held : destroy (acquire_by call) (release_by uncall) true held ≡ free
  unfolding unlock release_by
  destroy_held = ap (λ (r : ℕ × P). r.1) undone

  -- Where the system's call comes back on a held mutex with a result and no change, as with an error
  -- number, a scoped lock made on it counts as locked all the same, and goes on however often it
  -- locks again; its destructor then frees the mutex that another lock holds.
  pub scope-refused :
      (ops : List Op)
      → AllLocks ops
      → (construct (acquire_by call) (release_by uncall) held ≡ some (true, held))
        × (scope (acquire_by call) (release_by uncall) ops held ≡ some free)
  unfolding scope
  scope-refused ops all = (
    construct_held,
    ap
          (λ (o : Option (Bool × P)). o >>= λ r.
            run (acquire_by call) (release_by uncall) ops r.0 r.1 >>= λ e.
            some (destroy (acquire_by call) (release_by uncall) e.0 e.1))
          construct_held
        ∙ ap
            (λ (o : Option (Bool × P)).
              o >>= λ e. some (destroy (acquire_by call) (release_by uncall) e.0 e.1))
            (run_locks ops all)
        ∙ ap (λ x. some x) destroy_held,
  )
