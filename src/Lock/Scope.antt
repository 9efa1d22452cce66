-- ===== src/Lock/Scope.antt =====
-- A scoped lock of src/mutex.h leaves the mutex as it found it.
use proj.Base.{
  ◌≡◌, refl, ap, ◌∙◌, Bool, true, false, Option, some, List, [], ◌∷◌, ◌>>=◌, if◌then◌else◌,
}
use proj.Lock.{Op, lock, unlock, run, scope, destroy}

module _ {P : Type 0} (acquire : P → Option P) (release : P → P) (p q : P)
    (free : acquire p ≡ some q) (back : release q ≡ p) where
  -- The mutex as it is while the lock's flag has a value.
  abbrev at : Bool → P
  at islock = if islock then q else p

  lock_free : lock acquire release false p ≡ some (true, q)
  unfolding lock
  lock_free = rw free refl

  lock_held : lock acquire release true q ≡ some (true, q)
  unfolding lock
  lock_held = refl

  unlock_held : unlock acquire release true q ≡ (false, p)
  unfolding unlock
  unlock_held = ap (λ x. (false, x)) back

  unlock_free : unlock acquire release false p ≡ (false, p)
  unfolding unlock
  unlock_free = refl

  run-at :
      (ops : List Op) (islock : Bool)
      → (e : Bool) × (run acquire release ops islock (at islock) ≡ some (e, at e))
  unfolding run
  run-at [] islock = (islock, refl)
  run-at (Op.lock_op ∷ ops) true =
      let (e, eq) = run-at ops true in
      (e, ap (λ (o : Option (Bool × P)). o >>= λ r. run acquire release ops r.0 r.1) lock_held ∙ eq)
  run-at (Op.lock_op ∷ ops) false =
      let (e, eq) = run-at ops true in
      (e, ap (λ (o : Option (Bool × P)). o >>= λ r. run acquire release ops r.0 r.1) lock_free ∙ eq)
  run-at (Op.unlock_op ∷ ops) false =
      let (e, eq) = run-at ops false in
      (e, ap (λ (r : Bool × P). run acquire release ops r.0 r.1) unlock_free ∙ eq)
  run-at (Op.unlock_op ∷ ops) true =
      let (e, eq) = run-at ops false in
      (e, ap (λ (r : Bool × P). run acquire release ops r.0 r.1) unlock_held ∙ eq)

  destroy-at : (islock : Bool) → destroy acquire release islock (at islock) ≡ p
  unfolding unlock
  destroy-at true = back
  destroy-at false = refl

  -- On a mutex that is free, and that a release after an acquisition leaves as it was, a scoped
  -- lock with any calls of lock and unlock never blocks, and the mutex is free again after it: no
  -- second lock waits for the first, and none is left locked or unlocked twice.
  pub scope_lem : (ops : List Op) → scope acquire release ops p ≡ some p
  unfolding scope
  scope_lem ops =
      let (e, eq) = run-at ops true in
      ap
        (λ (o : Option (Bool × P)). o >>= λ r.
          run acquire release ops r.0 r.1 >>= λ e. some (destroy acquire release e.0 e.1))
        lock_free
      ∙ ap (λ (o : Option (Bool × P)). o >>= λ e. some (destroy acquire release e.0 e.1)) eq
      ∙ ap (λ x. some x) (destroy-at e)
