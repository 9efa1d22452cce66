-- ===== src/Thread/Start.antt =====
-- What the constructor of `Thread` of src/thread.cc waits for.
use proj.Base.{
  ℕ, suc, ◌+◌, ◌≡◌, refl, ap, Bool, true, false, Option, none, some, ◌⊎◌, inl, inr, arith,
}
use proj.Thread.{Outcome, notify, wait, Creator, Runner, State, Step, Steps}

-- What the constructor relies on of the system's semaphores: they have a value, a post that succeeds
-- adds one to it, and a wait that succeeds found it above zero and takes one from it.
pub record Contract (P : Type 0) (sem_post : P → Bool × P) (sem_wait : P → Option (Bool × P))
    (value : P → ℕ) : Type 0 where
  pub posted : (p q : P) → sem_post p ≡ (false, q) → value q ≡ suc (value p)
  pub waited : (p q : P) → sem_wait p ≡ some (false, q) → value p ≡ suc (value q)

-- An object before its constructor calls `pthread_create`.
abbrev pub start : {P : Type 0} → ℕ → P → State P
start id p = record { creator = Creator.creating; runner = Runner.absent; id = id; sem = p }

abbrev pub passed : Creator → ℕ
passed Creator.returned = 1
passed Creator.creating = 0
passed Creator.waiting = 0
passed Creator.failed = 0

abbrev pub starting : Creator → Bool
starting Creator.creating = true
starting Creator.waiting = false
starting Creator.returned = false
starting Creator.failed = false

abbrev pub signalled : Runner → ℕ
signalled Runner.notified = 1
signalled Runner.absent = 0
signalled Runner.begun = 0
signalled Runner.identified = 0
signalled Runner.named = 0
signalled Runner.failed = 0

abbrev pub knows : Runner → Bool
knows Runner.absent = false
knows Runner.begun = false
knows Runner.identified = true
knows Runner.named = true
knows Runner.notified = true
knows Runner.failed = true

module _ {P : Type 0} (sem_post : P → Bool × P) (sem_wait : P → Option (Bool × P)) (value : P → ℕ)
    (c : Contract P sem_post sem_wait value) where
  notify-done : (p q : P) → notify sem_post sem_wait p ≡ Outcome.done q → value q ≡ suc (value p)
  unfolding notify
  notify-done p q h = by_result (sem_post p) refl
    where
      by_result : (r : Bool × P) → sem_post p ≡ r → value q ≡ suc (value p)
      by_result (true, x) e = ground (arith, ap (λ (r : Bool × P). r.0) e)
      by_result (false, x) e =
          ground (arith, c.posted p x e, ap (λ (r : Bool × P). r.0) e, ap (λ (r : Bool × P). r.1) e)

  wait-done : (p q : P) → wait sem_post sem_wait p ≡ some (Outcome.done q) → value p ≡ suc (value q)
  unfolding wait
  wait-done p q h = by_result (sem_wait p) refl
    where
      by_result : (r : Option (Bool × P)) → sem_wait p ≡ r → value p ≡ suc (value q)
      by_result none e = ground arith
      by_result (some (true, x)) e = ground arith
      by_result (some (false, x)) e = ground (arith, c.waited p x e)

  -- The semaphore counts the notification until the constructor has passed, and the id is known once
  -- the thread has read it. No thread begins before it is made.
  pub record Holds (tid : ℕ) (s : State P) : Type 0 where
    pub balance : value s.sem + passed s.creator ≡ signalled s.runner
    pub known : (knows s.runner ≡ false) ⊎ (s.id ≡ tid)
    pub first : (starting s.creator ≡ false) ⊎ (s.runner ≡ Runner.absent)

  Step-Holds :
      (tid : ℕ) (s t : State P) → Holds tid s → Step sem_post sem_wait tid s t → Holds tid t
  Step-Holds tid s t h (Step.create u e) = record {
    balance = ground (arith, h.balance, h.first);
    known = ground (arith, h.known);
    first = ground (arith, h.first);
  }
  Step-Holds tid s t h (Step.create_error u m e) = record {
    balance = ground (arith, h.balance, h.first);
    known = ground (arith, h.known);
    first = ground (arith, h.first);
  }
  Step-Holds tid s t h (Step.await u p e w) = record {
    balance = ground (arith, h.balance, h.first, wait-done u.sem p w);
    known = ground (arith, h.known);
    first = ground (arith, h.first);
  }
  Step-Holds tid s t h (Step.await_error u e w) = record {
    balance = ground (arith, h.balance, h.first);
    known = ground (arith, h.known);
    first = ground (arith, h.first);
  }
  Step-Holds tid s t h (Step.identify u e) = record {
    balance = ground (arith, h.balance, h.first);
    known = ground (arith, h.known);
    first = ground (arith, h.first);
  }
  Step-Holds tid s t h (Step.set_name u e) = record {
    balance = ground (arith, h.balance, h.first);
    known = ground (arith, h.known);
    first = ground (arith, h.first);
  }
  Step-Holds tid s t h (Step.signal u p e w) = record {
    balance = ground (arith, h.balance, h.first, notify-done u.sem p w);
    known = ground (arith, h.known);
    first = ground (arith, h.first);
  }
  Step-Holds tid s t h (Step.signal_error u e w) = record {
    balance = ground (arith, h.balance, h.first);
    known = ground (arith, h.known);
    first = ground (arith, h.first);
  }

  pub Steps-Holds :
      (tid : ℕ) (s t : State P) → Holds tid s → Steps sem_post sem_wait tid s t → Holds tid t
  Steps-Holds tid s t h (Steps.stop u) = h
  Steps-Holds tid s t h (Steps.more u v w before step) =
      Step-Holds tid v t (Steps-Holds tid s v h before) step

  -- However the two threads interleave, on a semaphore that counts and starts at 0, when the
  -- constructor has returned the new thread has set the object's id to its own and has notified; so a
  -- constructor for which the system made no thread never returns.
  pub Steps-returned :
      (tid junk : ℕ) (p : P) (s : State P)
      → value p ≡ 0
      → Steps sem_post sem_wait tid (start junk p) s
      → s.creator ≡ Creator.returned
      → (s.id ≡ tid) × (s.runner ≡ Runner.notified)
  Steps-returned tid junk p s zero_value steps e =
      let h =
        Steps-Holds tid (start junk p) s
          (record { balance = omega arith; known = inl refl; first = inr refl }) steps in
      by_runner h
    where
      by_runner : Holds tid s → (s.id ≡ tid) × (s.runner ≡ Runner.notified)
      by_runner h = ground (arith, h.balance, h.known)
