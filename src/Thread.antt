-- ===== src/Thread.antt =====
-- The start of a thread: `Thread` of src/thread.h and src/thread.cc, and `Semaphore` of src/mutex.h and
-- src/mutex.cc. The threads and the semaphores of the system are parameters.
pub mod Start
pub mod Progress
pub mod Join
mod Tests
use proj.Base.{ℕ, ◌%◌, ◌^◌, ◌≡◌, Bool, true, false, Option, none, some, if◌then◌else◌}

-- `Semaphore::notify` and `Semaphore::wait` by the result of `sem_post` and `sem_wait`, which is true
-- for -1: the call then throws.
pub data Outcome (P : Type 0) : Type 0 where
  done : P → Outcome P
  threw : Outcome P

-- `Semaphore::Semaphore`, by `sem_init`, and the destructor, which only logs that `sem_destroy` failed.
unfoldable pub construct : {P : Type 0} → (ℕ → P → Bool × P) → ℕ → P → Outcome P
construct sem_init count p =
    let ret = sem_init (count % 2 ^ 32) p in if ret.0 then Outcome.threw else Outcome.done ret.1

unfoldable pub destroy : {P : Type 0} → (P → Bool × P) → P → P
destroy sem_destroy p = (sem_destroy p).1

module _ {P : Type 0} (sem_post : P → Bool × P) (sem_wait : P → Option (Bool × P)) where
  unfoldable pub notify : P → Outcome P
  notify p = let ret = sem_post p in if ret.0 then Outcome.threw else Outcome.done ret.1

  -- none while `sem_wait` blocks.
  unfoldable pub wait : P → Option (Outcome P)
  wait p = elim (sem_wait p) [
    | none ↦ none
    | some ret ↦ some (if ret.0 then Outcome.threw else Outcome.done ret.1)
  ]

-- Where the constructor stands: before `pthread_create`, in `m_sem.wait()`, or out of it.
pub data Creator : Type 0 where
  creating waiting returned failed : Creator

-- Where `Thread::run` stands: not begun, behind each of its statements up to the notification, or in
-- the callback.
pub data Runner : Type 0 where
  absent begun identified named notified failed : Runner

-- The object's `m_id` and `m_sem`, and the two threads.
pub record State (P : Type 0) : Type 0 where
  pub creator : Creator
  pub runner : Runner
  pub id : ℕ
  pub sem : P

module _ {P : Type 0} (sem_post : P → Bool × P) (sem_wait : P → Option (Bool × P)) (tid : ℕ) where
  -- One statement of one of the two threads. `tid` is what `GetThreadId` returns in the new thread.
  -- `pthread_create` returns 0 and the thread begins, or another number; only -1 is looked at.
  pub data Step : State P → State P → Type 0 where
    create :
        (s : State P)
        → s.creator ≡ Creator.creating
        → Step s (record s { creator = Creator.waiting; runner = Runner.begun })
    create_error :
        (s : State P) (minus_one : Bool)
        → s.creator ≡ Creator.creating
        → Step s (record s { creator = if minus_one then Creator.failed else Creator.waiting })
    await :
        (s : State P) (p : P)
        → s.creator ≡ Creator.waiting
        → wait sem_post sem_wait s.sem ≡ some (Outcome.done p)
        → Step s (record s { creator = Creator.returned; sem = p })
    await_error :
        (s : State P)
        → s.creator ≡ Creator.waiting
        → wait sem_post sem_wait s.sem ≡ some Outcome.threw
        → Step s (record s { creator = Creator.failed })
    identify :
        (s : State P)
        → s.runner ≡ Runner.begun
        → Step s (record s { runner = Runner.identified; id = tid })
    set_name :
        (s : State P) → s.runner ≡ Runner.identified → Step s (record s { runner = Runner.named })
    signal :
        (s : State P) (p : P)
        → s.runner ≡ Runner.named
        → notify sem_post sem_wait s.sem ≡ Outcome.done p
        → Step s (record s { runner = Runner.notified; sem = p })
    signal_error :
        (s : State P)
        → s.runner ≡ Runner.named
        → notify sem_post sem_wait s.sem ≡ Outcome.threw
        → Step s (record s { runner = Runner.failed })

  pub data Steps : State P → State P → Type 0 where
    stop : (s : State P) → Steps s s
    more : (s t u : State P) → Steps s t → Step t u → Steps s u
