-- ===== src/Thread/Progress.antt =====
-- That the start of a thread of src/thread.cc comes to an end.
use proj.Base.{
  ℕ, suc, ◌+◌, ◌≤◌, ◌<◌, ◌≡◌, ◌≢◌, refl, Bool, true, false, Option, none, some, ◌⊎◌, inl, inr,
  arith,
}
use proj.Thread.{Outcome, notify, wait, Creator, Runner, State, Step, Steps}
use proj.Thread.Start.{Contract, start, Holds, Steps-Holds}

-- A semaphore whose calls succeed: a post always, and a wait where the value is not zero.
pub record Works (P : Type 0) (sem_post : P → Bool × P) (sem_wait : P → Option (Bool × P))
    (value : P → ℕ) : Type 0 where
  pub posts : (p : P) → (q : P) × (sem_post p ≡ (false, q))
  pub waits : (p : P) → value p ≢ 0 → (q : P) × (sem_wait p ≡ some (false, q))
  pub quiet : (p q : P) → sem_wait p ≢ some (true, q)

-- How many steps the two threads may still take.
abbrev creator_left : Creator → ℕ
creator_left Creator.creating = 6
creator_left Creator.waiting = 1
creator_left Creator.returned = 0
creator_left Creator.failed = 0

abbrev runner_left : Runner → ℕ
runner_left Runner.absent = 0
runner_left Runner.begun = 4
runner_left Runner.identified = 3
runner_left Runner.named = 2
runner_left Runner.notified = 1
runner_left Runner.failed = 0

abbrev left : {P : Type 0} → State P → ℕ
left s = creator_left s.creator + runner_left s.runner

module _ {P : Type 0} (sem_post : P → Bool × P) (sem_wait : P → Option (Bool × P)) (tid : ℕ) where
  -- The number of steps of a run.
  pub count : (s t : State P) → Steps sem_post sem_wait tid s t → ℕ
  count s t (Steps.stop u) = 0
  count s t (Steps.more u v w before step) = suc (count s v before)

  Step-left : (s t : State P) → Step sem_post sem_wait tid s t → left t < left s
  Step-left s t (Step.create u e) = ground arith
  Step-left s t (Step.create_error u true e) = ground arith
  Step-left s t (Step.create_error u false e) = ground arith
  Step-left s t (Step.await u p e w) = ground arith
  Step-left s t (Step.await_error u e w) = ground arith
  Step-left s t (Step.identify u e) = ground arith
  Step-left s t (Step.set_name u e) = ground arith
  Step-left s t (Step.signal u p e w) = ground arith
  Step-left s t (Step.signal_error u e w) = ground arith

  Steps-left :
      (s t : State P) (run : Steps sem_post sem_wait tid s t) → left t + count s t run ≤ left s
  unfolding count
  Steps-left s t (Steps.stop u) = omega arith
  Steps-left s t (Steps.more u v w before step) =
      omega (arith, Steps-left s v before, Step-left v t step)

module _ {P : Type 0} (sem_post : P → Bool × P) (sem_wait : P → Option (Bool × P)) (value : P → ℕ)
    (c : Contract P sem_post sem_wait value) (works : Works P sem_post sem_wait value) where
  notifies : (p : P) → (q : P) × (notify sem_post sem_wait p ≡ Outcome.done q)
  unfolding notify
  notifies p = let (q, e) = works.posts p in (q, rw e refl)

  awaits : (p : P) → value p ≢ 0 → (q : P) × (wait sem_post sem_wait p ≡ some (Outcome.done q))
  unfolding wait
  awaits p h = let (q, e) = works.waits p h in (q, rw (e, wait) refl)

  never_threw : (p : P) → wait sem_post sem_wait p ≢ some Outcome.threw
  unfolding wait
  never_threw p h = by_result (sem_wait p) refl
    where
      by_result : (r : Option (Bool × P)) → sem_wait p ≡ r → ⊥
      by_result none e = ground arith
      by_result (some (true, q)) e = works.quiet p q e
      by_result (some (false, q)) e = ground arith

  -- No call of the semaphore has failed; only the making of the thread may have.
  abbrev Sound : State P → Type 0
  Sound s = (s.runner ≢ Runner.failed) × ((s.creator ≢ Creator.failed) ⊎ (s.runner ≡ Runner.absent))

  Step-Sound :
      (tid : ℕ) (s t : State P)
      → Holds sem_post sem_wait value c tid s
      → Sound s
      → Step sem_post sem_wait tid s t
      → Sound t
  Step-Sound tid s t h o (Step.create u e) = ground (arith, h.first)
  Step-Sound tid s t h o (Step.create_error u m e) = ground (arith, h.first)
  Step-Sound tid s t h o (Step.await u p e w) = ground (arith, h.first)
  Step-Sound tid s t h o (Step.await_error u e w) = absurd (never_threw u.sem w)
  Step-Sound tid s t h o (Step.identify u e) = ground (arith, h.first)
  Step-Sound tid s t h o (Step.set_name u e) = ground (arith, h.first)
  Step-Sound tid s t h o (Step.signal u p e w) = ground (arith, h.first)
  Step-Sound tid s t h o (Step.signal_error u e w) =
      let (q, d) = notifies u.sem in absurd (ground arith)

  Steps-Sound :
      (tid : ℕ) (s t : State P)
      → Holds sem_post sem_wait value c tid s
      → Sound s
      → Steps sem_post sem_wait tid s t
      → Sound t
  Steps-Sound tid s t h o (Steps.stop u) = o
  Steps-Sound tid s t h o (Steps.more u v w before step) =
      Step-Sound tid v t (Steps-Holds sem_post sem_wait value c tid s v h before)
        (Steps-Sound tid s v h o before) step

  -- A state that goes on, has returned, or is without a thread.
  abbrev pub Lives : ℕ → State P → Type 0
  Lives tid s =
      ((t : State P) × Step sem_post sem_wait tid s t)
      ⊎ (((s.creator ≡ Creator.returned) × (s.runner ≡ Runner.notified))
          ⊎ ((s.runner ≡ Runner.absent) × (s.creator ≢ Creator.creating)))

  notified-Lives :
      (tid : ℕ) (s : State P) (k : Creator)
      → s.creator ≡ k
      → Holds sem_post sem_wait value c tid s
      → Sound s
      → s.runner ≡ Runner.notified
      → Lives tid s
  notified-Lives tid s Creator.creating e h o n = absurd (ground (arith, h.first))
  notified-Lives tid s Creator.waiting e h o n =
      let (q, w) = awaits s.sem (ground (arith, h.balance)) in inl (_, Step.await s q e w)
  notified-Lives tid s Creator.returned e h o n = inr (inl (e, n))
  notified-Lives tid s Creator.failed e h o n = absurd (ground arith)

  absent-Lives :
      (tid : ℕ) (s : State P) (k : Creator) → s.creator ≡ k → s.runner ≡ Runner.absent → Lives tid s
  absent-Lives tid s Creator.creating e n = inl (_, Step.create s e)
  absent-Lives tid s Creator.waiting e n = inr (inr (n, ground arith))
  absent-Lives tid s Creator.returned e n = inr (inr (n, ground arith))
  absent-Lives tid s Creator.failed e n = inr (inr (n, ground arith))

  Sound-Lives :
      (tid : ℕ) (s : State P) (r : Runner)
      → s.runner ≡ r
      → Holds sem_post sem_wait value c tid s
      → Sound s
      → Lives tid s
  Sound-Lives tid s Runner.absent e h o = absent-Lives tid s s.creator refl e
  Sound-Lives tid s Runner.begun e h o = inl (_, Step.identify s e)
  Sound-Lives tid s Runner.identified e h o = inl (_, Step.set_name s e)
  Sound-Lives tid s Runner.named e h o = let (q, w) = notifies s.sem in inl (_, Step.signal s q e w)
  Sound-Lives tid s Runner.notified e h o = notified-Lives tid s s.creator refl h o e
  Sound-Lives tid s Runner.failed e h o = absurd (o.0 e)

  -- On a semaphore whose calls succeed, every run of the two threads from the constructor's begin has
  -- at most six steps, and where it stands one of three holds: some thread can take a further step;
  -- the constructor has returned and the new thread has notified; or no thread was made and the call
  -- of `pthread_create` is over.
  pub Steps-Lives :
      (tid junk : ℕ) (p : P) (s : State P) (run : Steps sem_post sem_wait tid (start junk p) s)
      → value p ≡ 0
      → (count sem_post sem_wait tid (start junk p) s run ≤ 6) × Lives tid s
  Steps-Lives tid junk p s run zero_value =
      let first : Holds sem_post sem_wait value c tid (start junk p) = record {
        balance = omega arith;
        known = inl refl;
        first = inr refl;
      } in
      let h = Steps-Holds sem_post sem_wait value c tid (start junk p) s first run in
      let o =
        Steps-Sound tid (start junk p) s first ((λ e. ground arith), inl (λ e. ground arith)) run in
      (
        omega (arith, Steps-left sem_post sem_wait tid (start junk p) s run),
        Sound-Lives tid s s.runner refl h o,
      )
