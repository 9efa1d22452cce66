-- ===== src/Thread/Tests.antt =====
-- A thread that starts, on a semaphore that is a number.
use proj.Base.{
  ℕ, [], ◌∷◌, ◌++◌, arith, zero, suc, ◌≤◌, ◌≡◌, ◌≢◌, refl, Bool, true, false, Option, none, some,
}
use proj.Thread.{Creator, Runner, Outcome, State, Step, Steps, construct, notify, wait}
use proj.Thread.Join.{Handle, Call, minus_one, life, life-expected}
use proj.Thread.Progress.{Works, Lives, Steps-Lives, count}
use proj.Thread.Start.{Contract, start, Steps-returned}

abbrev post : ℕ → Bool × ℕ
post n = (false, suc n)

abbrev take_one : ℕ → Option (Bool × ℕ)
take_one zero = none
take_one (suc n) = some (false, n)

abbrev value : ℕ → ℕ
value n = n

counter-Contract : Contract ℕ post take_one value
counter-Contract = record { posted = λ p q h. cc; waited = waited }
  where
    waited : (p q : ℕ) → take_one p ≡ some (false, q) → p ≡ suc q
    waited zero q h = cc
    waited (suc p) q h = cc

abbrev at : Creator → Runner → ℕ → ℕ → State ℕ
at creator runner id sem = record { creator = creator; runner = runner; id = id; sem = sem }

whole_start : Steps post take_one 42 (start 0 0) (at Creator.returned Runner.notified 42 0)
unfolding notify wait
whole_start =
    Steps.more _ (at Creator.waiting Runner.notified 42 1) _
      (Steps.more _ (at Creator.waiting Runner.named 42 0) _
        (Steps.more _ (at Creator.waiting Runner.identified 42 0) _
          (Steps.more _ (at Creator.waiting Runner.begun 0 0) _
            (Steps.more _ (start 0 0) _ (Steps.stop (start 0 0)) (Step.create (start 0 0) refl))
            (Step.identify (at Creator.waiting Runner.begun 0 0) refl))
          (Step.set_name (at Creator.waiting Runner.identified 42 0) refl))
        (Step.signal (at Creator.waiting Runner.named 42 0) 1 refl refl))
      (Step.await (at Creator.waiting Runner.notified 42 1) 0 refl refl)

Steps-returned_example : ◌≡◌ {A = ℕ} 42 42 × (Runner.notified ≡ Runner.notified)
Steps-returned_example =
    Steps-returned post take_one value counter-Contract 42 0 0
      (at Creator.returned Runner.notified 42 0) refl whole_start refl

counter-Works : Works ℕ post take_one value
counter-Works = record { posts = λ p. (suc p, refl); waits = waits; quiet = quiet }
  where
    waits : (p : ℕ) → p ≢ 0 → (q : ℕ) × (take_one p ≡ some (false, q))
    waits zero h = absurd (h refl)
    waits (suc p) h = (p, refl)

    quiet : (p q : ℕ) → take_one p ≢ some (true, q)
    quiet zero q h = cc
    quiet (suc p) q h = cc

Steps-Lives_example :
    (count post take_one 42 (start 0 0) (at Creator.returned Runner.notified 42 0) whole_start ≤ 6)
    × Lives post take_one value counter-Contract counter-Works 42
        (at Creator.returned Runner.notified 42 0)
Steps-Lives_example =
    Steps-Lives post take_one value counter-Contract counter-Works 42 0 0
      (at Creator.returned Runner.notified 42 0) whole_start refl

-- A handle of the thread 7 that nothing was called on.
abbrev running : Handle
running = record { thread = 7; calls = [] }

-- The first join fails with -1, the second with EDEADLK, and the third and the destructor do nothing.
life-expected_example :
    (life (minus_one ∷ 35 ∷ 0 ∷ []) 0 running).calls
    ≡ [] ++ Call.pthread_join 7 minus_one ∷ Call.pthread_join 7 35 ∷ []
life-expected_example = life-expected (minus_one ∷ 35 ∷ 0 ∷ []) 0 running (omega arith)

-- `m_sem` of a new object counts 0, and a notification lets one wait through.
abbrev set_count : ℕ → ℕ → Bool × ℕ
set_count count old = (false, count)

counts_from_zero : construct set_count 0 9 ≡ Outcome.done 0
unfolding construct
counts_from_zero = refl

notified_once :
    (notify post take_one 0 ≡ Outcome.done 1) × (wait post take_one 1 ≡ some (Outcome.done 0))
unfolding notify wait
notified_once = (refl, refl)
