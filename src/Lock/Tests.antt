-- ===== src/Lock/Tests.antt =====
-- Scoped locks on concrete mutexes.
use proj.Base.{
  ℕ, ◌≡◌, refl, Bool, true, false, Option, none, some, List, [], ◌∷◌, ◌==◌, if◌then◌else◌,
}
use proj.Lock.{Op, scope, lock, run, unlock, construct}
use proj.Lock.Mutexes.{acquire_by, release_by, init_by, scope-refused}
use proj.Lock.Scope.{scope_lem}
use proj.Lock.Exclusion.{State, Step, set}

-- A mutex is locked or not.
abbrev acquire : Bool → Option Bool
acquire true = none
acquire false = some true

abbrev release : Bool → Bool
release held = false

scope_lem_example :
    scope acquire release (Op.lock_op ∷ Op.unlock_op ∷ Op.unlock_op ∷ Op.lock_op ∷ []) false
    ≡ some false
scope_lem_example =
    scope_lem acquire release false true refl refl
      (Op.lock_op ∷ Op.unlock_op ∷ Op.unlock_op ∷ Op.lock_op ∷ [])

-- A mutex that refuses the thread that holds it, with EDEADLK.
abbrev lock_call : Bool → Option (ℕ × Bool)
lock_call true = some (35, true)
lock_call false = some (0, true)

abbrev unlock_call : Bool → ℕ × Bool
unlock_call held = (0, false)

-- A mutex that was made is free, and a scoped lock on it leaves it so.
made_free :
    scope (acquire_by lock_call) (release_by unlock_call) [] (init_by unlock_call true) ≡ some false
unfolding init_by acquire_by release_by scope run lock unlock
made_free = refl

scope-refused_test :
    (construct (acquire_by lock_call) (release_by unlock_call) true ≡ some (true, true))
    × (scope (acquire_by lock_call) (release_by unlock_call) (Op.lock_op ∷ []) true ≡ some false)
scope-refused_test =
    scope-refused lock_call unlock_call 35 true false refl refl (Op.lock_op ∷ []) (refl, tt)

-- A read-write lock as the threads that read and those that write.
abbrev RwLock : Type 0
RwLock = List ℕ × List ℕ

abbrev has : List ℕ → ℕ → Bool
has [] u = false
has (x ∷ xs) u = if u == x then true else has xs u

abbrev without : ℕ → List ℕ → List ℕ
without t [] = []
without t (x ∷ xs) = let rest = without t xs in if x == t then rest else x ∷ rest

-- A lock that is refused comes back with EDEADLK to a thread that is in, and blocks for another.
abbrev rdlock : ℕ → RwLock → Option (ℕ × RwLock)
rdlock t (rs, []) = some (0, (t ∷ rs, []))
rdlock t (rs, w ∷ ws) = if t == w then some (35, (rs, w ∷ ws)) else none

abbrev wrlock : ℕ → RwLock → Option (ℕ × RwLock)
wrlock t ([], []) = some (0, ([], t ∷ []))
wrlock t ([], w ∷ ws) = if t == w then some (35, ([], w ∷ ws)) else none
wrlock t (r ∷ rs, ws) = none

abbrev rw_release : ℕ → RwLock → ℕ × RwLock
rw_release t (rs, ws) = (0, (without t rs, without t ws))

abbrev reads : RwLock → ℕ → Bool
reads (rs, ws) u = has rs u

abbrev writes : RwLock → ℕ → Bool
writes (rs, ws) u = has ws u

abbrev nobody : ℕ → Bool
nobody k = false

abbrev idle : State RwLock
idle = record { rd = nobody; wr = nobody; mutex = ([], []) }

abbrev one_reads : State RwLock
one_reads = record { rd = set 1 true nobody; wr = nobody; mutex = (1 ∷ [], []) }

one-Step : Step rdlock wrlock rw_release idle one_reads
unfolding lock acquire_by
one-Step = Step.rd_lock idle 1 true (1 ∷ [], []) refl

-- Thread 1 holds the write lock and takes the read lock too: EDEADLK is dropped, and both flags are set.
abbrev both : State RwLock
both = record { rd = nobody; wr = set 1 true nobody; mutex = ([], 1 ∷ []) }

both-Step : Step rdlock wrlock rw_release both (record both { rd = set 1 true nobody })
unfolding lock acquire_by
both-Step = Step.rd_lock both 1 true ([], 1 ∷ []) refl
