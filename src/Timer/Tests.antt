-- ===== src/Timer/Tests.antt =====
-- Timers at concrete inputs.
use proj.Base.{
  ℕ, ◌+◌, ◌≡◌, refl, ◌⊎◌, true, false, false, none, some, List, [], ◌∷◌, ◌++◌, arith, if◌then◌else◌,
  ltb, Any,
}
use proj.Timer.{
  Manager, minus_one, construct, reset, add_timer, del_timer, check_expire, get_ms, insert,
  fire_all, upper_bound, front_ms, reset_timer, less,
}
use proj.Timer.Laws.{
  IsValid, IsFree, Expired, add_timer-IsValid, check_expire-Expired, del_timer_lem,
}
use proj.Timer.Reach.{Reachable, Reachable-IsValid, get_ms_lem}
use proj.Timer.Routine.{timer_round, timer_routine, timer_routine-add_timer}

-- The clock moves on by a millisecond with every reading, and no callback touches the timers.
abbrev clock : ℕ → ℕ
clock n = 100 + n

abbrev effect : ℕ → Manager → Manager
effect cb s = s

harmless : (cb : ℕ) (u : Manager) → effect cb u ≡ u
harmless cb u = refl

-- Two timers, at the addresses 7 and 5, begun at 10 and at 90.
abbrev manager : Manager
manager = record {
  timers = 7 ∷ 5 ∷ [];
  heap =
      λ k. if ltb k 6 then construct 90 1000 (some 2) false else construct 10 60000 (some 1) false;
  called = [];
  ticks = 0;
}

manager-IsValid : IsValid manager
manager-IsValid = record { sorted = ((refl, tt), (tt, tt)); single = (refl, (refl, tt)) }

three-IsFree : IsFree 3 manager
three-IsFree = (omega arith, (omega arith, tt))

added :
    IsValid (add_timer clock effect 3 50 (some 4) true manager)
    × ((add_timer clock effect 3 50 (some 4) true manager).heap 3 ≡ construct 100 50 (some 4) false)
added = add_timer-IsValid clock effect 3 50 (some 4) true manager three-IsFree manager-IsValid

check_expire-Expired_example : Expired 100 manager (check_expire clock effect 3 manager)
check_expire-Expired_example =
    check_expire-Expired clock effect 3 manager harmless three-IsFree manager-IsValid

-- A timer set to end after a minute is called at once.
called_early : (check_expire clock effect 3 manager).called ≡ 1 ∷ 2 ∷ []
unfolding check_expire fire_all upper_bound
called_early = refl

del_timer_lem_test :
    (IsFree 5 manager × (del_timer (some 5) manager ≡ (minus_one, manager)))
    ⊎ ((before after : List ℕ) × (◌≡◌ {A = List ℕ} (7 ∷ 5 ∷ []) (before ++ 5 ∷ after))
        × (del_timer (some 5) manager ≡ (0, record manager { timers = before ++ after })))
del_timer_lem_test = del_timer_lem 5 manager manager-IsValid

abbrev empty : Manager
empty = record { timers = []; heap = λ k. construct 0 0 none false; called = []; ticks = 0 }

nine-IsFree : IsFree 9 (add_timer clock effect 3 50 (some 4) true empty)
unfolding add_timer insert
nine-IsFree = (omega arith, tt)

Reachable-IsValid_example :
    IsValid (check_expire clock effect 9 (add_timer clock effect 3 50 (some 4) true empty))
Reachable-IsValid_example =
    Reachable-IsValid clock effect
      (check_expire clock effect 9 (add_timer clock effect 3 50 (some 4) true empty)) harmless
      (Reachable.expire (add_timer clock effect 3 50 (some 4) true empty) 9 nine-IsFree (
        Reachable.add empty 3 50 (some 4) true tt
          (Reachable.start (λ k. construct 0 0 none false) 0)))

-- A reset of the first timer in the set leaves the set out of its order.
reset_in_set :
    ((reset_timer clock effect 7 manager).timers ≡ 7 ∷ 5 ∷ [])
    × (less (reset_timer clock effect 7 manager).heap 7 5 ≡ false)
unfolding reset_timer
reset_in_set = (refl, refl)

empty-IsValid : IsValid empty
empty-IsValid = record { sorted = tt; single = tt }

-- Two rounds after the addition.
timer_routine-add_timer_example :
    (new : List ℕ) × ((timer_routine clock effect
        (9 ∷ 9 ∷ [])
        (add_timer clock effect 3 50 (some 4) true empty)).1.called
      ≡ [] ++ new)
    × Any (λ c. c ≡ 4) new
unfolding add_timer
timer_routine-add_timer_example =
    timer_routine-add_timer clock effect 3 9 (9 ∷ []) 50 4 true empty harmless tt
      (nine-IsFree, (nine-IsFree, tt)) empty-IsValid (omega arith)

-- The loop polls for the 50 milliseconds once, and without an end after it.
two_rounds :
    (timer_routine clock effect (9 ∷ 9 ∷ []) (add_timer clock effect 3 50 (some 4) true empty)).0
    ≡ 50 ∷ minus_one ∷ []
unfolding timer_routine timer_round add_timer insert check_expire fire_all upper_bound front_ms
two_rounds = refl

get_ms_lem_test :
    (get_ms (construct 4294967000 500 none false) ≡ 500)
    × (get_ms (reset (construct 4294967000 500 none false) 3) ≡ 500)
get_ms_lem_test = get_ms_lem 4294967000 3 500 none false (omega arith) (omega arith) (omega arith)
