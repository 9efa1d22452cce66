-- ===== src/Timer/Reach.antt =====
-- The managers that the operations of src/timer.cc lead to, and what they wait for.
use proj.Base.{
  ℕ, ◌+◌, ◌%◌, ◌^◌, ◌≤◌, ◌<◌, ◌≡◌, refl, Bool, true, false, ◌++◌, Option, none, some, ◌⊎◌, inl, inr,
  List, [], ◌∷◌, if◌then◌else◌, ltb, arith, All, sym, ap,
}
use mathlib.Core.Path.{subst}
use proj.Timer.{
  less, Timer, Manager, minus_one, construct, reset, add_timer, del_timer, check_expire, front_ms,
  get_ms, sub32, cancel, reset_timer, call,
}
use proj.Timer.Order.{less_begin, Below, IsSorted, IsSorted-put}
use proj.Timer.Laws.{
  IsValid, IsFree, single-put, add_timer-IsValid, check_expire-Expired, del_timer_lem,
}

-- The managers that `addTimer`, `addTimerForever`, `delTimer`, `Timer::remove`, `Timer::cancel`,
-- `checkExpire` and `Timer::reset` make from an empty one; a new timer, the local one of `checkExpire`
-- and one that is reset are at addresses that no timer in the set has.
pub data Reachable (clock : ℕ → ℕ) (effect : ℕ → Manager → Manager) : Manager → Type 0 where
  start :
      (heap : ℕ → Timer) (ticks : ℕ)
      → Reachable clock effect (record { timers = []; heap = heap; called = []; ticks = ticks })
  add :
      (s : Manager) (addr ms : ℕ) (cb : Option ℕ) (is_forever : Bool)
      → IsFree addr s
      → Reachable clock effect s
      → Reachable clock effect (add_timer clock effect addr ms cb is_forever s)
  delete :
      (s : Manager) (addr : ℕ)
      → Reachable clock effect s
      → Reachable clock effect (del_timer (some addr) s).1
  cancelled :
      (s : Manager) (addr : ℕ)
      → Reachable clock effect s
      → Reachable clock effect (cancel clock effect addr s)
  restarted :
      (s : Manager) (addr : ℕ)
      → IsFree addr s
      → Reachable clock effect s
      → Reachable clock effect (reset_timer clock effect addr s)
  expire :
      (s : Manager) (addr : ℕ)
      → IsFree addr s
      → Reachable clock effect s
      → Reachable clock effect (check_expire clock effect addr s)

All-remove :
    (P : ℕ → Type 0) (before : List ℕ) (addr : ℕ) (after : List ℕ)
    → All P (before ++ addr ∷ after)
    → All P (before ++ after)
All-remove P [] addr after h = h.1
All-remove P (x ∷ before) addr after h = (h.0, All-remove P before addr after h.1)

IsSorted-remove :
    (heap : ℕ → Timer) (before : List ℕ) (addr : ℕ) (after : List ℕ)
    → IsSorted heap (before ++ addr ∷ after)
    → IsSorted heap (before ++ after)
IsSorted-remove heap [] addr after h = h.1
IsSorted-remove heap (x ∷ before) addr after h = (
  All-remove (λ y. less heap x y ≡ true) before addr after h.0,
  IsSorted-remove heap before addr after h.1,
)

del_timer-IsValid : (addr : ℕ) (s : Manager) → IsValid s → IsValid (del_timer (some addr) s).1
del_timer-IsValid addr s v = elim (del_timer_lem addr s v) [
  | inl (free, eq) ↦ subst (λ r. IsValid r.1) (sym eq) v
  | inr (before, after, parts, eq) ↦
      subst (λ r. IsValid r.1) (sym eq)
        (record {
          sorted =
              IsSorted-remove s.heap before addr after
                (subst (λ ts. IsSorted s.heap ts) parts v.sorted);
          single =
              All-remove (λ x. (s.heap x).is_forever ≡ false) before addr after
                (subst (λ ts. All (λ x. (s.heap x).is_forever ≡ false) ts) parts v.single);
        })
]

module _ (clock : ℕ → ℕ) (effect : ℕ → Manager → Manager) where
  cancel-IsValid :
      (addr : ℕ) (s : Manager)
      → ((cb : ℕ) (u : Manager) → effect cb u ≡ u)
      → IsValid s
      → IsValid (cancel clock effect addr s)
  unfolding cancel
  cancel-IsValid addr s harmless v = by_callback (s.heap addr).cb
    where
      by_callback :
          (o : Option ℕ)
          → IsValid
              (elim o [ none ↦ s | some cb ↦ (del_timer (some addr) (call clock effect cb s)).1 ])
      by_callback none = v
      by_callback (some cb) =
          let called : Manager = record s { called = s.called ++ cb ∷ [] } in
          del_timer-IsValid addr (effect cb called) (
            subst (λ u. IsValid u) (sym (harmless cb called))
              (record { sorted = v.sorted; single = v.single }))

  reset_timer-IsValid :
      (addr : ℕ) (s : Manager)
      → IsFree addr s
      → IsValid s
      → IsValid (reset_timer clock effect addr s)
  unfolding reset_timer
  reset_timer-IsValid addr s free v =
      let t = reset (s.heap addr) (clock s.ticks % 2 ^ 32) in
      record {
        sorted = IsSorted-put s.heap addr t s.timers free v.sorted;
        single = single-put s.heap addr t s.timers free v.single;
      }

-- Where callbacks leave the manager alone, every manager that adding, deleting, removing, cancelling,
-- checking and the reset of timers outside the set lead to is valid: the set is in its order and no
-- timer in it is a repeated one, so `addTimerForever` never makes a timer that is. A reset of a timer in
-- the set is not among them.
pub Reachable-IsValid :
    (clock : ℕ → ℕ) (effect : ℕ → Manager → Manager) (s : Manager)
    → ((cb : ℕ) (u : Manager) → effect cb u ≡ u)
    → Reachable clock effect s
    → IsValid s
Reachable-IsValid clock effect s harmless (Reachable.start heap ticks) = record {
  sorted = tt;
  single = tt;
}
Reachable-IsValid clock effect s harmless (Reachable.add u addr ms cb is_forever a r) =
    (add_timer-IsValid clock effect addr ms cb is_forever u a
      (Reachable-IsValid clock effect u harmless r)).0
Reachable-IsValid clock effect s harmless (Reachable.delete u addr r) =
    del_timer-IsValid addr u (Reachable-IsValid clock effect u harmless r)
Reachable-IsValid clock effect s harmless (Reachable.cancelled u addr r) =
    cancel-IsValid clock effect addr u harmless (Reachable-IsValid clock effect u harmless r)
Reachable-IsValid clock effect s harmless (Reachable.restarted u addr a r) =
    reset_timer-IsValid clock effect addr u a (Reachable-IsValid clock effect u harmless r)
Reachable-IsValid clock effect s harmless (Reachable.expire u addr a r) =
    (check_expire-Expired clock effect addr u harmless a
      (Reachable-IsValid clock effect u harmless r)).valid

abbrev front_of : (ℕ → Timer) → List ℕ → ℕ
front_of heap ts = elim ts [ [] ↦ minus_one | x ∷ xs ↦ get_ms (heap x) ]

Below-begin :
    (heap : ℕ → Timer) (x : ℕ) (xs : List ℕ)
    → Below heap x xs
    → All (λ y. (heap x).begin ≤ (heap y).begin) xs
Below-begin heap x [] h = tt
Below-begin heap x (y ∷ xs) h = (less_begin heap x y h.0, Below-begin heap x xs h.1)

-- `frontMs` is -1 for an empty set, and otherwise what `getMs` shows of the timer begun first.
pub front_ms_lem :
    (s : Manager)
    → IsValid s
    → ((s.timers ≡ []) × (front_ms s ≡ minus_one))
      ⊎ ((x : ℕ) × (xs : List ℕ) × (s.timers ≡ x ∷ xs)
          × (front_ms s ≡ get_ms (s.heap x))
          × All (λ y. (s.heap x).begin ≤ (s.heap y).begin) xs)
unfolding front_ms
front_ms_lem s v = by_set s.timers refl
  where
    by_set :
        (ts : List ℕ)
        → s.timers ≡ ts
        → ((s.timers ≡ []) × (front_ms s ≡ minus_one))
          ⊎ ((x : ℕ) × (xs : List ℕ) × (s.timers ≡ x ∷ xs)
              × (front_ms s ≡ get_ms (s.heap x))
              × All (λ y. (s.heap x).begin ≤ (s.heap y).begin) xs)
    by_set [] e = inl (e, ap (front_of s.heap) e)
    by_set (x ∷ xs) e =
        let below = subst (λ ts. IsSorted s.heap ts) e v.sorted in
        inr (x, xs, e, ap (front_of s.heap) e, Below-begin s.heap x xs below.0)

-- `getMs` shows the time that a timer was made for, however long ago that was and also after
-- `reset`, and 0 if that time is not an `int`.
pub get_ms_lem :
    (cur later ms : ℕ) (cb : Option ℕ) (is_forever : Bool)
    → cur < 2 ^ 32
    → later < 2 ^ 32
    → ms < 2 ^ 32
    → (get_ms (construct cur ms cb is_forever) ≡ (if ltb ms (2 ^ 31) then ms else 0))
      × (get_ms (reset (construct cur ms cb is_forever) later)
          ≡ (if ltb ms (2 ^ 31) then ms else 0))
get_ms_lem cur later ms cb is_forever h k m =
    let diff : sub32 ((cur + ms) % 2 ^ 32) cur ≡ ms = omega arith in
    let again : sub32 ((later + ms) % 2 ^ 32) later ≡ ms = omega arith in
    rw (diff, again) (refl, refl)
