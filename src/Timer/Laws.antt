-- ===== src/Timer/Laws.antt =====
-- What the operations of `TimerManagers` of src/timer.cc do, and what they keep.
use proj.Base.{
  ℕ, ◌+◌, ◌%◌, ◌^◌, ◌≤◌, ◌≡◌, ◌≢◌, refl, sym, ap, ap₂, ◌∙◌, ◌⊎◌, inl, inr, Bool, false, Option,
  none, some, List, [], ◌∷◌, ◌++◌, map, concat, ◌==◌, if◌then◌else◌, arith, All, append_assoc,
  append-nil, Option-cases,
}
use mathlib.Core.Path.{subst}
use proj.Timer.{
  Timer, Manager, minus_one, construct, construct_default, less, upper_bound, del_timer, add_timer,
  fire, fire_all, check_expire,
}
use proj.Timer.Order.{
  IsSorted, insert-IsSorted, insert-All, erase-Erased, upper_bound_lem, IsSorted-put, Below,
}

-- The set is in its order, and no timer in it is a repeated one.
pub record IsValid (s : Manager) : Type 0 where
  pub sorted : IsSorted s.heap s.timers
  pub single : All (λ x. (s.heap x).is_forever ≡ false) s.timers

-- The address is that of no timer in the set.
abbrev pub IsFree : ℕ → Manager → Type 0
IsFree addr s = All (λ x. x ≢ addr) s.timers

pub single-put :
    (heap : ℕ → Timer) (addr : ℕ) (t : Timer) (xs : List ℕ)
    → All (λ x. x ≢ addr) xs
    → All (λ x. (heap x).is_forever ≡ false) xs
    → All (λ x. (if x == addr then t else heap x).is_forever ≡ false) xs
single-put heap addr t [] a h = tt
single-put heap addr t (x ∷ xs) a h = (ground (arith, a.0, h.0), single-put heap addr t xs a.1 h.1)

pub All-split : (P : ℕ → Type 0) (xs ys : List ℕ) → All P (xs ++ ys) → All P xs × All P ys
All-split P [] ys h = (tt, h)
All-split P (x ∷ xs) ys h = let (a, b) = All-split P xs ys h.1 in ((h.0, a), b)

-- The callbacks that some timers have.
abbrev pub callback : Option ℕ → List ℕ
callback none = []
callback (some cb) = cb ∷ []

abbrev pub callbacks : (ℕ → Timer) → List ℕ → List ℕ
callbacks heap its = concat (map (λ x. callback (heap x).cb) its)

-- What a check of the timers did to a manager: those begun at most at the time `cur` are gone and
-- their callbacks called in the set's order, and those that stay were begun no earlier and are as they
-- were.
pub record Expired (cur : ℕ) (s t : Manager) : Type 0 where
  pub fired : List ℕ
  pub parts : s.timers ≡ fired ++ t.timers
  pub due : All (λ x. (s.heap x).begin ≤ cur) fired
  pub early : All (λ x. cur ≤ (s.heap x).begin) t.timers
  pub called_lem : t.called ≡ s.called ++ callbacks s.heap fired
  pub valid : IsValid t
  pub kept : All (λ x. t.heap x ≡ s.heap x) t.timers
  pub ticks_lem : t.ticks ≡ s.ticks + 1

module _ (heap : ℕ → Timer) (addr : ℕ) (t : Timer) where
  abbrev changed : ℕ → Timer
  changed k = if k == addr then t else heap k

  due-put :
      (xs : List ℕ)
      → All (λ x. x ≢ addr) xs
      → All (λ x. less changed addr x ≡ false) xs
      → All (λ x. (heap x).begin ≤ t.begin) xs
  due-put [] a h = tt
  due-put (x ∷ xs) a h = (ground (arith, a.0, h.0), due-put xs a.1 h.1)

  early-put :
      (xs : List ℕ)
      → All (λ x. x ≢ addr) xs
      → Below changed addr xs
      → All (λ x. t.begin ≤ (heap x).begin) xs
  early-put [] a h = tt
  early-put (x ∷ xs) a h = (ground (arith, a.0, h.0), early-put xs a.1 h.1)

  kept-put : (xs : List ℕ) → All (λ x. x ≢ addr) xs → All (λ x. changed x ≡ heap x) xs
  kept-put [] a = tt
  kept-put (x ∷ xs) a = (ground (arith, a.0), kept-put xs a.1)

  callbacks-put : (xs : List ℕ) → All (λ x. x ≢ addr) xs → callbacks changed xs ≡ callbacks heap xs
  callbacks-put [] a = refl
  callbacks-put (x ∷ xs) a =
      let other : changed x ≡ heap x = ground (arith, a.0) in
      ap₂ (λ c cs. callback c.cb ++ cs) other (callbacks-put xs a.1)

module _ (clock : ℕ → ℕ) (effect : ℕ → Manager → Manager) where
  -- Adding a timer keeps a manager valid, also where a repeated timer is asked for: what is added is
  -- a timer with the callback, begun at the present time, that is not repeated.
  pub add_timer-IsValid :
      (addr ms : ℕ) (cb : Option ℕ) (is_forever : Bool) (s : Manager)
      → IsFree addr s
      → IsValid s
      → IsValid (add_timer clock effect addr ms cb is_forever s)
        × ((add_timer clock effect addr ms cb is_forever s).heap addr
            ≡ construct (clock s.ticks % 2 ^ 32) ms cb false)
  unfolding add_timer
  add_timer-IsValid addr ms cb is_forever s a v =
      let t = construct (clock s.ticks % 2 ^ 32) ms cb false in
      let heap : ℕ → Timer = λ k. if k == addr then t else s.heap k in
      (
        record {
          sorted =
              insert-IsSorted heap addr s.timers (IsSorted-put s.heap addr t s.timers a v.sorted);
          single =
              insert-All (λ x. (heap x).is_forever ≡ false) heap addr s.timers (ground arith)
                (single-put s.heap addr t s.timers a v.single);
        },
        ground arith,
      )

  -- A timer that is not repeated is called once, and nothing else changes.
  fire_lem :
      (it : ℕ) (s : Manager)
      → ((cb : ℕ) (u : Manager) → effect cb u ≡ u)
      → (s.heap it).is_forever ≡ false
      → fire clock effect it s ≡ record s { called = s.called ++ callback (s.heap it).cb }
  fire_lem it s harmless h = elim (Option-cases (s.heap it).cb) [
    | inl e ↦ ground (arith, append-nil s.called)
    | inr (cb, e) ↦ ground (arith, harmless cb (record s { called = s.called ++ cb ∷ [] }))
  ]

  fire_all_lem :
      (its : List ℕ) (s : Manager)
      → ((cb : ℕ) (u : Manager) → effect cb u ≡ u)
      → All (λ x. (s.heap x).is_forever ≡ false) its
      → fire_all clock effect its s ≡ record s { called = s.called ++ callbacks s.heap its }
  unfolding fire_all
  fire_all_lem [] s harmless h = ap (λ c. record s { called = c }) (sym (append-nil s.called))
  fire_all_lem (it ∷ its) s harmless h =
      let rest = record s { called = s.called ++ callback (s.heap it).cb } in
      ap (λ u. fire_all clock effect its u) (fire_lem it s harmless h.0)
      ∙ fire_all_lem its rest harmless h.1
      ∙ ap (λ c. record s { called = c })
          (append_assoc s.called (callback (s.heap it).cb) (callbacks s.heap its))

  -- A check of a valid manager, where callbacks leave the manager alone, cuts the set in two: the
  -- timers of the first part, none begun after the present time, are dropped and their callbacks
  -- called in the set's order, and those of the second part, none begun before that time, stay. So
  -- every timer begun before now is called, however far its end is; the manager stays valid.
  pub check_expire-Expired :
      (addr : ℕ) (s : Manager)
      → ((cb : ℕ) (u : Manager) → effect cb u ≡ u)
      → IsFree addr s
      → IsValid s
      → Expired (clock s.ticks % 2 ^ 32) s (check_expire clock effect addr s)
  unfolding check_expire
  check_expire-Expired addr s harmless a v =
      let t = construct_default (clock s.ticks % 2 ^ 32) in
      let heap : ℕ → Timer = changed s.heap addr t in
      let bound = upper_bound heap addr s.timers in
      let (parts, low, high, sorted) =
        upper_bound_lem heap addr s.timers (IsSorted-put s.heap addr t s.timers a v.sorted) in
      let split = λ (P : ℕ → Type 0) (all : All P s.timers).
        All-split P bound.0 bound.1 (subst (λ ts. All P ts) parts all) in
      let free = split (λ x. x ≢ addr) a in
      let once =
        split (λ x. (heap x).is_forever ≡ false) (single-put s.heap addr t s.timers a v.single) in
      let made : Manager = record s { timers = bound.1; heap = heap; ticks = s.ticks + 1 } in
      subst (λ u. Expired (clock s.ticks % 2 ^ 32) s u)
        (sym (fire_all_lem bound.0 made harmless once.0))
        (record {
          fired = bound.0;
          parts = parts;
          due = due-put s.heap addr t bound.0 free.0 low;
          early = early-put s.heap addr t bound.1 free.1 high;
          called_lem = ap (λ c. s.called ++ c) (callbacks-put s.heap addr t bound.0 free.0);
          valid = record { sorted = sorted; single = once.1 };
          kept = kept-put s.heap addr t bound.1 free.1;
          ticks_lem = refl;
        })

-- Deleting from a valid manager takes out the one timer at the address and returns 0, or returns -1
-- and changes nothing where there is none; nothing but the set changes.
pub del_timer_lem :
    (addr : ℕ) (s : Manager)
    → IsValid s
    → (IsFree addr s × (del_timer (some addr) s ≡ (minus_one, s)))
      ⊎ ((before after : List ℕ) × (s.timers ≡ before ++ addr ∷ after)
          × (del_timer (some addr) s ≡ (0, record s { timers = before ++ after })))
unfolding del_timer
del_timer_lem addr s v = elim (erase-Erased s.heap addr s.timers v.sorted) [
  | inl (all, eq) ↦ inl (all, rw eq refl)
  | inr (before, after, parts, eq) ↦ inr (before, after, parts, rw eq refl)
]
