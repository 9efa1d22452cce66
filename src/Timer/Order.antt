-- ===== src/Timer/Order.antt =====
-- The order of `Timer::Compare` of src/timer.h, and the sets of timers that it keeps.
use proj.Base.{
  ℕ, ◌≤◌, ◌≡◌, ◌≢◌, refl, sym, ap, ◌⊎◌, inl, inr, Bool, true, false, Bool-cases, List, [], ◌∷◌,
  ◌++◌, ◌==◌, if◌then◌else◌, arith, All,
}
use proj.Timer.{Timer, less, insert, erase, upper_bound}

less_trans :
    (heap : ℕ → Timer) (x y z : ℕ)
    → less heap x y ≡ true
    → less heap y z ≡ true
    → less heap x z ≡ true
less_trans heap x y z h k = ground arith

less_same : (heap : ℕ → Timer) (x y : ℕ) → less heap x y ≡ false → less heap y x ≡ false → x ≡ y
less_same heap x y h k = ground arith

less_swap : (heap : ℕ → Timer) (x y : ℕ) → less heap x y ≡ true → less heap y x ≡ false
less_swap heap x y h = ground arith

less_ne : (heap : ℕ → Timer) (x y : ℕ) → less heap x y ≡ true → y ≢ x
less_ne heap x y h e = ground arith

pub less_begin :
    (heap : ℕ → Timer) (x y : ℕ) → less heap x y ≡ true → (heap x).begin ≤ (heap y).begin
less_begin heap x y h = ground arith

pub not_less_begin :
    (heap : ℕ → Timer) (x y : ℕ) → less heap x y ≡ false → (heap y).begin ≤ (heap x).begin
not_less_begin heap x y h = ground arith

-- `addr` is below all.
abbrev pub Below : (ℕ → Timer) → ℕ → List ℕ → Type 0
Below heap addr xs = All (λ x. less heap addr x ≡ true) xs

-- The set's order.
abbrev pub IsSorted : (ℕ → Timer) → List ℕ → Type 0
IsSorted heap [] = Unit
IsSorted heap (x ∷ xs) = Below heap x xs × IsSorted heap xs

Below-weaken :
    (heap : ℕ → Timer) (x y : ℕ) (xs : List ℕ)
    → less heap x y ≡ true
    → Below heap y xs
    → Below heap x xs
Below-weaken heap x y [] h k = tt
Below-weaken heap x y (z ∷ xs) h k = (less_trans heap x y z h k.0, Below-weaken heap x y xs h k.1)

Below-insert :
    (heap : ℕ → Timer) (x addr : ℕ) (xs : List ℕ)
    → less heap x addr ≡ true
    → Below heap x xs
    → Below heap x (insert heap addr xs)
unfolding insert
Below-insert heap x addr [] h k = (h, tt)
Below-insert heap x addr (y ∷ xs) h k =
    let ih = Below-insert heap x addr xs h k.1 in
    elim (Bool-cases (less heap addr y)) [
      | inl e ↦ rw e (h, k)
      | inr e ↦ elim (Bool-cases (less heap y addr)) [
        | inl f ↦ rw (e, f) (k.0, ih)
        | inr f ↦ rw (e, f) k
      ]
    ]

pub insert-IsSorted :
    (heap : ℕ → Timer) (addr : ℕ) (xs : List ℕ)
    → IsSorted heap xs
    → IsSorted heap (insert heap addr xs)
unfolding insert
insert-IsSorted heap addr [] h = (tt, tt)
insert-IsSorted heap addr (x ∷ xs) h = elim (Bool-cases (less heap addr x)) [
  | inl e ↦ rw e ((e, Below-weaken heap addr x xs e h.0), h)
  | inr e ↦ elim (Bool-cases (less heap x addr)) [
    | inl f ↦ rw (e, f) (Below-insert heap x addr xs f h.0, insert-IsSorted heap addr xs h.1)
    | inr f ↦ rw (e, f) h
  ]
]

pub insert-All :
    (P : ℕ → Type 0) (heap : ℕ → Timer) (addr : ℕ) (xs : List ℕ)
    → P addr
    → All P xs
    → All P (insert heap addr xs)
unfolding insert
insert-All P heap addr [] h k = (h, tt)
insert-All P heap addr (x ∷ xs) h k =
    let ih = insert-All P heap addr xs h k.1 in
    elim (Bool-cases (less heap addr x)) [
      | inl e ↦ rw e (h, k)
      | inr e ↦ elim (Bool-cases (less heap x addr)) [
        | inl f ↦ rw (e, f) (k.0, ih)
        | inr f ↦ rw (e, f) k
      ]
    ]

Below-absent :
    (heap : ℕ → Timer) (addr : ℕ) (xs : List ℕ) → Below heap addr xs → All (λ x. x ≢ addr) xs
Below-absent heap addr [] h = tt
Below-absent heap addr (x ∷ xs) h = (less_ne heap addr x h.0, Below-absent heap addr xs h.1)

-- What erasing does: the one timer of the address goes, or there is none.
abbrev pub Erased : ℕ → List ℕ → Bool × List ℕ → Type 0
Erased addr xs r =
    (All (λ x. x ≢ addr) xs × (r ≡ (false, xs)))
    ⊎ ((before after : List ℕ) × (xs ≡ before ++ addr ∷ after) × (r ≡ (true, before ++ after)))

pub erase-Erased :
    (heap : ℕ → Timer) (addr : ℕ) (xs : List ℕ)
    → IsSorted heap xs
    → Erased addr xs (erase heap addr xs)
unfolding erase
erase-Erased heap addr [] h = inl (tt, refl)
erase-Erased heap addr (x ∷ xs) h = elim (Bool-cases (less heap x addr)) [
  | inl e ↦
      let other : x ≢ addr = λ p. less_ne heap x addr e (sym p) in
      rw e (elim (erase-Erased heap addr xs h.1) [
        | inl (all, eq) ↦ inl ((other, all), ap (λ r. (r.0, x ∷ r.1)) eq)
        | inr (before, after, eq, er) ↦
            inr (x ∷ before, after, ap (λ t. x ∷ t) eq, ap (λ r. (r.0, x ∷ r.1)) er)
      ])
  | inr e ↦ elim (Bool-cases (less heap addr x)) [
    | inl f ↦
        rw (e, f)
          (inl (
            (less_ne heap addr x f, Below-absent heap addr xs (Below-weaken heap addr x xs f h.0)),
            refl,
          ))
    | inr f ↦ rw (e, f) (inr ([], xs, ap (λ y. y ∷ xs) (less_same heap x addr e f), refl))
  ]
]

-- `upper_bound` cuts the set where the timers begin to be above.
pub upper_bound_lem :
    (heap : ℕ → Timer) (addr : ℕ) (xs : List ℕ)
    → IsSorted heap xs
    → (xs ≡ (upper_bound heap addr xs).0 ++ (upper_bound heap addr xs).1)
      × All (λ x. less heap addr x ≡ false) (upper_bound heap addr xs).0
      × Below heap addr (upper_bound heap addr xs).1
      × IsSorted heap (upper_bound heap addr xs).1
unfolding upper_bound
upper_bound_lem heap addr [] h = (refl, tt, tt, tt)
upper_bound_lem heap addr (x ∷ xs) h = elim (Bool-cases (less heap addr x)) [
  | inl e ↦ rw e (refl, tt, (e, Below-weaken heap addr x xs e h.0), h)
  | inr e ↦
      let (parts, low, high, sorted) = upper_bound_lem heap addr xs h.1 in
      rw e (ap (λ t. x ∷ t) parts, (e, low), high, sorted)
]

-- A timer that is not in the set may be changed.
pub IsSorted-put :
    (heap : ℕ → Timer) (addr : ℕ) (t : Timer) (xs : List ℕ)
    → All (λ x. x ≢ addr) xs
    → IsSorted heap xs
    → IsSorted (λ k. if k == addr then t else heap k) xs
IsSorted-put heap addr t [] a h = tt
IsSorted-put heap addr t (x ∷ xs) a h = (Below-put xs a.1 h.0, IsSorted-put heap addr t xs a.1 h.1)
  where
    Below-put :
        (ys : List ℕ)
        → All (λ y. y ≢ addr) ys
        → Below heap x ys
        → Below (λ k. if k == addr then t else heap k) x ys
    Below-put [] b k = tt
    Below-put (y ∷ ys) b k = (ground (arith, a.0, b.0, k.0), Below-put ys b.1 k.1)
