-- ===== src/Timer/Routine.antt =====
-- `TimerManagers::init` and `timer_routine` of src/timer.cc: the coroutine that waits for the first
-- timer and then checks the set.
use proj.Base.{
  ℕ, ◌+◌, ◌%◌, ◌^◌, ◌≤◌, ◌<◌, ◌≡◌, ◌≢◌, refl, sym, ap, Bool, false, Option, none, some, inl, inr,
  List, [], ◌∷◌, ◌++◌, if◌then◌else◌, ◌==◌, arith, All, Any, Any-split, Any-append_left,
  Any-append_right, Bool-cases, append-nil, append_assoc, length, ◌∙◌,
}
use mathlib.Core.Path.{subst}
use proj.Timer.{Timer, Manager, construct, less, insert, add_timer, check_expire, front_ms}
use proj.Timer.Laws.{
  IsValid, IsFree, Expired, callback, callbacks, All-split, add_timer-IsValid, check_expire-Expired,
}

-- `init`: the end of the pipe that the coroutine polls, none for -1; and the constructor, which then
-- throws.
unfoldable pub init : Option (ℕ × ℕ) → Option ℕ
init tickles = elim tickles [ none ↦ none | some ends ↦ some ends.0 ]

unfoldable pub construct_managers : (ℕ → Timer) → ℕ → Option (ℕ × ℕ) → Option (ℕ × Manager)
construct_managers heap ticks tickles = elim (init tickles) [
  | none ↦ none
  | some fd ↦ some (fd, record { timers = []; heap = heap; called = []; ticks = ticks })
]

module _ (clock : ℕ → ℕ) (effect : ℕ → Manager → Manager) where
  -- One round of the loop: the time given to `co_poll`, and the manager after `checkExpire` with its
  -- local timer at `addr`.
  unfoldable pub timer_round : ℕ → Manager → ℕ × Manager
  timer_round addr s = (front_ms s, check_expire clock effect addr s)

  -- The rounds with their local timers at `addrs`: the times that were polled for, and the manager.
  unfoldable pub timer_routine : List ℕ → Manager → List ℕ × Manager
  timer_routine [] s = ([], s)
  timer_routine (addr ∷ addrs) s =
      let round = timer_round addr s in
      let rest = timer_routine addrs round.1 in (round.0 ∷ rest.0, rest.1)

insert-Any :
    (heap : ℕ → Timer) (addr : ℕ) (xs : List ℕ)
    → All (λ x. x ≢ addr) xs
    → Any (λ x. x ≡ addr) (insert heap addr xs)
unfolding insert
insert-Any heap addr [] free = inl refl
insert-Any heap addr (x ∷ xs) free = elim (Bool-cases (less heap addr x)) [
  | inl e ↦ rw e (inl refl)
  | inr e ↦ elim (Bool-cases (less heap x addr)) [
    | inl f ↦ rw (e, f) (inr (insert-Any heap addr xs free.1))
    | inr f ↦ absurd (ground (arith, free.0))
  ]
]

All-at : (P : ℕ → Type 0) (addr : ℕ) (xs : List ℕ) → All P xs → Any (λ x. x ≡ addr) xs → P addr
All-at P addr [] all h = elim h [ ]
All-at P addr (x ∷ xs) all (inl e) = subst P e all.0
All-at P addr (x ∷ xs) all (inr h) = All-at P addr xs all.1 h

callbacks-Any :
    (heap : ℕ → Timer) (addr cb : ℕ) (its : List ℕ)
    → (heap addr).cb ≡ some cb
    → Any (λ x. x ≡ addr) its
    → Any (λ c. c ≡ cb) (callbacks heap its)
callbacks-Any heap addr cb [] e h = elim h [ ]
callbacks-Any heap addr cb (x ∷ xs) e (inl h) =
    Any-append_left (λ c. c ≡ cb) (callback (heap x).cb) (callbacks heap xs)
      (subst (λ k. Any (λ c. c ≡ cb) (callback (heap k).cb)) (sym h)
        (subst (λ o. Any (λ c. c ≡ cb) (callback o)) (sym e) (inl refl)))
callbacks-Any heap addr cb (x ∷ xs) e (inr h) =
    Any-append_right (λ c. c ≡ cb) (callback (heap x).cb) (callbacks heap xs)
      (callbacks-Any heap addr cb xs e h)

-- A timer of the set that was begun before now is among those called.
fired-Any :
    (cur addr : ℕ) (s u : Manager) (e : Expired cur s u)
    → (s.heap addr).begin < cur
    → Any (λ x. x ≡ addr) s.timers
    → Any (λ x. x ≡ addr) e.fired
fired-Any cur addr s u e low here =
    elim (Any-split (λ x. x ≡ addr) e.fired u.timers
      (subst (λ xs. Any (λ x. x ≡ addr) xs) e.parts here)) [
        | inl fired ↦ fired
        | inr stays ↦
            let late = All-at (λ x. cur ≤ (s.heap x).begin) addr u.timers e.early stays in
            absurd (omega (arith, low, late))
      ]

module _ (clock : ℕ → ℕ) (effect : ℕ → Manager → Manager) where
  add_timer-Any :
      (addr ms : ℕ) (cb : Option ℕ) (is_forever : Bool) (s : Manager)
      → IsFree addr s
      → Any (λ x. x ≡ addr) (add_timer clock effect addr ms cb is_forever s).timers
  unfolding add_timer
  add_timer-Any addr ms cb is_forever s free =
      let t = construct (clock s.ticks % 2 ^ 32) ms cb false in
      insert-Any (λ k. if k == addr then t else s.heap k) addr s.timers free

  -- Rounds with local timers apart from the set call more callbacks behind those called before.
  abbrev pub AllFree : List ℕ → Manager → Type 0
  AllFree spares s = All (λ spare. IsFree spare s) spares

  AllFree-parts :
      (spares : List ℕ) (s u : Manager) (fired : List ℕ)
      → s.timers ≡ fired ++ u.timers
      → AllFree spares s
      → AllFree spares u
  AllFree-parts [] s u fired parts free = tt
  AllFree-parts (spare ∷ spares) s u fired parts free = (
    (All-split (λ x. x ≢ spare) fired u.timers
        (subst (λ ts. All (λ x. x ≢ spare) ts) parts free.0)).1,
    AllFree-parts spares s u fired parts free.1,
  )

  timer_routine-called :
      (spares : List ℕ) (s : Manager)
      → ((c : ℕ) (u : Manager) → effect c u ≡ u)
      → AllFree spares s
      → IsValid s
      → (new : List ℕ) × ((timer_routine clock effect spares s).1.called ≡ s.called ++ new)
  unfolding timer_routine timer_round
  timer_routine-called [] s harmless free v = ([], sym (append-nil s.called))
  timer_routine-called (spare ∷ spares) s harmless free v =
      let u = check_expire clock effect spare s in
      let e = check_expire-Expired clock effect spare s harmless free.0 v in
      let (new, eq) =
        timer_routine-called spares u harmless (AllFree-parts spares s u e.fired e.parts free.1)
          e.valid in
      (
        callbacks s.heap e.fired ++ new,
        eq ∙ ap (λ c. c ++ new) e.called_lem ∙ append_assoc s.called (callbacks s.heap e.fired) new,
      )

  -- The callback that some rounds call.
  abbrev pub Calls : List ℕ → ℕ → Manager → Type 0
  Calls spares cb s =
      (new : List ℕ) × ((timer_routine clock effect spares s).1.called ≡ s.called ++ new)
      × Any (λ c. c ≡ cb) new

  fired-Calls :
      (spare : ℕ) (spares : List ℕ) (addr cb : ℕ) (s : Manager)
      → ((c : ℕ) (u : Manager) → effect c u ≡ u)
      → AllFree (spare ∷ spares) s
      → (s.heap addr).cb ≡ some cb
      → (e : Expired (clock s.ticks % 2 ^ 32) s (check_expire clock effect spare s))
      → Any (λ x. x ≡ addr) e.fired
      → Calls (spare ∷ spares) cb s
  unfolding timer_routine timer_round
  fired-Calls spare spares addr cb s harmless free has e fired =
      let u = check_expire clock effect spare s in
      let (more, eq) =
        timer_routine-called spares u harmless (AllFree-parts spares s u e.fired e.parts free.1)
          e.valid in
      (
        callbacks s.heap e.fired ++ more,
        eq
            ∙ ap (λ c. c ++ more) e.called_lem
            ∙ append_assoc s.called (callbacks s.heap e.fired) more,
        Any-append_left (λ c. c ≡ cb) (callbacks s.heap e.fired) more
            (callbacks-Any s.heap addr cb e.fired has fired),
      )

  -- A timer of the set that was begun before the last round reads the clock is called.
  timer_routine-Calls :
      (spare : ℕ) (spares : List ℕ) (addr cb : ℕ) (s : Manager)
      → ((c : ℕ) (u : Manager) → effect c u ≡ u)
      → AllFree (spare ∷ spares) s
      → IsValid s
      → (s.heap addr).cb ≡ some cb
      → Any (λ x. x ≡ addr) s.timers
      → (s.heap addr).begin < clock (s.ticks + length spares) % 2 ^ 32
      → Calls (spare ∷ spares) cb s
  unfolding timer_routine timer_round
  timer_routine-Calls spare [] addr cb s harmless free v has here later =
      let e = check_expire-Expired clock effect spare s harmless free.0 v in
      let now : clock (s.ticks + 0) ≡ clock s.ticks = ap clock (omega arith) in
      fired-Calls spare [] addr cb s harmless free has e (
        fired-Any (clock s.ticks % 2 ^ 32) addr s (check_expire clock effect spare s) e
          (subst (λ n. (s.heap addr).begin < n % 2 ^ 32) now later) here)
  timer_routine-Calls spare (next ∷ spares) addr cb s harmless free v has here later =
      let u = check_expire clock effect spare s in
      let e = check_expire-Expired clock effect spare s harmless free.0 v in
      elim (Any-split (λ x. x ≡ addr) e.fired u.timers
        (subst (λ xs. Any (λ x. x ≡ addr) xs) e.parts here)) [
          | inl fired ↦ fired-Calls spare (next ∷ spares) addr cb s harmless free has e fired
          | inr stays ↦
              let same = All-at (λ x. u.heap x ≡ s.heap x) addr u.timers e.kept stays in
              let time : s.ticks + length (next ∷ spares) ≡ u.ticks + length spares =
                omega (arith, e.ticks_lem) in
              let (new, eq, called) =
                timer_routine-Calls next spares addr cb u harmless
                  (AllFree-parts (next ∷ spares) s u e.fired e.parts free.1) e.valid
                  (ap (λ (x : Timer). x.cb) same ∙ has) stays
                  (subst (λ n. (u.heap addr).begin < clock n % 2 ^ 32) time
                    (subst
                      (λ (x : Timer). x.begin < clock (s.ticks + length (next ∷ spares)) % 2 ^ 32)
                      (sym same) later)) in
              (
                callbacks s.heap e.fired ++ new,
                eq
                    ∙ ap (λ c. c ++ new) e.called_lem
                    ∙ append_assoc s.called (callbacks s.heap e.fired) new,
                Any-append_right (λ c. c ≡ cb) (callbacks s.heap e.fired) new called,
              )
        ]

  -- A timer added to a valid manager is called by the first round that reads a later time, or by one
  -- before it, however many milliseconds it was given: of any rounds after the addition, the last of
  -- which reads a later time, if callbacks leave the manager alone and the local timers of the rounds
  -- are apart from the set.
  pub timer_routine-add_timer :
      (addr spare : ℕ) (spares : List ℕ) (ms cb : ℕ) (is_forever : Bool) (s : Manager)
      → ((c : ℕ) (u : Manager) → effect c u ≡ u)
      → IsFree addr s
      → AllFree (spare ∷ spares) (add_timer clock effect addr ms (some cb) is_forever s)
      → IsValid s
      → clock s.ticks % 2 ^ 32 < clock (s.ticks + 1 + length spares) % 2 ^ 32
      → Calls (spare ∷ spares) cb (add_timer clock effect addr ms (some cb) is_forever s)
  unfolding add_timer
  timer_routine-add_timer addr spare spares ms cb is_forever s harmless free apart v later =
      let t = add_timer clock effect addr ms (some cb) is_forever s in
      let (valid, made) = add_timer-IsValid clock effect addr ms (some cb) is_forever s free v in
      timer_routine-Calls spare spares addr cb t harmless apart valid
        (ap (λ (x : Timer). x.cb) made) (add_timer-Any addr ms (some cb) is_forever s free)
        (subst (λ b. b < clock (s.ticks + 1 + length spares) % 2 ^ 32)
          (sym (ap (λ (x : Timer). x.begin) made)) later)
