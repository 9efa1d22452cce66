-- ===== src/Timer.antt =====
-- `Timer` and `TimerManagers` of src/timer.h and src/timer.cc.
pub mod Order
pub mod Laws
pub mod Reach
pub mod Routine
mod Tests
use proj.Base.{
  ℕ, ◌+◌, ◌-◌, ◌%◌, ◌^◌, Bool, true, false, not, Option, none, some, List, [], ◌∷◌, ◌++◌, ◌==◌, ltb,
  if◌then◌else◌,
}

-- The fields of `Timer`. A callback is a number, and none is `nullptr`.
pub record Timer : Type 0 where
  pub begin : ℕ
  pub end : ℕ
  pub cb : Option ℕ
  pub is_forever : Bool

-- `m_timers` as the addresses in the set's order, the timers at their addresses, the callbacks
-- called so far, and how often the clock was read.
pub record Manager : Type 0 where
  pub timers : List ℕ
  pub heap : ℕ → Timer
  pub called : List ℕ
  pub ticks : ℕ

-- The `int` -1.
abbrev pub minus_one : ℕ
minus_one = 2 ^ 32 - 1

-- The difference of two `uint32_t`.
abbrev pub sub32 : ℕ → ℕ → ℕ
sub32 a b = (a + 2 ^ 32 - b) % 2 ^ 32

-- `Timer::Timer(ms,cb,isForever)` and `Timer::Timer()`, at the time `cur`.
abbrev pub construct : ℕ → ℕ → Option ℕ → Bool → Timer
construct cur ms cb is_forever = record {
  begin = cur;
  end = (cur + ms) % 2 ^ 32;
  cb = cb;
  is_forever = is_forever;
}

abbrev pub construct_default : ℕ → Timer
construct_default cur = record { begin = cur; end = 0; cb = none; is_forever = false }

-- `Timer::getMs`: the difference as an `int`, or 0 where that is negative.
abbrev pub get_ms : Timer → ℕ
get_ms t = let diff = sub32 t.end t.begin in if ltb diff (2 ^ 31) then diff else 0

-- `Timer::reset`, at the time `cur`.
abbrev pub reset : Timer → ℕ → Timer
reset t cur = record t { begin = cur; end = (cur + sub32 t.end t.begin) % 2 ^ 32 }

-- `Timer::Compare`, of two timers by their addresses.
abbrev pub less : (ℕ → Timer) → ℕ → ℕ → Bool
less heap lhs rhs =
    if ltb (heap lhs).begin (heap rhs).begin
    then true
    else if ltb (heap rhs).begin (heap lhs).begin
    then false
    else ltb lhs rhs

-- `m_timers.insert(timer)`: nothing is inserted where an equivalent one is there.
unfoldable pub insert : (ℕ → Timer) → ℕ → List ℕ → List ℕ
insert heap addr [] = addr ∷ []
insert heap addr (x ∷ xs) =
    let more = x ∷ insert heap addr xs in
    if less heap addr x then addr ∷ x ∷ xs else if less heap x addr then more else x ∷ xs

-- `m_timers.find(timer)` and `m_timers.erase(iter)`: whether an equivalent timer is there, and the
-- timers without it.
unfoldable pub erase : (ℕ → Timer) → ℕ → List ℕ → Bool × List ℕ
erase heap addr [] = (false, [])
erase heap addr (x ∷ xs) =
    let rest = erase heap addr xs in
    if less heap x addr
    then (rest.0, x ∷ rest.1)
    else if less heap addr x
    then (false, x ∷ xs)
    else (true, xs)

-- The timers before `m_timers.upper_bound(timer)`, and those from it on.
unfoldable pub upper_bound : (ℕ → Timer) → ℕ → List ℕ → List ℕ × List ℕ
upper_bound heap addr [] = ([], [])
upper_bound heap addr (x ∷ xs) =
    let rest = upper_bound heap addr xs in
    if less heap addr x then ([], x ∷ xs) else (x ∷ rest.0, rest.1)

-- A timer is changed in place, or made at a free address.
abbrev pub put : ℕ → Timer → Manager → Manager
put addr t s = record s { heap = λ k. if k == addr then t else s.heap k }

-- `TimerManagers::frontMs`
unfoldable pub front_ms : Manager → ℕ
front_ms s = elim s.timers [ [] ↦ minus_one | x ∷ xs ↦ get_ms (s.heap x) ]

-- `TimerManagers::delTimer`; a null pointer is below every timer and not found.
unfoldable pub del_timer : Option ℕ → Manager → ℕ × Manager
del_timer none s = (minus_one, s)
del_timer (some addr) s =
    let found = erase s.heap addr s.timers in
    if found.0 then (0, record s { timers = found.1 }) else (minus_one, s)

-- `Timer::remove`
abbrev pub remove : ℕ → Manager → Manager
remove addr s = (del_timer (some addr) s).1

-- `clock n` is what `GetTimeOfMS` shows at its n-th reading, and `effect cb` what the code of a
-- callback does to the manager.
module _ (clock : ℕ → ℕ) (effect : ℕ → Manager → Manager) where
  -- `uint32_t cur = GetTimeOfMS();`
  abbrev pub get_time : Manager → ℕ × Manager
  get_time s = (clock s.ticks % 2 ^ 32, record s { ticks = s.ticks + 1 })

  -- `cb()`
  abbrev pub call : ℕ → Manager → Manager
  call cb s = effect cb (record s { called = s.called ++ cb ∷ [] })

  -- `Timer::cancel`
  unfoldable pub cancel : ℕ → Manager → Manager
  cancel addr s = elim (s.heap addr).cb [
    | none ↦ s
    | some cb ↦ (del_timer (some addr) (call cb s)).1
  ]

  -- `Timer::reset` of the timer at an address, which stays where it is in the set.
  unfoldable pub reset_timer : ℕ → Manager → Manager
  reset_timer addr s = let now = get_time s in put addr (reset (now.1.heap addr) now.0) now.1

  -- `TimerManagers::addTimer`, with the timer at the address `addr`; `isForever` is not passed on.
  unfoldable pub add_timer : ℕ → ℕ → Option ℕ → Bool → Manager → Manager
  add_timer addr ms cb is_forever s =
      let now = get_time s in
      let made = put addr (construct now.0 ms cb false) now.1 in
      record made { timers = insert made.heap addr made.timers }

  -- `TimerManagers::addTimerForever`
  abbrev pub add_timer_forever : ℕ → ℕ → Option ℕ → Manager → Manager
  add_timer_forever addr ms cb s = add_timer addr ms cb true s

  -- `it->reset(); m_timers.insert(it);`
  abbrev pub rearm : ℕ → Manager → Manager
  rearm it s =
      let now = get_time s in
      let again = put it (reset (now.1.heap it) now.0) now.1 in
      record again { timers = insert again.heap it again.timers }

  -- One round of the second loop of `checkExpire`.
  abbrev pub fire : ℕ → Manager → Manager
  fire it s =
      let called : Manager = elim (s.heap it).cb [ none ↦ s | some cb ↦ call cb s ] in
      if (called.heap it).is_forever then rearm it called else called

  -- The second loop of `checkExpire`.
  unfoldable pub fire_all : List ℕ → Manager → Manager
  fire_all [] s = s
  fire_all (it ∷ rest) s = fire_all rest (fire it s)

  -- `TimerManagers::checkExpire`, with the local timer at the address `addr`.
  unfoldable pub check_expire : ℕ → Manager → Manager
  check_expire addr s =
      let now = get_time s in
      let made = put addr (construct_default now.0) now.1 in
      let bound = upper_bound made.heap addr made.timers in
      fire_all bound.0 (record made { timers = bound.1 })
