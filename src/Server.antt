-- ===== src/Server.antt =====
-- `TcpServer` of src/tcpServer.h and src/tcpServer.cc: the pool of coroutines
-- that serve connections; the sockets that it listens on are those of Listen. What the system and libco answer is given with each step.
pub mod Pool
pub mod Bind
pub mod Listen
pub mod Setup
pub mod Targets
pub mod Start
pub mod Echo
mod Tests
use proj.Base.{
  ℕ, zero, suc, ◌+◌, ◌-◌, Bool, true, false, not, ◌&&◌, Option, none, some, List, [], ◌∷◌, ◌++◌,
  ◌==◌, if◌then◌else◌,
}
use proj.Base.Text.{Text, is_empty}

-- `AddrInfo`
pub record AddrInfo : Type 0 where
  pub ip : Text
  pub port : ℕ
  pub unix : Text

-- The tasks `m_readWrite`, the top first; the tasks that serve a connection, with its descriptor,
-- each a coroutine in the inner loop of `readwrite_routine`; the descriptors that `co_accept` returned
-- and those closed since, the last first.
pub record TcpServer : Type 0 where
  pub read_write : List ℕ
  pub busy : List (ℕ × ℕ)
  pub accepted : List ℕ
  pub closed : List ℕ

-- `push`
abbrev pub push : ℕ → TcpServer → TcpServer
push task s = record s { read_write = task ∷ s.read_write }

-- `empty`
abbrev pub empty : TcpServer → Bool
empty s = elim s.read_write [ [] ↦ true | t ∷ ts ↦ false ]

-- `startReadWrite`: a new task finds its descriptor -1, pushes itself and yields.
unfoldable pub start_read_write : ℕ → TcpServer → TcpServer
start_read_write zero s = s
start_read_write (suc i) s = push i (start_read_write i s)

-- `erase`, then `co->fd = fd; co_resume(co->co);`: the task takes the descriptor and polls it. With no
-- task in the pool the top is undefined: none.
abbrev pub hand_over : ℕ → TcpServer → Option TcpServer
hand_over fd s = elim s.read_write [
  | [] ↦ none
  | t ∷ ts ↦ some (record s { read_write = ts; busy = (t, fd) ∷ s.busy })
]

-- One round of the loop of `accept_routine`; `fd` is what `co_accept` returns if it is called, none
-- for a negative number.
unfoldable pub accept_round : Option ℕ → TcpServer → Option TcpServer
accept_round fd s = if empty s then some s else elim fd [
  | none ↦ some s
  | some c ↦
      let got : TcpServer = record s { accepted = c ∷ s.accepted } in
      if empty got then some (record got { closed = c ∷ got.closed }) else hand_over c got
]

-- `handle`, by what `read` and `write` return, none for -1, and whether `errno` is then `EAGAIN`: true
-- is the result -1.
abbrev pub handle : Option ℕ → Option ℕ → Bool → Bool
handle read_ret write_ret again =
    let failed : Bool → Bool = λ up. if up then not again else false in
    elim read_ret [
      | some (suc n) ↦ failed (elim write_ret [ some (suc m) ↦ false | _ ↦ true ])
      | _ ↦ failed true
    ]

abbrev pub behind : ℕ × ℕ → Option (ℕ × List (ℕ × ℕ)) → Option (ℕ × List (ℕ × ℕ))
behind b none = none
behind b (some (fd, rest)) = some (fd, b ∷ rest)

-- The connection of a task is taken off.
unfoldable pub unserve : ℕ → List (ℕ × ℕ) → Option (ℕ × List (ℕ × ℕ))
unserve task [] = none
unserve task ((t, fd) ∷ busy) =
    let rest = behind (t, fd) (unserve task busy) in if t == task then some (fd, busy) else rest

-- One round of the inner loop of `readwrite_routine` of a task, where `handle` returns -1 or not:
-- after -1 the task closes the descriptor, pushes itself and yields.
unfoldable pub serve_round : ℕ → Bool → TcpServer → TcpServer
serve_round task failed s = elim (unserve task s.busy) [
  | none ↦ s
  | some (fd, rest) ↦
      if failed then push task (record s { busy = rest; closed = fd ∷ s.closed }) else s
]

-- The coroutines run one at a time, from one yield to the next.
pub data Event : Type 0 where
  accept : Option ℕ → Event
  serve : ℕ → Option ℕ → Option ℕ → Bool → Event

unfoldable pub step : Event → TcpServer → Option TcpServer
step (Event.accept fd) s = accept_round fd s
step (Event.serve task read_ret write_ret again) s =
    some (serve_round task (handle read_ret write_ret again) s)

unfoldable pub run : List Event → TcpServer → Option TcpServer
run [] s = some s
run (e ∷ es) s = elim (step e s) [ none ↦ none | some t ↦ run es t ]

-- A server before `startReadWrite`.
abbrev pub fresh : TcpServer
fresh = record { read_write = []; busy = []; accepted = []; closed = [] }
