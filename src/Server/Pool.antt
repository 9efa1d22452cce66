-- ===== src/Server/Pool.antt =====
-- The pool of tasks of src/tcpServer.cc: no task and no connection is lost or doubled.
use proj.Base.{
  ℕ, zero, suc, ◌+◌, ◌≡◌, refl, ap, ◌∙◌, Bool, Bool-cases, inl, inr, Option, none, some, List, [],
  ◌∷◌, map, length, ◌==◌, ltb, if◌then◌else◌, arith, ◌⊎◌,
}
use proj.Server.{
  TcpServer, Event, start_read_write, accept_round, behind, unserve, serve_round, handle, step, run,
  fresh,
}

-- How often a number is in a list.
unfoldable pub count : ℕ → List ℕ → ℕ
count k [] = 0
count k (x ∷ xs) = (if k == x then 1 else 0) + count k xs

abbrev pub tasks : List (ℕ × ℕ) → List ℕ
tasks busy = map (λ b. b.0) busy

abbrev pub fds : List (ℕ × ℕ) → List ℕ
fds busy = map (λ b. b.1) busy

-- Of the tasks below `n`, each is once in the pool or serves one connection, and no other task is
-- anywhere; and each connection accepted is being served or was closed, as often as it was accepted.
pub record IsBalanced (n : ℕ) (s : TcpServer) : Type 0 where
  pub once : (t : ℕ) → count t s.read_write + count t (tasks s.busy) ≡ (if ltb t n then 1 else 0)
  pub sizes : length s.read_write + length s.busy ≡ n
  pub connections : (c : ℕ) → count c s.accepted ≡ count c (fds s.busy) + count c s.closed

start_read_write-IsBalanced : (n : ℕ) → IsBalanced n (start_read_write n fresh)
unfolding start_read_write count
start_read_write-IsBalanced zero = record {
  once = λ t. ground arith;
  sizes = refl;
  connections = λ c. refl;
}
start_read_write-IsBalanced (suc n) =
    let ih = start_read_write-IsBalanced n in
    record {
      once = λ t. ground (arith, ih.once t);
      sizes = omega (arith, ih.sizes);
      connections = λ c. ih.connections c;
    }

-- `rest` is `busy` without one task and its connection.
record Taken (task fd : ℕ) (busy rest : List (ℕ × ℕ)) : Type 0 where
  one_less : length busy ≡ suc (length rest)
  without_task :
      (t : ℕ) → count t (tasks busy) ≡ count t (tasks rest) + (if t == task then 1 else 0)
  without_fd : (c : ℕ) → count c (fds busy) ≡ count c (fds rest) + (if c == fd then 1 else 0)

unserve-cases :
    (task : ℕ) (busy : List (ℕ × ℕ))
    → (unserve task busy ≡ none)
      ⊎ ((fd : ℕ) × (rest : List (ℕ × ℕ)) × (unserve task busy ≡ some (fd, rest))
          × Taken task fd busy rest)
unfolding unserve count
unserve-cases task [] = inl refl
unserve-cases task ((t, c) ∷ busy) = elim (Bool-cases (t == task)) [
  | inl e ↦ rw e (
      inr (
        c,
        busy,
        refl,
        record { one_less = refl; without_task = λ k. ground arith; without_fd = λ k. omega arith },
      ))
  | inr e ↦ rw e (elim (unserve-cases task busy) [
    | inl eq ↦ inl (ap (behind (t, c)) eq)
    | inr (fd, rest, eq, taken) ↦ inr (
      fd,
      (t, c) ∷ rest,
      ap (behind (t, c)) eq,
      record {
        one_less = omega (arith, taken.one_less);
        without_task = λ k. ground (arith, taken.without_task k);
        without_fd = λ k. ground (arith, taken.without_fd k);
      },
    )
  ])
]

accept_round_none : (s : TcpServer) (fd : Option ℕ) → s.read_write ≡ [] → accept_round fd s ≡ some s
unfolding accept_round
accept_round_none s fd e = ground arith

accept_round_idle :
    (s : TcpServer) (t : ℕ) (ts : List ℕ) → s.read_write ≡ t ∷ ts → accept_round none s ≡ some s
unfolding accept_round
accept_round_idle s t ts e = ground arith

accept_round_task :
    (s : TcpServer) (c t : ℕ) (ts : List ℕ)
    → s.read_write ≡ t ∷ ts
    → accept_round (some c) s
      ≡ some (record {
        read_write = ts;
        busy = (t, c) ∷ s.busy;
        accepted = c ∷ s.accepted;
        closed = s.closed;
      })
unfolding accept_round
accept_round_task s c t ts e = ground arith

hand_over-IsBalanced :
    (n c : ℕ) (s : TcpServer) (t : ℕ) (ts : List ℕ)
    → s.read_write ≡ t ∷ ts
    → IsBalanced n s
    → IsBalanced n (record {
      read_write = ts;
      busy = (t, c) ∷ s.busy;
      accepted = c ∷ s.accepted;
      closed = s.closed;
    })
unfolding count
hand_over-IsBalanced n c s t ts e b = record {
  once = λ k. ground (arith, b.once k, ap (count k) e);
  sizes = omega (arith, b.sizes, ap length e);
  connections = λ k. ground (arith, b.connections k);
}

accept_round-IsBalanced :
    (n : ℕ) (fd : Option ℕ) (s : TcpServer)
    → IsBalanced n s
    → (u : TcpServer) × (accept_round fd s ≡ some u) × IsBalanced n u
accept_round-IsBalanced n fd s b = by_pool s.read_write fd refl
  where
    by_pool :
        (ts : List ℕ) (fd : Option ℕ)
        → s.read_write ≡ ts
        → (u : TcpServer) × (accept_round fd s ≡ some u) × IsBalanced n u
    by_pool [] fd e = (s, accept_round_none s fd e, b)
    by_pool (t ∷ ts) none e = (s, accept_round_idle s t ts e, b)
    by_pool (t ∷ ts) (some c) e =
        (_, accept_round_task s c t ts e, hand_over-IsBalanced n c s t ts e b)

serve_round-IsBalanced :
    (n task : ℕ) (failed : Bool) (s : TcpServer)
    → IsBalanced n s
    → IsBalanced n (serve_round task failed s)
unfolding serve_round count
serve_round-IsBalanced n task failed s b = elim (unserve-cases task s.busy) [
  | inl e ↦ rw (e, serve_round) b
  | inr (fd, rest, e, taken) ↦ elim (Bool-cases failed) [
    | inr f ↦ rw (e, f, serve_round) b
    | inl f ↦
        rw (e, f, serve_round)
          (record {
            once = λ k. ground (arith, b.once k, taken.without_task k);
            sizes = omega (arith, b.sizes, taken.one_less);
            connections = λ k. ground (arith, b.connections k, taken.without_fd k);
          })
  ]
]

step-IsBalanced :
    (n : ℕ) (e : Event) (s : TcpServer)
    → IsBalanced n s
    → (u : TcpServer) × (step e s ≡ some u) × IsBalanced n u
unfolding step
step-IsBalanced n (Event.accept fd) s b = accept_round-IsBalanced n fd s b
step-IsBalanced n (Event.serve task read_ret write_ret again) s b =
    (_, refl, serve_round-IsBalanced n task (handle read_ret write_ret again) s b)

run_from-IsBalanced :
    (n : ℕ) (es : List Event) (s : TcpServer)
    → IsBalanced n s
    → (u : TcpServer) × (run es s ≡ some u) × IsBalanced n u
unfolding run
run_from-IsBalanced n [] s b = (s, refl, b)
run_from-IsBalanced n (e ∷ es) s b =
    let (t, eq, c) = step-IsBalanced n e s b in
    let (u, eq', d) = run_from-IsBalanced n es t c in
    (u, ap (λ (o : Option TcpServer). elim o [ none ↦ none | some x ↦ run es x ]) eq ∙ eq', d)

-- Whatever is accepted, read and written, and in whatever order the coroutines run, a server of `n`
-- tasks never takes a task from an empty pool; each of its tasks is in the pool or serves one
-- connection, so there are at most `n` connections at a time; and each connection accepted is being
-- served or was closed, exactly as often as it was accepted.
pub run-IsBalanced :
    (n : ℕ) (es : List Event)
    → (u : TcpServer) × (run es (start_read_write n fresh) ≡ some u) × IsBalanced n u
run-IsBalanced n es =
    run_from-IsBalanced n es (start_read_write n fresh) (start_read_write-IsBalanced n)
