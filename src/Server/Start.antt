-- ===== src/Server/Start.antt =====
-- What `init` and then `start` of src/tcpServer.cc do with a list of addresses.
use proj.Base.{
  ℕ, ◌+◌, ◌≡◌, refl, sym, ap, ap₂, ◌∙◌, ◌⊎◌, inl, inr, Bool, true, false, Option, none, some, List,
  [], ◌∷◌, ◌++◌, append_assoc, append-nil, if◌then◌else◌, arith,
}
use mathlib.Core.Path.{subst}
use proj.Base.Memory.{Memory}
use proj.Base.Text.{Text, c_str}
use proj.Swap.{Endian}
use proj.Address.Ipv4.{Pton}
use proj.Server.{AddrInfo, TcpServer, start_read_write, fresh}
use proj.Server.Bind.{Answers, bind, succeeds, bind_lem}
use proj.Server.Listen.{Outcome, and_then, System, Listening, listen_on, init}
use proj.Server.Setup.{start_accept, start_accepts, start}
use proj.Server.Targets.{targets, address, addresses, hear, run, init-run, Target}

start_accepts-append : (fds accepting : List ℕ) → start_accepts fds accepting ≡ accepting ++ fds
unfolding start_accepts start_accept
start_accepts-append [] accepting = sym (append-nil accepting)
start_accepts-append (fd ∷ fds) accepting =
    start_accepts-append fds (accepting ++ fd ∷ []) ∙ append_assoc accepting (fd ∷ []) fds

-- The descriptor of a socket that is made and listens.
abbrev pub opened : Answers → List ℕ
opened a = elim a.socket [ none ↦ [] | some fd ↦ if succeeds a then fd ∷ [] else [] ]

-- The flag for some descriptors, on top of one.
abbrev pub flag_for : List ℕ → Option Bool → Option Bool
flag_for [] old = old
flag_for (fd ∷ fds) old = some true

flag_for-append :
    (xs ys : List ℕ) (old : Option Bool) → flag_for ys (flag_for xs old) ≡ flag_for (xs ++ ys) old
flag_for-append [] ys old = refl
flag_for-append (x ∷ xs) [] old = refl
flag_for-append (x ∷ xs) (y ∷ ys) old = refl

bind-opened :
    (a : Answers) (fds : List ℕ)
    → (((bind a fds).0 ≡ none) × (opened a ≡ []))
      ⊎ ((fd : ℕ) × ((bind a fds).0 ≡ some fd) × (opened a ≡ fd ∷ []))
bind-opened a fds = elim (bind_lem a fds) [
  | inl (e, eq) ↦ inl (ap (λ r. r.0) eq, ground (arith, e))
  | inr (fd, e, inl (works, eq)) ↦ inr (fd, ap (λ r. r.0) eq, rw (e, works) refl)
  | inr (fd, e, inr (fails, eq)) ↦ inl (ap (λ r. r.0) eq, rw (e, fails) refl)
]

module _ (host : Endian) (inet_pton : Text → Pton) (answers : ℕ → Memory → Answers) where
  -- The descriptors of those that listen, where the first is the `k`-th to be bound.
  unfoldable pub listening : ℕ → List Memory → List ℕ
  listening k [] = []
  listening k (addr ∷ addrs) = opened (answers k addr) ++ listening (k + 1) addrs

  -- What binding does to the listening sockets.
  hear_system :
      (t : Target) (addr : Memory) (l : Listening)
      → ((hear host inet_pton answers t addr l).listen_fd
          ≡ l.listen_fd ++ opened (answers l.system.binds addr))
        × ((hear host inet_pton answers t addr l).flag
            ≡ flag_for (opened (answers l.system.binds addr)) l.flag)
        × ((hear host inet_pton answers t addr l).system.binds ≡ l.system.binds + 1)
  unfolding listen_on
  hear_system t addr l = by_target t
    where
      by_result :
          (a : Answers) (fds : List ℕ) (s : System)
          → let m = listen_on l ((bind a fds).0, s) in
            (m.listen_fd ≡ l.listen_fd ++ opened a)
            × (m.flag ≡ flag_for (opened a) l.flag)
            × (m.system ≡ s)
      by_result a fds s = elim (bind-opened a fds) [
        | inl (e, o) ↦ rw (e, o) (sym (append-nil l.listen_fd), refl, refl)
        | inr (fd, e, o) ↦ rw (e, o) (refl, refl, refl)
      ]

      by_target :
          (t : Target)
          → ((hear host inet_pton answers t addr l).listen_fd
              ≡ l.listen_fd ++ opened (answers l.system.binds addr))
            × ((hear host inet_pton answers t addr l).flag
                ≡ flag_for (opened (answers l.system.binds addr)) l.flag)
            × ((hear host inet_pton answers t addr l).system.binds ≡ l.system.binds + 1)
      by_target (Target.by_ip ip port) =
          let a = answers l.system.binds addr in
          let r = by_result a l.system.open_fds (record l.system {
            open_fds = (bind a l.system.open_fds).1;
            binds = l.system.binds + 1;
          }) in
          (r.0, r.1, ap (λ (s : System). s.binds) r.2)
      by_target (Target.by_path path) =
          let a = answers l.system.binds addr in
          let r = by_result a l.system.open_fds (record {
            open_fds = (bind a l.system.open_fds).1;
            removed = l.system.removed ++ c_str path ∷ [];
            binds = l.system.binds + 1;
          }) in
          (r.0, r.1, ap (λ (s : System). s.binds) r.2)

  -- How `init` ends, by the addresses of its targets: as the first of them that has none, or with the
  -- descriptors of those that listen behind the ones that were there.
  abbrev pub Ends : Outcome (List Memory) → Listening → Outcome Listening → Type 0
  Ends Outcome.threw l o = o ≡ Outcome.threw
  Ends Outcome.aborted l o = o ≡ Outcome.aborted
  Ends (Outcome.done addrs) l o =
      (m : Listening) × (o ≡ Outcome.done m)
      × (m.listen_fd ≡ l.listen_fd ++ listening l.system.binds addrs)
      × (m.flag ≡ flag_for (listening l.system.binds addrs) l.flag)

  run-Ends :
      (ts : List Target) (l : Listening)
      → Ends (addresses host inet_pton answers ts) l (run host inet_pton answers ts l)
  unfolding run addresses listening
  run-Ends [] l = (l, refl, sym (append-nil l.listen_fd), refl)
  run-Ends (t ∷ ts) l =
      by_address (address host inet_pton answers t)
        (λ addr. run-Ends ts (hear host inet_pton answers t addr l))
    where
      by_rest :
          (addr : Memory) (q : Outcome (List Memory)) (o : Outcome Listening)
          → Ends q (hear host inet_pton answers t addr l) o
          → Ends (and_then q (λ addrs. Outcome.done (addr ∷ addrs))) l o
      by_rest addr Outcome.threw o h = h
      by_rest addr Outcome.aborted o h = h
      by_rest addr (Outcome.done addrs) o (m, e, fds, flag) =
          let h = hear_system t addr l in
          let here = opened (answers l.system.binds addr) in
          (
            m,
            e,
            fds
                ∙ ap₂ (λ xs k. xs ++ listening k addrs) h.0 h.2
                ∙ append_assoc l.listen_fd here (listening (l.system.binds + 1) addrs),
            flag
                ∙ ap₂ (λ f k. flag_for (listening k addrs) f) h.1 h.2
                ∙ flag_for-append here (listening (l.system.binds + 1) addrs) l.flag,
          )

      by_address :
          (o : Outcome Memory)
          → ((addr : Memory)
              → Ends
                  (addresses host inet_pton answers ts)
                  (hear host inet_pton answers t addr l)
                  (run host inet_pton answers ts (hear host inet_pton answers t addr l)))
          → Ends
              (and_then o λ addr.
                and_then (addresses host inet_pton answers ts) λ addrs. Outcome.done (addr ∷ addrs))
              l
              (and_then o
                λ addr. run host inet_pton answers ts (hear host inet_pton answers t addr l))
      by_address (Outcome.done addr) ih =
          by_rest addr (addresses host inet_pton answers ts)
            (run host inet_pton answers ts (hear host inet_pton answers t addr l)) (ih addr)
      by_address Outcome.threw ih = refl
      by_address Outcome.aborted ih = refl

  -- What `start` does where `m_flag` has a value or none and some sockets listen: with no socket it
  -- goes by the value that was there.
  abbrev pub started : ℕ → Option Bool → List ℕ → Option (Option (TcpServer × List ℕ))
  started ant none [] = none
  started ant (some false) [] = some none
  started ant (some true) [] = some (some (start_read_write ant fresh, []))
  started ant old (fd ∷ fds) = some (some (start_read_write ant fresh, fd ∷ fds))

  -- How `init` and then `start` end.
  abbrev pub Starts : ℕ → Outcome (List Memory) → Listening → Outcome Listening → Type 0
  Starts ant Outcome.threw l o = o ≡ Outcome.threw
  Starts ant Outcome.aborted l o = o ≡ Outcome.aborted
  Starts ant (Outcome.done addrs) l o =
      (m : Listening) × (o ≡ Outcome.done m)
      × (start ant m ≡ started ant l.flag (listening l.system.binds addrs))

  abbrev start_by : ℕ → Option Bool → List ℕ → Option (Option (TcpServer × List ℕ))
  start_by ant flag fds = elim flag [
    | none ↦ none
    | some b ↦ some (if b then some (start_read_write ant fresh, start_accepts fds []) else none)
  ]

  start_by-started :
      (ant : ℕ) (old : Option Bool) (xs : List ℕ)
      → start_by ant (flag_for xs old) xs ≡ started ant old xs
  start_by-started ant none [] = refl
  start_by-started ant (some false) [] = refl
  start_by-started ant (some true) [] =
      ap (λ fds. some (some (start_read_write ant fresh, fds))) (start_accepts-append [] [])
  start_by-started ant old (fd ∷ fds) =
      ap (λ xs. some (some (start_read_write ant fresh, xs))) (start_accepts-append (fd ∷ fds) [])

  start_fds :
      (ant : ℕ) (old : Option Bool) (xs : List ℕ) (m : Listening)
      → m.listen_fd ≡ xs
      → m.flag ≡ flag_for xs old
      → start ant m ≡ started ant old xs
  unfolding start
  start_fds ant old xs m e f = ap₂ (λ g fds. start_by ant g fds) f e ∙ start_by-started ant old xs

  -- `init` and then `start`, on a server that listens to nothing: where the addresses of the
  -- configuration, in their order and of one address first the IP with a port and then the path, have
  -- one that cannot be made, `init` ends as the first such does: it throws where the constructor of
  -- `UnixAddress` throws, and `assert` fails where `IPv4Address::Create` returns null. Otherwise the
  -- server makes its tasks and an accepting coroutine for each socket that listens, in that order; and
  -- where none listens `start` goes by what `m_flag` held before, which for one without a value is
  -- undefined.
  pub start-init :
      (ant : ℕ) (infos : List AddrInfo) (l : Listening)
      → l.listen_fd ≡ []
      → Starts ant
          (addresses host inet_pton answers (targets infos))
          l
          (init host inet_pton answers infos l)
  start-init ant infos l none_yet =
      subst (λ o. Starts ant (addresses host inet_pton answers (targets infos)) l o)
        (sym (init-run host inet_pton answers infos l))
        (by_end (addresses host inet_pton answers (targets infos))
          (run host inet_pton answers (targets infos) l) (run-Ends (targets infos) l))
    where
      by_end : (q : Outcome (List Memory)) (o : Outcome Listening) → Ends q l o → Starts ant q l o
      by_end Outcome.threw o h = h
      by_end Outcome.aborted o h = h
      by_end (Outcome.done addrs) o (m, e, fds, flag) = (
        m,
        e,
        start_fds ant l.flag (listening l.system.binds addrs) m
            (fds ∙ ap (λ xs. xs ++ listening l.system.binds addrs) none_yet) flag,
      )
