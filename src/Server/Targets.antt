-- ===== src/Server/Targets.antt =====
-- The sockets that `init` of src/tcpServer.cc makes for a list of addresses, one behind the other.
use proj.Base.{
  ℕ, ◌+◌, ◌≡◌, refl, sym, ap, ◌∙◌, Bool, true, false, not, ◌&&◌, Option, none, some, List, [], ◌∷◌,
  ◌++◌, map, concat, append_assoc, ◌==◌, if◌then◌else◌,
}
use proj.Base.Memory.{Memory}
use proj.Base.Text.{Text, is_empty, c_str}
use proj.Swap.{Endian}
use proj.Address.Ipv4 as Ipv4
use proj.Address.Ipv4.{Pton}
use proj.Address.Unix as Unix
use proj.Server.{AddrInfo}
use proj.Server.Bind.{Answers, bind}
use proj.Server.Listen.{
  Outcome, and_then, System, Listening, bind_ptr, cs_by_ip, cs_by_unix_addr, listen_on, init,
  init_unix,
}

-- The sockets that a list of addresses asks for: for each the IP with a port, and then the path.
pub data Target : Type 0 where
  by_ip : Text → ℕ → Target
  by_path : Text → Target

abbrev pub targets_of : AddrInfo → List Target
targets_of it =
    (if not (is_empty it.ip) && not (it.port == 0) then Target.by_ip it.ip it.port ∷ [] else [])
    ++ (if not (is_empty it.unix) then Target.by_path it.unix ∷ [] else [])

abbrev pub targets : List AddrInfo → List Target
targets infos = concat (map targets_of infos)

and_then-cong :
    {A B : Type 0} (o : Outcome A) (f g : A → Outcome B)
    → ((a : A) → f a ≡ g a)
    → and_then o f ≡ and_then o g
and_then-cong (Outcome.done a) f g h = h a
and_then-cong Outcome.threw f g h = refl
and_then-cong Outcome.aborted f g h = refl

module _ (host : Endian) (inet_pton : Text → Pton) (answers : ℕ → Memory → Answers) where
  -- The bytes of a target's address: a path that is too long throws, and a text for which `inet_pton`
  -- returns -1 ends the program.
  abbrev pub address : Target → Outcome Memory
  address (Target.by_ip ip port) = elim (Ipv4.create host inet_pton (c_str ip) port).0 [
    | none ↦ Outcome.aborted
    | some addr ↦ Outcome.done addr
  ]
  address (Target.by_path path) = elim (Unix.construct host path) [
    | none ↦ Outcome.threw
    | some addr ↦ Outcome.done addr.m_addr
  ]

  -- Those of all, in order, up to the first that has none.
  unfoldable pub addresses : List Target → Outcome (List Memory)
  addresses [] = Outcome.done []
  addresses (t ∷ ts) =
      and_then (address t) λ addr. and_then (addresses ts) λ addrs. Outcome.done (addr ∷ addrs)

  -- One target, as `init` does it.
  abbrev pub gone : Target → System → System
  gone (Target.by_ip ip port) s = s
  gone (Target.by_path path) s = record s { removed = s.removed ++ c_str path ∷ [] }

  abbrev pub hear : Target → Memory → Listening → Listening
  hear t addr l =
      let s = gone t l.system in
      let r = bind (answers s.binds addr) s.open_fds in
      listen_on l (r.0, record s { open_fds = r.1; binds = s.binds + 1 })

  unfoldable pub run : List Target → Listening → Outcome Listening
  run [] l = Outcome.done l
  run (t ∷ ts) l = and_then (address t) λ addr. run ts (hear t addr l)

  init_ip-run :
      (b : Bool) (ip : Text) (port : ℕ) (l : Listening)
      → (if b
          then and_then
              (cs_by_ip host inet_pton answers ip port l.system)
              (λ r. Outcome.done (listen_on l r))
          else Outcome.done l)
        ≡ run (if b then Target.by_ip ip port ∷ [] else []) l
  unfolding run cs_by_ip bind_ptr
  init_ip-run false ip port l = refl
  init_ip-run true ip port l = by_pointer (Ipv4.create host inet_pton (c_str ip) port).0
    where
      by_pointer :
          (o : Option Memory)
          → and_then
              (bind_ptr host inet_pton answers o l.system)
              (λ r. Outcome.done (listen_on l r))
            ≡ and_then
                (elim o [ none ↦ Outcome.aborted | some addr ↦ Outcome.done addr ])
                (λ addr. Outcome.done (hear (Target.by_ip ip port) addr l))
      by_pointer none = refl
      by_pointer (some addr) = refl

  init_unix-run :
      (b : Bool) (path : Text) (l : Listening)
      → (if b
          then and_then
              (cs_by_unix_addr host inet_pton answers path l.system)
              (λ r. Outcome.done (listen_on l r))
          else Outcome.done l)
        ≡ run (if b then Target.by_path path ∷ [] else []) l
  unfolding run cs_by_unix_addr bind_ptr
  init_unix-run false path l = refl
  init_unix-run true path l = by_object (Unix.construct host path)
    where
      by_object :
          (o : Option Unix.UnixAddress)
          → and_then
              (elim o [
                | none ↦ Outcome.threw
                | some addr ↦
                    bind_ptr host inet_pton answers
                      (some addr.m_addr)
                      (gone (Target.by_path path) l.system)
              ])
              (λ r. Outcome.done (listen_on l r))
            ≡ and_then
                (elim o [ none ↦ Outcome.threw | some addr ↦ Outcome.done addr.m_addr ])
                (λ addr. Outcome.done (hear (Target.by_path path) addr l))
      by_object none = refl
      by_object (some addr) = refl

  run-append :
      (xs ys : List Target) (l : Listening) → run (xs ++ ys) l ≡ and_then (run xs l) (λ k. run ys k)
  unfolding run
  run-append [] ys l = refl
  run-append (t ∷ xs) ys l = by_address (address t) (λ addr. run-append xs ys (hear t addr l))
    where
      by_address :
          (o : Outcome Memory)
          → ((addr : Memory)
              → run (xs ++ ys) (hear t addr l) ≡ and_then (run xs (hear t addr l)) (λ k. run ys k))
          → and_then o (λ addr. run (xs ++ ys) (hear t addr l))
            ≡ and_then (and_then o (λ addr. run xs (hear t addr l))) (λ k. run ys k)
      by_address (Outcome.done addr) rest = rest addr
      by_address Outcome.threw rest = refl
      by_address Outcome.aborted rest = refl

  pub init-run :
      (infos : List AddrInfo) (l : Listening)
      → init host inet_pton answers infos l ≡ run (targets infos) l
  unfolding init run
  init-run [] l = refl
  init-run (it ∷ infos) l =
      let with_ip = not (is_empty it.ip) && not (it.port == 0) in
      let with_path = not (is_empty it.unix) in
      let ips : List Target = if with_ip then Target.by_ip it.ip it.port ∷ [] else [] in
      let paths : List Target = if with_path then Target.by_path it.unix ∷ [] else [] in
      ap
        (λ o. and_then o λ k.
          and_then (init_unix host inet_pton answers it k) λ m. init host inet_pton answers infos m)
        (init_ip-run with_ip it.ip it.port l)
      ∙ and_then-cong (run ips l)
          (λ k.
            and_then (init_unix host inet_pton answers it k)
              (λ m. init host inet_pton answers infos m))
          (λ k. run (paths ++ targets infos) k)
          (λ k.
            ap (λ o. and_then o (λ m. init host inet_pton answers infos m))
              (init_unix-run with_path it.unix k)
            ∙ and_then-cong (run paths k) (λ m. init host inet_pton answers infos m)
                (λ m. run (targets infos) m) (λ m. init-run infos m)
            ∙ sym (run-append paths (targets infos) k))
      ∙ sym (run-append ips (paths ++ targets infos) l)
      ∙ ap (λ ts. run ts l) (sym (append_assoc ips paths (targets infos)))
