-- ===== src/Server/Listen.antt =====
-- The listening sockets of src/tcpServer.cc: `CSByIP`, `CSByUnixAddr` and `init`, by what the system
-- answers to the calls of a round of `bind` for an address.
use proj.Base.{
  ℕ, ◌+◌, Bool, true, not, ◌&&◌, Option, none, some, List, [], ◌∷◌, ◌++◌, ◌==◌, if◌then◌else◌,
}
use proj.Base.Memory.{Memory}
use proj.Base.Text.{Text, is_empty, c_str}
use proj.Swap.{Endian}
use proj.Address.Ipv4 as Ipv4
use proj.Address.Ipv4.{Pton}
use proj.Address.Unix as Unix
use proj.Server.{AddrInfo}
use proj.Server.Bind.{Answers, bind}

-- How a call ends: it returns, it throws, as the constructor of `UnixAddress` does, or `assert` ends the
-- program, as in `bind` of a null address.
pub data Outcome (A : Type 0) : Type 0 where
  done : A → Outcome A
  threw aborted : Outcome A

abbrev pub and_then : {A B : Type 0} → Outcome A → (A → Outcome B) → Outcome B
and_then (Outcome.done a) f = f a
and_then Outcome.threw f = Outcome.threw
and_then Outcome.aborted f = Outcome.aborted

-- The open descriptors, the paths that were given to `remove`, and how often `bind` was called.
pub record System : Type 0 where
  pub open_fds : List ℕ
  pub removed : List Text
  pub binds : ℕ

-- `m_listenFd`, `m_flag`, none where it has no value, and the system.
pub record Listening : Type 0 where
  pub listen_fd : List ℕ
  pub flag : Option Bool
  pub system : System

-- `m_listenFd.push_back(fd); m_flag = true;` where the descriptor is not -1.
unfoldable pub listen_on : Listening → Option ℕ × System → Listening
listen_on l (none, s) = record l { system = s }
listen_on l (some fd, s) = record {
  listen_fd = l.listen_fd ++ fd ∷ [];
  flag = some true;
  system = s;
}

module _ (host : Endian) (inet_pton : Text → Pton) (answers : ℕ → Memory → Answers) where
  -- `bind`, of a pointer.
  unfoldable pub bind_ptr : Option Memory → System → Outcome (Option ℕ × System)
  bind_ptr none s = Outcome.aborted
  bind_ptr (some addr) s =
      let r = bind (answers s.binds addr) s.open_fds in
      Outcome.done (r.0, record s { open_fds = r.1; binds = s.binds + 1 })

  -- `CSByIP`: `checkIP` returns 0 for every address.
  unfoldable pub cs_by_ip : Text → ℕ → System → Outcome (Option ℕ × System)
  cs_by_ip ip port s = bind_ptr (Ipv4.create host inet_pton (c_str ip) port).0 s

  -- `CSByUnixAddr`: `checkUnix` returns 0 for every path.
  unfoldable pub cs_by_unix_addr : Text → System → Outcome (Option ℕ × System)
  cs_by_unix_addr path s =
      let gone : System = record s { removed = s.removed ++ c_str path ∷ [] } in
      elim (Unix.construct host path) [
        | none ↦ Outcome.threw
        | some addr ↦ bind_ptr (some addr.m_addr) gone
      ]

  -- One round of the loop of `init`, by its two parts.
  abbrev pub init_ip : AddrInfo → Listening → Outcome Listening
  init_ip it l =
      if not (is_empty it.ip) && not (it.port == 0)
      then and_then (cs_by_ip it.ip it.port l.system) (λ r. Outcome.done (listen_on l r))
      else Outcome.done l

  abbrev pub init_unix : AddrInfo → Listening → Outcome Listening
  init_unix it l =
      if not (is_empty it.unix)
      then and_then (cs_by_unix_addr it.unix l.system) (λ r. Outcome.done (listen_on l r))
      else Outcome.done l

  -- `init`
  unfoldable pub init : List AddrInfo → Listening → Outcome Listening
  init [] l = Outcome.done l
  init (it ∷ info) l =
      and_then (init_ip it l) λ by_ip. and_then (init_unix it by_ip) λ by_unix. init info by_unix
