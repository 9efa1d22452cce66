-- ===== src/Server/Setup.antt =====
-- The configuration "tcp.address" of src/tcpServer.cc, and `TcpServer::start`.
use proj.Base.{ℕ, Option, none, some, List, [], ◌∷◌, ◌++◌, if◌then◌else◌, ◌>>=◌}
use proj.Base.Text.{Text, codes, is_empty, show}
use proj.Config.{Node, Entries, lookup, load_from_yaml}
use proj.Config as Config
use proj.Config.Cast.{vector_of_string}
use proj.Config.Yaml.{Yaml}
use proj.Server.{AddrInfo, TcpServer, start_read_write, fresh}
use proj.Server.Listen.{Listening}

-- `AddrInfo::toString`
unfoldable pub to_string : AddrInfo → Text
to_string it =
    (if is_empty it.ip then [] else codes "[" ++ it.ip ++ codes "]:" ++ show it.port)
    ++ (if is_empty it.unix then [] else it.unix)

module _ {N : Type 0} (yaml : Yaml N) where
  -- A field that is set where the key is defined, and keeps its value where it is not.
  abbrev text_at : N → Text → Option Text
  text_at node key = yaml.at node key >>= λ found. elim found [
    | none ↦ some []
    | some value ↦ yaml.as_string value
  ]

  abbrev port_at : N → Option ℕ
  port_at node = yaml.at node (codes "port") >>= λ found. elim found [
    | none ↦ some 0
    | some value ↦ yaml.as_uint16 value
  ]

  -- `LexicalCast<std::string,AddrInfo>`, none where it throws.
  unfoldable pub addr_info_of_string : Text → Option AddrInfo
  addr_info_of_string str = yaml.load str >>= λ node. text_at node (codes "ip") >>= λ ip.
      port_at node >>= λ port.
      text_at node (codes "unix") >>= λ unix. some (record { ip = ip; port = port; unix = unix })

-- `LexicalCast<AddrInfo,std::string>`; `dump` is what `<<` of a node prints, and a node that nothing
-- was assigned to is null.
unfoldable pub addr_info_to_string : (dump : Node → Text) → AddrInfo → Text
addr_info_to_string dump addr =
    let unix : Entries =
      if is_empty addr.unix
      then Entries.no_entry
      else Entries.entry (codes "unix") (Node.scalar addr.unix) Entries.no_entry in
    let fields : Entries =
      if is_empty addr.ip
      then unix
      else Entries.entry (codes "ip") (Node.scalar addr.ip)
          (Entries.entry (codes "port") (Node.scalar (show addr.port)) unix) in
    dump (elim fields [
      | Entries.no_entry ↦ Node.null
      | Entries.entry key value es ↦ Node.map (Entries.entry key value es)
    ])

-- `g_ip_info` with the file that `IpInfoIniter` loads: the addresses that `init` reads. The variables,
-- of all types, hold a list of addresses by `inject` and `project`.
module _ {N V : Type 0} (yaml : Yaml N) (items_of : Text → Option (List Text)) (dump : Node → Text)
    (load_file : Text → Option Node) (inject : List AddrInfo → V)
    (project : V → List AddrInfo) where
  unfoldable pub configured : Config.Store V → Config.Store V × List AddrInfo
  configured config =
      let of_string = λ (str : Text).
        vector_of_string items_of (addr_info_of_string yaml) str >>= λ infos. some (inject infos) in
      let made =
        lookup (codes "tcp.address") (inject []) (codes "server bind ip or unixaddr") of_string
          config in
      let loaded = (load_from_yaml dump load_file (codes "./config/yaml/addr.yml") made.1).1 in
      (loaded, project (loaded.vars made.0).val)

-- `startAccept`: a coroutine in `accept_routine` behind those that are, by their descriptors.
unfoldable pub start_accept : ℕ → List ℕ → List ℕ
start_accept fd accepting = accepting ++ fd ∷ []

-- The loop of `start`.
unfoldable pub start_accepts : List ℕ → List ℕ → List ℕ
start_accepts [] accepting = accepting
start_accepts (fd ∷ fds) accepting = start_accepts fds (start_accept fd accepting)

-- `start`, by what `init` left: the server with its tasks, and the accepting coroutines; none where the
-- flag has no value.
unfoldable pub start : ℕ → Listening → Option (Option (TcpServer × List ℕ))
start ant l = elim l.flag [
  | none ↦ none
  | some flag ↦
      some (if flag then some (start_read_write ant fresh, start_accepts l.listen_fd []) else none)
]
