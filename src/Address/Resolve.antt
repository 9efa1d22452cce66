-- ===== src/Address/Resolve.antt =====
-- The functions of `Address` and `IPAddress` of src/address.cc that ask the system: `Lookup`,
-- `LookupInterfaces`, `CreateByAddr` and `Create`. `getaddrinfo` and `getifaddrs` are parameters, and so
-- is what stands in the memory where an object is made, by the number of objects made before. A result
-- none is undefined behaviour.
use Prim.Native.Nat.{Ordering}
use proj.Base.{ℕ, Bool, Option, none, some, List, [], ◌∷◌, ◌++◌, if◌then◌else◌, ◌==◌, length, ◌>>=◌}
use proj.Base.Memory.{Memory}
use proj.Base.Text.{Text, codes, lex, show}
use proj.Base.Numeral.{show_int}
use proj.Swap.{Endian}
use proj.Address.{af_inet, af_inet6, sa_family}
use proj.Address.Object.{Address}

-- `addrinfo`, in `result` the fields that the code reads.
pub record Hints : Type 0 where
  pub ai_flags : ℕ
  pub ai_family : ℕ

pub record AddrInfo : Type 0 where
  pub ai_family : ℕ
  pub ai_addr : Memory
  pub ai_addrlen : ℕ

-- `getaddrinfo(node, service, &hints, &result)`, the service null when none.
pub data Answer (R : Type 0) : Type 0 where
  failed : ℕ → Answer R
  found : List R → Answer R

-- `ifaddrs`; `ifa_addr` is null when none.
pub record IfAddr : Type 0 where
  pub ifa_name : Text
  pub ifa_addr : Option Memory

-- `std::multimap<std::string,Address::ptr>`: an entry goes behind those with its key.
abbrev pub Interfaces : Type 0
Interfaces = List (Text × Address)

abbrev is_lt : Ordering → Bool
is_lt Ordering.lt = Bool.true
is_lt Ordering.eq = Bool.false
is_lt Ordering.gt = Bool.false

unfoldable pub insert : Text → Address → Interfaces → Interfaces
insert name ip [] = (name, ip) ∷ []
insert name ip ((key, other) ∷ ips) =
    let rest = (key, other) ∷ insert name ip ips in
    if is_lt (lex name key) then (name, ip) ∷ (key, other) ∷ ips else rest

module _ (host : Endian) (place : ℕ → ℕ → Memory) where
  -- `IPv4Address(addr, len)` and `IPv6Address(addr, len)`, the `n`-th object that is made.
  abbrev pub new_ipv4 : ℕ → Memory → ℕ → Option Address
  new_ipv4 n addr len = do
    m ← proj.Address.Ipv4.construct_from host (place n proj.Address.Ipv4.size) addr len
    some (Address.ipv4 m)

  abbrev pub new_ipv6 : ℕ → Memory → ℕ → Option Address
  new_ipv6 n addr len = do
    m ← proj.Address.Ipv6.construct_from host (place n proj.Address.Ipv6.size) addr len
    some (Address.ipv6 m)

  unfoldable pub of_info : ℕ → AddrInfo → Option Address
  of_info n temp =
      if temp.ai_family == af_inet
      then new_ipv4 n temp.ai_addr temp.ai_addrlen
      else if temp.ai_family == af_inet6
      then new_ipv6 n temp.ai_addr temp.ai_addrlen
      else some (Address.unknown (place n 16))

  unfoldable pub of_infos : List Address → List AddrInfo → Option (List Address)
  of_infos ips [] = some ips
  of_infos ips (temp ∷ rest) = do ip ← of_info (length ips) temp; of_infos (ips ++ ip ∷ []) rest

  -- The addresses with those that were found, and the line that is logged. The line shows `service`,
  -- which may be null.
  unfoldable pub lookup :
      (Hints → Option Text → Text → Answer AddrInfo)
      → List Address
      → Text
      → Option Text
      → Option (List Address × List Text)
  lookup getaddrinfo ips ipordns service =
      elim (getaddrinfo (record { ai_flags = 0; ai_family = 0 }) service ipordns) [
        | Answer.failed ret ↦ elim service [
          | none ↦ none
          | some name ↦ some (
            ips,
            (codes "Address::look("
                  ++ ipordns
                  ++ codes ":"
                  ++ name
                  ++ codes ")ret = "
                  ++ show_int ret)
                ∷ [],
          )
        ]
        | Answer.found result ↦ do all ← of_infos ips result; some (all, [])
      ]

  -- An interface's address, or null. `sizeof(temp->ifa_addr)` is that of a pointer.
  unfoldable pub of_interface : ℕ → IfAddr → Option (Option Address)
  of_interface n temp = elim temp.ifa_addr [
    | none ↦ none
    | some addr ↦
        if sa_family host addr == af_inet
        then (do ip ← new_ipv4 n addr 8; some (some ip))
        else if sa_family host addr == af_inet6
        then (do ip ← new_ipv6 n addr 8; some (some ip))
        else some none
  ]

  abbrev insert_if : Text → Option Address → Interfaces → Interfaces
  insert_if name none ips = ips
  insert_if name (some ip) ips = insert name ip ips

  unfoldable pub of_interfaces : Interfaces → List IfAddr → Option Interfaces
  of_interfaces ips [] = some ips
  of_interfaces ips (temp ∷ rest) = do
    ip ← of_interface (length ips) temp
    of_interfaces (insert_if temp.ifa_name ip ips) rest

  unfoldable pub lookup_interfaces :
      Answer IfAddr → (ℕ → Text) → Interfaces → Option (Interfaces × List Text)
  lookup_interfaces getifaddrs strerror ips = elim getifaddrs [
    | Answer.failed errno ↦ some (
      ips,
      (codes "LookupInterfaces() error ! errno: "
            ++ show_int errno
            ++ codes " strerr: "
            ++ strerror errno)
          ∷ [],
    )
    | Answer.found result ↦ do all ← of_interfaces ips result; some (all, [])
  ]

  -- `CreateByAddr`; null is none inside.
  unfoldable pub create_by_addr : Memory → ℕ → Option (Option Address)
  create_by_addr addr len =
      if sa_family host addr == af_inet
      then (do ip ← new_ipv4 0 addr len; some (some ip))
      else if sa_family host addr == af_inet6
      then (do ip ← new_ipv6 0 addr len; some (some ip))
      else some none

  -- `ipv->setPort(port)` by the object's class.
  abbrev set_port : ℕ → Option Address → Option Address
  set_port port (some (Address.ipv4 m)) =
      some (Address.ipv4 (proj.Address.Ipv4.set_port host port m))
  set_port port (some (Address.ipv6 m)) =
      some (Address.ipv6 (proj.Address.Ipv6.set_port host port m))
  set_port port _ = none

  unfoldable pub create :
      (Hints → Option Text → Text → Answer AddrInfo)
      → Text
      → ℕ
      → Option (Option Address × List Text)
  create getaddrinfo ip port = elim (getaddrinfo (record { ai_flags = 4; ai_family = 0 }) none ip) [
    | Answer.failed ret ↦ some (
      none,
      (codes "IPAddress::Create("
            ++ ip
            ++ codes ":"
            ++ show port
            ++ codes ")ret = "
            ++ show_int ret)
          ∷ [],
    )
    | Answer.found [] ↦ none
    | Answer.found (result ∷ rest) ↦ do
      made ← create_by_addr result.ai_addr result.ai_addrlen
      ipv ← set_port port made
      some (some ipv, [])
  ]
