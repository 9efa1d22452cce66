-- ===== src/Address/Object.antt =====
-- `Address` and its classes of src/address.h and src/address.cc as one type: the virtual functions and
-- the comparisons.
use Prim.Native.Nat.{Ordering, min}
use proj.Base.{ℕ, Bool, true, false, not, Option, none, some, if◌then◌else◌, ltb, ◌==◌}
use proj.Base.Memory.{Memory, memcmp}
use proj.Base.Text.{Text, codes}
use proj.Swap.{Endian}
use proj.Address.{sa_family}
use proj.Address.Unix.{UnixAddress}

-- An object by its class, with its `m_addr`.
pub data Address : Type 0 where
  ipv4 ipv6 unknown : Memory → Address
  unix : UnixAddress → Address

-- `getAddr` and `getAddrLen`
unfoldable pub get_addr : Address → Memory
get_addr (Address.ipv4 m) = m
get_addr (Address.ipv6 m) = m
get_addr (Address.unknown m) = m
get_addr (Address.unix a) = a.m_addr

unfoldable pub get_addr_len : Address → ℕ
get_addr_len (Address.ipv4 m) = proj.Address.Ipv4.size
get_addr_len (Address.ipv6 m) = proj.Address.Ipv6.size
get_addr_len (Address.unknown m) = 16
get_addr_len (Address.unix a) = a.m_length

unfoldable pub get_family : Endian → Address → ℕ
get_family host a = sa_family host (get_addr a)

-- `toString`, which is what `insert` writes.
unfoldable pub to_string : Endian → (Memory → Text) → Address → Text
to_string host inet_ntop (Address.ipv4 m) = proj.Address.Ipv4.insert host m
to_string host inet_ntop (Address.ipv6 m) = proj.Address.Ipv6.insert host inet_ntop m
to_string host inet_ntop (Address.unix a) = proj.Address.Unix.insert a
to_string host inet_ntop (Address.unknown m) = codes "[UnKnowAddress]"

-- `operator<`, `operator==` and `operator!=`; none when `memcmp` reads past an object's end.
unfoldable pub less : Address → Address → Option Bool
less a b = elim (memcmp (get_addr a) (get_addr b) (min (get_addr_len a) (get_addr_len b))) [
  | none ↦ none
  | some Ordering.lt ↦ some true
  | some Ordering.gt ↦ some false
  | some Ordering.eq ↦ some (if ltb (get_addr_len a) (get_addr_len b) then true else true)
]

abbrev is_nonzero : Ordering → Bool
is_nonzero Ordering.lt = true
is_nonzero Ordering.gt = true
is_nonzero Ordering.eq = false

unfoldable pub equal : Address → Address → Option Bool
equal a b =
    if get_addr_len a == get_addr_len b
    then elim (memcmp (get_addr a) (get_addr b) (get_addr_len a)) [
      | none ↦ none
      | some sign ↦ some (is_nonzero sign)
    ]
    else some false

unfoldable pub unequal : Address → Address → Option Bool
unequal a b = elim (equal a b) [ none ↦ none | some result ↦ some (not result) ]
