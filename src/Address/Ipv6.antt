-- ===== src/Address/Ipv6.antt =====
-- `IPv6Address` of src/address.h and src/address.cc, by the bytes of its `sockaddr_in6`: the family in
-- two bytes, the port in two, the flow information in four, the address in sixteen, the scope in four.
use Prim.Native.Nat.{bit_or, bit_and}
use proj.Base.{
  ℕ, zero, suc, ◌+◌, ◌-◌, ◌/◌, ◌%◌, ◌*◌, ◌^◌, Option, none, some, List, [], ◌∷◌, ◌++◌,
  if◌then◌else◌, ltb, replicate,
}
use proj.Base.Memory.{Memory, peek, poke, memcpy}
use proj.Base.Text.{Text, codes, show}
use proj.Swap.{Endian, image, value}
use proj.Address.{af_inet6, Made, get_network, set_network}
use proj.Address.Ipv4.{Pton}

-- `sizeof(sockaddr_in6)`
abbrev pub size : ℕ
size = 28

-- `IPv6Address()`
unfoldable pub empty : Memory
empty = replicate size 0

-- `(uint16_t)((1<<(prefix%16))-1)`
abbrev pub bits_of : ℕ → ℕ
bits_of prefix = 2 ^ (prefix % 16) - 1

module _ (host : Endian) where
  -- `ip` points to sixteen bytes.
  unfoldable pub construct : Memory → ℕ → Memory
  construct ip port = poke 8 ip (set_network host 2 2 port (poke 0 (image host 2 af_inet6) empty))

  -- `m_addr` is what was at the object's place.
  unfoldable pub construct_from : Memory → Memory → ℕ → Option Memory
  construct_from m_addr addr len = memcpy m_addr addr len

  unfoldable pub get_port : Memory → ℕ
  get_port m = get_network host 2 2 m

  unfoldable pub set_port : ℕ → Memory → Memory
  set_port port m = set_network host 2 2 port m

  -- The object with the bytes that `inet_pton` stored.
  abbrev complete : ℕ → Memory → Memory
  complete port m = poke 0 (image host 2 af_inet6) (set_network host 2 2 port m)

  -- The address, or null, and the line that is logged.
  unfoldable pub create : (Text → Pton) → Text → ℕ → Option Memory × List Text
  create inet_pton ip port = elim (inet_pton ip) [
    | Pton.stored sin6_addr ↦ (some (complete port (poke 8 sin6_addr empty)), [])
    | Pton.not_text ↦ (some (complete port empty), [])
    | Pton.failed errno ↦ (none, codes "ipv6 Create no success !" ∷ [])
  ]

  -- `inet_ntop` is given the sixteen bytes.
  unfoldable pub insert : (Memory → Text) → Memory → Text
  insert inet_ntop m = codes "[" ++ inet_ntop (peek 8 16 m) ++ codes "]:" ++ show (get_port m)

  -- `tempipv6[i]` and `tempipv6[i] = v` of the address as 16-bit numbers of the host; at 8 they are the
  -- first half of the scope.
  abbrev pub get_word : ℕ → Memory → ℕ
  get_word i m = value host (peek (8 + 2 * i) 2 m)

  abbrev pub set_word : ℕ → ℕ → Memory → Memory
  set_word i v m = poke (8 + 2 * i) (image host 2 v) m

  -- The loops, with `n` rounds left before index `i`.
  unfoldable pub fill : ℕ → ℕ → ℕ → Memory → Memory
  fill v zero i m = m
  fill v (suc n) i m = fill v n (i + 1) (set_word i v m)

  unfoldable pub get_broadcast : ℕ → Memory → Made
  get_broadcast prefix m =
      let mid = prefix / 16 in
      if ltb 128 prefix
      then Made.null
      else Made.made (
          fill 65535 (8 - (mid + 1)) (mid + 1)
            (set_word mid (bit_or (get_word mid m) (bits_of prefix)) m))

  unfoldable pub get_network_address : ℕ → Memory → Made
  get_network_address prefix m =
      let mid = prefix / 16 in
      if ltb 128 prefix
      then Made.null
      else Made.made (
          fill 0 (8 - (mid + 1)) (mid + 1)
            (set_word mid (bit_and (get_word mid m) (65535 - bits_of prefix)) m))

  -- There is no test of the prefix; past the object's end the stores are undefined.
  unfoldable pub get_subnetmask : ℕ → Memory → Made
  get_subnetmask prefix m =
      let mid = prefix / 16 in
      let sock6 = poke 2 (peek 2 2 m) empty in
      if ltb 9 mid
      then Made.undefined
      else Made.made (fill 65535 mid 0 (set_word mid (65535 - bits_of prefix) sock6))
