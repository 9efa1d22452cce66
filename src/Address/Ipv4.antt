-- ===== src/Address/Ipv4.antt =====
-- `IPv4Address` of src/address.h and src/address.cc, by the bytes of its `sockaddr_in`: the family in
-- two bytes, the port in two, the address in four, and eight more.
use Prim.Native.Nat.{bit_or, bit_and}
use proj.Base.{
  ℕ, ◌-◌, ◌/◌, ◌%◌, ◌^◌, Option, none, some, List, [], ◌∷◌, ◌++◌, if◌then◌else◌, ltb, replicate,
}
use proj.Base.Memory.{Memory, poke, memcpy}
use proj.Base.Text.{Text, codes, show}
use proj.Base.Numeral.{show_int}
use proj.Swap.{Endian, image}
use proj.Address.{af_inet, Made, get_network, set_network, low_mask}

-- `sizeof(sockaddr_in)`
abbrev pub size : ℕ
size = 16

-- `inet_pton(AF_INET, ip, dst)`: 1 and the bytes it stored, 0, or -1 with the `errno`.
pub data Pton : Type 0 where
  stored : Memory → Pton
  not_text : Pton
  failed : ℕ → Pton

module _ (host : Endian) where
  unfoldable pub construct : ℕ → ℕ → Memory
  construct ip port =
      set_network host 4 4 ip
        (set_network host 2 2 port (poke 0 (image host 2 af_inet) (replicate size 0)))

  -- The members are not initialised: `m_addr` is what was at the object's place.
  unfoldable pub construct_from : Memory → Memory → ℕ → Option Memory
  construct_from m_addr addr len = memcpy m_addr addr len

  abbrev pub get_ip : Memory → ℕ
  get_ip m = get_network host 4 4 m

  unfoldable pub get_port : Memory → ℕ
  get_port m = get_network host 2 2 m

  unfoldable pub set_port : ℕ → Memory → Memory
  set_port port m = set_network host 2 2 port m

  -- The address, or null, and the line that is logged.
  unfoldable pub create : (Text → Pton) → Text → ℕ → Option Memory × List Text
  create inet_pton ip port = elim (inet_pton ip) [
    | Pton.stored s_addr ↦ (some (set_network host 2 2 port (poke 4 s_addr (construct 0 0))), [])
    | Pton.not_text ↦ (some (set_network host 2 2 port (construct 0 0)), [])
    | Pton.failed errno ↦ (
      none,
      (codes "create ipv4 error ! ip : "
            ++ ip
            ++ codes " port: "
            ++ show port
            ++ codes " errno = "
            ++ show_int errno)
          ∷ [],
    )
  ]

  unfoldable pub insert : Memory → Text
  insert m =
      let ip = get_ip m in
      codes "["
      ++ show (ip / 2 ^ 24)
      ++ codes "."
      ++ show (ip / 2 ^ 16 % 256)
      ++ codes "."
      ++ show (ip / 2 ^ 8 % 256)
      ++ codes "."
      ++ show (ip % 256)
      ++ codes "]:"
      ++ show (get_port m)

  unfoldable pub get_broadcast : ℕ → Memory → Made
  get_broadcast prefix m = if ltb 32 prefix then Made.null else elim (low_mask (32 - prefix)) [
    | none ↦ Made.undefined
    | some mask ↦ Made.made (construct (bit_or (get_ip m) mask) (get_port m))
  ]

  -- `~` of a 32-bit number
  abbrev invert : ℕ → ℕ
  invert n = 2 ^ 32 - 1 - n

  unfoldable pub get_network_address : ℕ → Memory → Made
  get_network_address prefix m =
      if ltb 32 prefix then Made.null else elim (low_mask (32 - prefix)) [
        | none ↦ Made.undefined
        | some mask ↦ Made.made (construct (bit_and (get_ip m) (invert mask)) (get_port m))
      ]

  unfoldable pub get_subnetmask : ℕ → Memory → Made
  get_subnetmask prefix m = if ltb 32 prefix then Made.null else elim (low_mask (32 - prefix)) [
    | none ↦ Made.undefined
    | some mask ↦ Made.made (construct (invert mask) (get_port m))
  ]
