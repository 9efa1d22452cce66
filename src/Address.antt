-- ===== src/Address.antt =====
-- src/address.h and src/address.cc: the socket addresses, one child for each class, on the bytes of
-- their `sockaddr` objects.
pub mod Ipv4
pub mod Ipv4Laws
pub mod Ipv6
pub mod Ipv6Laws
pub mod Unix
pub mod Object
pub mod Resolve
pub mod ObjectLaws
pub mod UnixLaws
pub mod ResolveLaws
mod Tests
use Prim.Native.Nat.{bit_or, bit_and}
use proj.Base.{ℕ, ◌+◌, ◌-◌, ◌*◌, ◌^◌, Option, none, some, if◌then◌else◌, leb, ltb}
use proj.Base.Memory.{Memory, peek, poke}
use proj.Swap.{Endian, byteswap_on_little_endian, image, value}

-- `AF_UNIX`, `AF_INET` and `AF_INET6` of the system.
abbrev pub af_unix : ℕ
af_unix = 1

abbrev pub af_inet : ℕ
af_inet = 2

abbrev pub af_inet6 : ℕ
af_inet6 = 10

-- What a function that makes an address does: it returns null, an object with these bytes, or its
-- behaviour is undefined.
pub data Made : Type 0 where
  null undefined : Made
  made : Memory → Made

module _ (host : Endian) where
  -- `byteswapOnLittleEndian(x)` of a field `x` with `w` bytes at `off`, and `x =
  -- byteswapOnLittleEndian(v)`.
  abbrev pub get_network : ℕ → ℕ → Memory → ℕ
  get_network off w m = byteswap_on_little_endian host w (value host (peek off w m))

  abbrev pub set_network : ℕ → ℕ → ℕ → Memory → Memory
  set_network off w v m = poke off (image host w (byteswap_on_little_endian host w v)) m

  -- `sa_family` of a `sockaddr`.
  abbrev pub sa_family : Memory → ℕ
  sa_family m = value host (peek 0 2 m)

-- `(1<<n)-1` of `int`s; none where C++ gives it no value.
abbrev pub low_mask : ℕ → Option ℕ
low_mask n = if ltb n 31 then some (2 ^ n - 1) else none
