-- ===== src/ByteArray/Codec.antt =====
-- The encoders and decoders of `ByteArray`: integers of fixed width, integers in groups of seven
-- bits, strings and floating-point numbers. An integer is its bit pattern, also where it is signed,
-- and a float or a double is the pattern that `memcpy` copies.
pub mod Fixed
pub mod Varint
pub mod Rounds
pub mod Kinds
pub mod Faults
pub mod Message
use Prim.Native.Nat.{bit_or}
use mathlib.Core.Option
use proj.Base.{
  ℕ, zero, suc, ◌+◌, ◌-◌, ◌*◌, ◌/◌, ◌%◌, ◌^◌, Option, none, some, List, [], ◌∷◌, ltb, leb, ◌==◌,
  length, replicate, if◌then◌else◌, ◌>>=◌,
}
use proj.Swap.{Endian, byteswap_on_big_endian, image, value}
use proj.ByteArray.{ByteArray, write, read}

-- The shape of `writeFInt16` and its like: swap on a big-endian host, then write the memory.
abbrev pub write_fixed : Endian → ℕ → ByteArray → ℕ → Option ByteArray
write_fixed host w b val = write b (image host w (byteswap_on_big_endian host w val))

-- The shape of `readFInt16` and its like. `val` is the variable that is read into: where `read`
-- refuses it keeps its value, and is swapped all the same.
abbrev pub read_fixed : Endian → ℕ → ByteArray → ℕ → Option (ℕ × ByteArray)
read_fixed host w b val = do
  (done, bytes, b') ← read b w
  let raw = if done then value host bytes else val
  some (byteswap_on_big_endian host w raw, b')

module _ (host : Endian) (b : ByteArray) (val : ℕ) where
  pub write_fint8 : Option ByteArray
  write_fint8 = write b (image host 1 val)

  pub write_fint16 : Option ByteArray
  write_fint16 = write_fixed host 2 b val

  pub write_fint32 : Option ByteArray
  write_fint32 = write_fixed host 4 b val

  pub write_fint64 : Option ByteArray
  write_fint64 = write_fixed host 8 b val

  pub write_fuint8 : Option ByteArray
  write_fuint8 = write b (image host 1 val)

  pub write_fuint16 : Option ByteArray
  write_fuint16 = write_fixed host 2 b val

  pub write_fuint32 : Option ByteArray
  write_fuint32 = write_fixed host 4 b val

  pub write_fuint64 : Option ByteArray
  write_fuint64 = write_fixed host 8 b val

  pub read_fint8 : Option (ℕ × ByteArray)
  read_fint8 = do (done, bytes, b') ← read b 1; some (if done then value host bytes else val, b')

  pub read_fint16 : Option (ℕ × ByteArray)
  read_fint16 = read_fixed host 2 b val

  pub read_fint32 : Option (ℕ × ByteArray)
  read_fint32 = read_fixed host 4 b val

  pub read_fint64 : Option (ℕ × ByteArray)
  read_fint64 = read_fixed host 8 b val

  pub read_fuint8 : Option (ℕ × ByteArray)
  read_fuint8 = do (done, bytes, b') ← read b 1; some (if done then value host bytes else val, b')

  pub read_fuint16 : Option (ℕ × ByteArray)
  read_fuint16 = read_fixed host 2 b val

  pub read_fuint32 : Option (ℕ × ByteArray)
  read_fuint32 = read_fixed host 4 b val

  pub read_fuint64 : Option (ℕ × ByteArray)
  read_fuint64 = read_fixed host 8 b val

  pub write_float : Option ByteArray
  unfolding write_fuint32
  write_float = write_fuint32

  pub write_double : Option ByteArray
  unfolding write_fuint64
  write_double = write_fuint64

-- `readFloat` and `readDouble` read into a variable that starts at 0.
pub read_float : Endian → ByteArray → Option (ℕ × ByteArray)
unfolding read_fuint32
read_float host b = read_fuint32 host b 0

pub read_double : Endian → ByteArray → Option (ℕ × ByteArray)
unfolding read_fuint64
read_double host b = read_fuint64 host b 0

-- `writeString`: the length, cut to 32 bits, and the characters.
pub write_string : Endian → ByteArray → List ℕ → Option ByteArray
unfolding write_fuint32
write_string host b str = do b' ← write_fuint32 host b (length str % 2 ^ 32); write b' str

-- `readString`: `str.resize(size)` fills with zeros, which stay where `read` refuses.
pub read_string : Endian → ByteArray → Option (List ℕ × ByteArray)
unfolding read_fuint32
read_string host b = do
  (size, b') ← read_fuint32 host b 0
  (done, bytes, b'') ← read b' size
  some (if done then bytes else replicate size 0, b'')

-- `val >> 7` for a signed `w`-bit `val`: the sign bit is copied in from above.
abbrev pub sar7 : ℕ → ℕ → ℕ
sar7 w val = val / 128 + (if ltb val (2 ^ (w - 1)) then 0 else 2 ^ w - 2 ^ (w - 7))

-- The loop of `writeInt32` and `writeInt64`: `room` is what is left of `tmp`, and `none` is a
-- store behind its end.
pub groups : ℕ → ℕ → ℕ → Option (List ℕ)
groups w zero val = if val == 0 then some [] else none
groups w (suc room) val =
    let rest = Option.map (λ gs. (val % 128) ∷ gs) (groups w room (sar7 w val)) in
    if val == 0 then some [] else rest

-- `tmp[n-1] |= 0x80`: with `n` = 0 a store before `tmp`, `none`.
pub mark_last : List ℕ → Option (List ℕ)
mark_last [] = none
mark_last (g ∷ []) = some (bit_or g 0x80 ∷ [])
mark_last (g ∷ h ∷ gs) = Option.map (λ ms. g ∷ ms) (mark_last (h ∷ gs))

pub write_int32 : ByteArray → ℕ → Option ByteArray
write_int32 b val = do tmp ← groups 32 5 val; marked ← mark_last tmp; write b marked

pub write_int64 : ByteArray → ℕ → Option ByteArray
write_int64 b val = do tmp ← groups 64 10 val; marked ← mark_last tmp; write b marked

pub write_uint32 : ByteArray → ℕ → Option ByteArray
unfolding write_int32
write_uint32 b val = write_int32 b val

pub write_uint64 : ByteArray → ℕ → Option ByteArray
unfolding write_int64
write_uint64 b val = write_int64 b val

-- `tmp << k` in an `int` of 32 bits; a shift by 32 or more is undefined.
abbrev pub shl_int : ℕ → ℕ → Option ℕ
shl_int tmp k = if ltb k 32 then some (tmp * 2 ^ k % 2 ^ 32) else none

-- An `int` as a 64-bit operand of `|=`: the sign bit is copied upwards.
abbrev pub sign_extend : ℕ → ℕ
sign_extend x = if ltb x (2 ^ 31) then x else x + (2 ^ 64 - 2 ^ 32)

abbrev pub keep : ℕ → ℕ
keep x = x

-- The byte at `&tmp`.
abbrev pub first_or : List ℕ → ℕ → ℕ
first_or [] d = d
first_or (x ∷ xs) d = x

-- The loop of `readInt32` and its like, at round `n` with `val` and `tmp` so far. `tmp` keeps its
-- byte where `read` refuses. At `n` = 5 the shift is undefined, so no run has a seventh round.
pub read_rounds : (ℕ → ℕ) → ℕ → ℕ → ℕ → ℕ → ByteArray → Option (ℕ × ByteArray)
read_rounds widen zero n val tmp b = none
read_rounds widen (suc rounds) n val tmp b = do
  (done, bytes, b') ← read b 1
  let tmp' = if done then first_or bytes tmp else tmp
  let group = tmp' % 128
  shifted ← shl_int group (n * 7)
  let val' = bit_or val (widen shifted)
  let more = read_rounds widen rounds (n + 1) val' group b'
  if leb 128 tmp' then some (val', b') else more

pub read_int32 : ByteArray → Option (ℕ × ByteArray)
read_int32 b = read_rounds keep 6 0 0 0 b

pub read_int64 : ByteArray → Option (ℕ × ByteArray)
read_int64 b = read_rounds sign_extend 6 0 0 0 b

pub read_uint32 : ByteArray → Option (ℕ × ByteArray)
read_uint32 b = read_rounds keep 6 0 0 0 b

pub read_uint64 : ByteArray → Option (ℕ × ByteArray)
read_uint64 b = read_rounds sign_extend 6 0 0 0 b
