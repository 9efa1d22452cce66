-- ===== src/ByteArray/Codec/Kinds.antt =====
-- The ten kinds of fixed width, each with its own writer and reader.
use proj.Base.{ℕ, ◌+◌, ◌^◌, ◌<◌, ◌≡◌, refl, ap, Option, some, List, ◌++◌, arith}
use proj.Base.Words.{size_mod}
use proj.Swap.{Endian, le_bytes, image, value, of_le_bytes-le_bytes}
use proj.ByteArray.{ByteArray}
use proj.ByteArray.Codec.{
  read_fixed, write_fint8, write_fint16, write_fint32, write_fint64, write_fuint8, write_fuint16,
  write_fuint32, write_fuint64, write_float, write_double, read_fint8, read_fint16, read_fint32,
  read_fint64, read_fuint8, read_fuint16, read_fuint32, read_fuint64, read_float, read_double,
}
use proj.ByteArray.Codec.Fixed.{write_fixed-Appended, read_fixed-front, read_front}
use proj.ByteArray.Valid.{IsValid, contents}
use proj.ByteArray.Write.{Appended, write-appends}

pub data Kind : Type 0 where
  fint8 fint16 fint32 fint64 fuint8 fuint16 fuint32 fuint64 float double : Kind

abbrev pub width : Kind → ℕ
width Kind.fint8 = 1
width Kind.fint16 = 2
width Kind.fint32 = 4
width Kind.fint64 = 8
width Kind.fuint8 = 1
width Kind.fuint16 = 2
width Kind.fuint32 = 4
width Kind.fuint64 = 8
width Kind.float = 4
width Kind.double = 8

abbrev pub writer : Kind → Endian → ByteArray → ℕ → Option ByteArray
writer Kind.fint8 = write_fint8
writer Kind.fint16 = write_fint16
writer Kind.fint32 = write_fint32
writer Kind.fint64 = write_fint64
writer Kind.fuint8 = write_fuint8
writer Kind.fuint16 = write_fuint16
writer Kind.fuint32 = write_fuint32
writer Kind.fuint64 = write_fuint64
writer Kind.float = write_float
writer Kind.double = write_double

-- `old` is what the variable that is read into holds; `readFloat` and `readDouble` have none.
abbrev pub reader : Kind → Endian → ByteArray → ℕ → Option (ℕ × ByteArray)
reader Kind.fint8 = read_fint8
reader Kind.fint16 = read_fint16
reader Kind.fint32 = read_fint32
reader Kind.fint64 = read_fint64
reader Kind.fuint8 = read_fuint8
reader Kind.fuint16 = read_fuint16
reader Kind.fuint32 = read_fuint32
reader Kind.fuint64 = read_fuint64
reader Kind.float = λ host b old. read_float host b
reader Kind.double = λ host b old. read_double host b

image_byte : (host : Endian) (val : ℕ) → image host 1 val ≡ le_bytes 1 val
unfolding image
image_byte Endian.little val = refl
image_byte Endian.big val = refl

value_byte : (host : Endian) (val : ℕ) → val < 256 → value host (le_bytes 1 val) ≡ val
unfolding value
value_byte Endian.little val h = of_le_bytes-le_bytes 1 val (omega arith)
value_byte Endian.big val h = of_le_bytes-le_bytes 1 val (omega arith)

-- Every writer of fixed width appends the little-endian form of its value, on a host of either byte
-- order.
pub writer-Appended :
    (k : Kind) (host : Endian) (b : ByteArray) (val : ℕ)
    → IsValid b
    → b.size + width k + b.basesize < size_mod
    → (c : ByteArray) × (writer k host b val ≡ some c) × Appended b (le_bytes (width k) val) c
unfolding write_fint8 write_fint16 write_fint32 write_fint64 write_fuint8 write_fuint16
    write_fuint32 write_fuint64 write_float write_double
writer-Appended Kind.fint8 host b val v h =
    rw (image_byte host val) (write-appends b (le_bytes 1 val) v (omega arith))
writer-Appended Kind.fuint8 host b val v h =
    rw (image_byte host val) (write-appends b (le_bytes 1 val) v (omega arith))
writer-Appended Kind.fint16 host b val v h = write_fixed-Appended host 2 b val v h
writer-Appended Kind.fint32 host b val v h = write_fixed-Appended host 4 b val v h
writer-Appended Kind.fint64 host b val v h = write_fixed-Appended host 8 b val v h
writer-Appended Kind.fuint16 host b val v h = write_fixed-Appended host 2 b val v h
writer-Appended Kind.fuint32 host b val v h = write_fixed-Appended host 4 b val v h
writer-Appended Kind.fuint64 host b val v h = write_fixed-Appended host 8 b val v h
writer-Appended Kind.float host b val v h = write_fixed-Appended host 4 b val v h
writer-Appended Kind.double host b val v h = write_fixed-Appended host 8 b val v h

-- What a reader has to give for `val` in front of `rest`.
pub record Front (w val : ℕ) (b : ByteArray) (rest : List ℕ) (o : Option (ℕ × ByteArray))
    : Type 0 where
  pub left : ByteArray
  pub result : o ≡ some (val, left)
  pub valid : IsValid left
  pub bytes : contents left ≡ rest
  pub size_lem : left.size + w ≡ b.size

read_fixed-Front :
    (host : Endian) (w : ℕ) (b : ByteArray) (old val : ℕ) (rest : List ℕ)
    → IsValid b
    → val < 256 ^ w
    → contents b ≡ le_bytes w val ++ rest
    → Front w val b rest (read_fixed host w b old)
read_fixed-Front host w b old val rest v h e =
    let (c, eq, vc, cr, sz, bs) = read_fixed-front host w b old val rest v h e in
    record { left = c; result = eq; valid = vc; bytes = cr; size_lem = sz }

read_byte-Front :
    (host : Endian) (b : ByteArray) (old val : ℕ) (rest : List ℕ)
    → IsValid b
    → val < 256
    → contents b ≡ le_bytes 1 val ++ rest
    → Front 1 val b rest (read_fint8 host b old) × Front 1 val b rest (read_fuint8 host b old)
unfolding read_fint8 read_fuint8
read_byte-Front host b old val rest v h e =
    let (c, eq, vc, cr, sz, bs) = read_front b (le_bytes 1 val) rest 1 v e refl in
    (
      record {
        left = c;
        result = rw eq (ap (λ x. some (x, c)) (value_byte host val h));
        valid = vc;
        bytes = cr;
        size_lem = sz;
      },
      record {
        left = c;
        result = rw eq (ap (λ x. some (x, c)) (value_byte host val h));
        valid = vc;
        bytes = cr;
        size_lem = sz;
      },
    )

-- Every reader of fixed width gives back the value whose little-endian form stands first, on a host
-- of either byte order and whatever its variable held, and leaves the bytes behind it.
pub reader-Front :
    (k : Kind) (host : Endian) (b : ByteArray) (old val : ℕ) (rest : List ℕ)
    → IsValid b
    → val < 256 ^ width k
    → contents b ≡ le_bytes (width k) val ++ rest
    → Front (width k) val b rest (reader k host b old)
unfolding read_fint16 read_fint32 read_fint64 read_fuint16 read_fuint32 read_fuint64 read_float
    read_double
reader-Front Kind.fint8 host b old val rest v h e = (read_byte-Front host b old val rest v h e).0
reader-Front Kind.fuint8 host b old val rest v h e = (read_byte-Front host b old val rest v h e).1
reader-Front Kind.fint16 host b old val rest v h e = read_fixed-Front host 2 b old val rest v h e
reader-Front Kind.fint32 host b old val rest v h e = read_fixed-Front host 4 b old val rest v h e
reader-Front Kind.fint64 host b old val rest v h e = read_fixed-Front host 8 b old val rest v h e
reader-Front Kind.fuint16 host b old val rest v h e = read_fixed-Front host 2 b old val rest v h e
reader-Front Kind.fuint32 host b old val rest v h e = read_fixed-Front host 4 b old val rest v h e
reader-Front Kind.fuint64 host b old val rest v h e = read_fixed-Front host 8 b old val rest v h e
reader-Front Kind.float host b old val rest v h e = read_fixed-Front host 4 b 0 val rest v h e
reader-Front Kind.double host b old val rest v h e = read_fixed-Front host 8 b 0 val rest v h e
