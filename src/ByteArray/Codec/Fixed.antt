-- ===== src/ByteArray/Codec/Fixed.antt =====
-- Integers of fixed width and strings: what is written, and that it is read back.
use proj.Base.{
  ℕ, ◌+◌, ◌%◌, ◌^◌, ◌<◌, ◌≡◌, refl, ap, ap₂, ◌∙◌, true, Option, some, ◌>>=◌, List, ◌++◌, arith,
  length, take, drop, length-append, take_all, drop_all, take-append, drop-append, append_assoc,
}
use proj.Base.Words.{size_mod}
use proj.Swap.{
  Endian, le_bytes, length-le_bytes, image-byteswap_on_big_endian, byteswap_on_big_endian-value,
}
use proj.ByteArray.{ByteArray, write, read}
use proj.ByteArray.Codec.{
  write_fixed, read_fixed, write_fuint32, read_fuint32, write_string, read_string,
}
use proj.ByteArray.Valid.{IsValid, contents, length-contents}
use proj.ByteArray.Write.{Appended, Appended-trans, write-appends}
use proj.ByteArray.Read.{read-takes}

-- Reading exactly the bytes that stand first.
pub read_front :
    (b : ByteArray) (front rest : List ℕ) (n : ℕ)
    → IsValid b
    → contents b ≡ front ++ rest
    → length front ≡ n
    → (c : ByteArray) × (read b n ≡ some (true, front, c))
      × IsValid c
      × (contents c ≡ rest)
      × (c.size + n ≡ b.size)
      × (c.basesize ≡ b.basesize)
read_front b front rest n v e l =
    let (r, eq, t) = read-takes b n v (
      omega (
        arith,
        length-contents b v,
        ap (λ (zs : List ℕ). length zs) e,
        length-append front rest,
      )) in
    (
      r.2,
      eq ∙ ap₂ (λ d bs. some (d, bs, r.2)) t.done (t.bytes ∙ first),
      t.valid,
      t.rest ∙ others,
      t.size_lem,
      t.same_base,
    )
  where
    first : take n (contents b) ≡ front
    first =
        ap (λ zs. take n zs) e
        ∙ take-append n front rest (omega (arith, l))
        ∙ take_all n front (omega (arith, l))

    others : drop n (contents b) ≡ rest
    others =
        ap (λ zs. drop n zs) e
        ∙ drop-append n front rest (omega (arith, l))
        ∙ ap (λ zs. zs ++ rest) (drop_all n front (omega (arith, l)))

-- The `w`-byte writers append the little-endian form of the integer, on a host of either byte
-- order.
pub write_fixed-Appended :
    (host : Endian) (w : ℕ) (b : ByteArray) (val : ℕ)
    → IsValid b
    → b.size + w + b.basesize < size_mod
    → (c : ByteArray) × (write_fixed host w b val ≡ some c) × Appended b (le_bytes w val) c
write_fixed-Appended host w b val v k =
    rw (image-byteswap_on_big_endian host w val)
      (write-appends b (le_bytes w val) v (omega (arith, length-le_bytes w val)))

-- The `w`-byte readers give back the integer whose little-endian form stands first, on a host of
-- either byte order and whatever the variable held before, and leave the bytes behind it.
pub read_fixed-front :
    (host : Endian) (w : ℕ) (b : ByteArray) (old val : ℕ) (rest : List ℕ)
    → IsValid b
    → val < 256 ^ w
    → contents b ≡ le_bytes w val ++ rest
    → (c : ByteArray) × (read_fixed host w b old ≡ some (val, c))
      × IsValid c
      × (contents c ≡ rest)
      × (c.size + w ≡ b.size)
      × (c.basesize ≡ b.basesize)
read_fixed-front host w b old val rest v h e =
    let (c, eq, vc, cc', sz, bs) =
      read_front b (le_bytes w val) rest w v e (length-le_bytes w val) in
    (c, rw eq (ap (λ x. some (x, c)) (byteswap_on_big_endian-value host w val h)), vc, cc', sz, bs)

-- `writeString` appends the length in four bytes and then the characters.
pub write_string-Appended :
    (host : Endian) (b : ByteArray) (str : List ℕ)
    → IsValid b
    → length str < 2 ^ 32
    → b.size + 4 + length str + b.basesize < size_mod
    → (c : ByteArray) × (write_string host b str ≡ some c)
      × Appended b (le_bytes 4 (length str) ++ str) c
unfolding write_string write_fuint32
write_string-Appended host b str v h k =
    let small : length str % 2 ^ 32 ≡ length str = omega arith in
    let (c, eq, p) = write_fixed-Appended host 4 b (length str) v (omega arith) in
    let (d, eq', q) =
      write-appends c str p.valid
        (omega (arith, p.size_lem, p.same_base, length-le_bytes 4 (length str))) in
    (
      d,
      ap (λ n. write_fixed host 4 b n >>= λ b'. write b' str) small
          ∙ ap (λ (o : Option ByteArray). o >>= λ b'. write b' str) eq
          ∙ eq',
      Appended-trans b c d (le_bytes 4 (length str)) str (le_bytes 4 (length str) ++ str) refl p q,
    )

-- `readString` gives back the string that `writeString` put first, and leaves the bytes behind.
pub read_string-front :
    (host : Endian) (b : ByteArray) (str rest : List ℕ)
    → IsValid b
    → length str < 2 ^ 32
    → contents b ≡ (le_bytes 4 (length str) ++ str) ++ rest
    → (c : ByteArray) × (read_string host b ≡ some (str, c)) × IsValid c × (contents c ≡ rest)
unfolding read_string read_fuint32
read_string-front host b str rest v h e =
    let (c, eq, vc, ec, sz, bs) =
      read_fixed-front host 4 b 0 (length str) (str ++ rest) v (omega arith)
        (e ∙ append_assoc (le_bytes 4 (length str)) str rest) in
    let (d, eq', vd, ed, sz', bs') = read_front c str rest (length str) vc ec refl in
    (d, rw (eq, eq'), vd, ed)
