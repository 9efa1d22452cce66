-- ===== src/ByteArray/Codec/Message.antt =====
-- A client's message of fields, written to a `ByteArray` of src/byteArray.h one behind the other and
-- read back by the same calls in the same order.
use proj.Base.{
  ℕ, ◌+◌, ◌^◌, ◌≤◌, ◌<◌, ◌≡◌, refl, sym, ap, ◌∙◌, Option, some, ◌>>=◌, List, [], ◌∷◌, ◌++◌, arith,
  length, length-append, map, concat, append_assoc, append-nil, All,
}
use proj.Base.Words.{size_mod}
use proj.Swap.{Endian, le_bytes, length-le_bytes}
use proj.ByteArray.{ByteArray}
use proj.ByteArray.Codec.{
  write_int32, write_int64, write_string, read_int32, read_int64, read_string,
}
use proj.ByteArray.Codec.Fixed.{write_string-Appended, read_string-front}
use proj.ByteArray.Codec.Kinds.{Kind, width, writer, reader, writer-Appended, reader-Front}
use proj.ByteArray.Codec.Rounds.{read_ints-varint}
use proj.ByteArray.Codec.Varint.{varint, length-varint, write_int32-Appended, write_int64-Appended}
use proj.ByteArray.Valid.{IsValid, contents}
use proj.ByteArray.Write.{Appended, Appended-trans}

-- Which call reads a field, and a field with its value.
pub data Shape : Type 0 where
  fixed : Kind → Shape
  int32 int64 string : Shape

pub data Field : Type 0 where
  fixed : Kind → ℕ → Field
  int32 int64 : ℕ → Field
  string : List ℕ → Field

abbrev pub shape : Field → Shape
shape (Field.fixed k val) = Shape.fixed k
shape (Field.int32 val) = Shape.int32
shape (Field.int64 val) = Shape.int64
shape (Field.string str) = Shape.string

-- The calls on one field, and on the fields in a row.
unfoldable pub write_field : Endian → ByteArray → Field → Option ByteArray
write_field host b (Field.fixed k val) = writer k host b val
write_field host b (Field.int32 val) = write_int32 b val
write_field host b (Field.int64 val) = write_int64 b val
write_field host b (Field.string str) = write_string host b str

unfoldable pub read_field : Endian → Shape → ByteArray → Option (Field × ByteArray)
read_field host (Shape.fixed k) b = reader k host b 0 >>= λ r. some (Field.fixed k r.0, r.1)
read_field host Shape.int32 b = read_int32 b >>= λ r. some (Field.int32 r.0, r.1)
read_field host Shape.int64 b = read_int64 b >>= λ r. some (Field.int64 r.0, r.1)
read_field host Shape.string b = read_string host b >>= λ r. some (Field.string r.0, r.1)

unfoldable pub write_fields : Endian → ByteArray → List Field → Option ByteArray
write_fields host b [] = some b
write_fields host b (f ∷ fs) = write_field host b f >>= λ c. write_fields host c fs

unfoldable pub read_fields : Endian → List Shape → ByteArray → Option (List Field × ByteArray)
read_fields host [] b = some ([], b)
read_fields host (s ∷ ss) b =
    read_field host s b >>= λ r. read_fields host ss r.1 >>= λ rest. some (r.0 ∷ rest.0, rest.1)

-- The values that a field carries there and back: what fits its width; in groups the positive numbers
-- below 2 ^ 31 alone, for `int64` as for `int32`; and texts whose length fits four bytes.
abbrev pub Fits : Field → Type 0
Fits (Field.fixed k val) = val < 256 ^ width k
Fits (Field.int32 val) = (0 < val) × (val < 2 ^ 31)
Fits (Field.int64 val) = (0 < val) × (val < 2 ^ 31)
Fits (Field.string str) = length str < 2 ^ 32

-- The bytes of a field, and a bound on their number.
abbrev pub encoding : Field → List ℕ
encoding (Field.fixed k val) = le_bytes (width k) val
encoding (Field.int32 val) = varint 5 val
encoding (Field.int64 val) = varint 10 val
encoding (Field.string str) = le_bytes 4 (length str) ++ str

abbrev pub room : Field → ℕ
room (Field.fixed k val) = width k
room (Field.int32 val) = 5
room (Field.int64 val) = 10
room (Field.string str) = 4 + length str

abbrev pub rooms : List Field → ℕ
rooms [] = 0
rooms (f ∷ fs) = room f + rooms fs

length-encoding : (f : Field) → length (encoding f) ≤ room f
length-encoding (Field.fixed k val) = omega (arith, length-le_bytes (width k) val)
length-encoding (Field.int32 val) = length-varint 5 val
length-encoding (Field.int64 val) = length-varint 10 val
length-encoding (Field.string str) =
    omega (arith, length-append (le_bytes 4 (length str)) str, length-le_bytes 4 (length str))

write_field-Appended :
    (host : Endian) (b : ByteArray) (f : Field)
    → IsValid b
    → Fits f
    → b.size + room f + b.basesize < size_mod
    → (c : ByteArray) × (write_field host b f ≡ some c) × Appended b (encoding f) c
unfolding write_field
write_field-Appended host b (Field.fixed k val) v fits h = writer-Appended k host b val v h
write_field-Appended host b (Field.int32 val) v fits h =
    write_int32-Appended b val v h fits.0 fits.1
write_field-Appended host b (Field.int64 val) v fits h =
    write_int64-Appended b val v h fits.0 (omega (arith, fits.1))
write_field-Appended host b (Field.string str) v fits h =
    write_string-Appended host b str v fits (omega arith)

write_fields-Appended :
    (host : Endian) (b : ByteArray) (fs : List Field)
    → IsValid b
    → All Fits fs
    → b.size + rooms fs + b.basesize < size_mod
    → (c : ByteArray) × (write_fields host b fs ≡ some c) × Appended b (concat (map encoding fs)) c
unfolding write_fields
write_fields-Appended host b [] v fits h = (
  b,
  refl,
  record {
    valid = v;
    bytes = sym (append-nil (contents b));
    size_lem = omega arith;
    same_base = refl;
  },
)
write_fields-Appended host b (f ∷ fs) v fits h =
    let (c, eq, p) = write_field-Appended host b f v fits.0 (omega arith) in
    let (d, eq', q) =
      write_fields-Appended host c fs p.valid fits.1
        (omega (arith, p.size_lem, p.same_base, length-encoding f)) in
    (
      d,
      ap (λ (o : Option ByteArray). o >>= λ c. write_fields host c fs) eq ∙ eq',
      Appended-trans b c d (encoding f) (concat (map encoding fs)) _ refl p q,
    )

-- A field is read by the call for it and left out of what is to come.
abbrev ReadsFront : Endian → ByteArray → Field → List ℕ → Type 0
ReadsFront host b f rest =
    (c : ByteArray) × (read_field host (shape f) b ≡ some (f, c)) × IsValid c × (contents c ≡ rest)

read_field-front :
    (host : Endian) (b : ByteArray) (f : Field) (rest : List ℕ)
    → IsValid b
    → Fits f
    → contents b ≡ encoding f ++ rest
    → ReadsFront host b f rest
unfolding read_field
read_field-front host b (Field.fixed k val) rest v fits e =
    let r = reader-Front k host b 0 val rest v fits e in
    (
      r.left,
      ap (λ (o : Option (ℕ × ByteArray)). o >>= λ r. some (Field.fixed k r.0, r.1)) r.result,
      r.valid,
      r.bytes,
    )
read_field-front host b (Field.int32 val) rest v fits e =
    let (c, eq, w, left) =
      (read_ints-varint 5 val b rest v fits.0 fits.1 (omega (arith, fits.1)) e).0 in
    (c, ap (λ (o : Option (ℕ × ByteArray)). o >>= λ r. some (Field.int32 r.0, r.1)) eq, w, left)
read_field-front host b (Field.int64 val) rest v fits e =
    let (c, eq, w, left) =
      (read_ints-varint 10 val b rest v fits.0 fits.1 (omega (arith, fits.1)) e).2 in
    (c, ap (λ (o : Option (ℕ × ByteArray)). o >>= λ r. some (Field.int64 r.0, r.1)) eq, w, left)
read_field-front host b (Field.string str) rest v fits e =
    let (c, eq, w, left) = read_string-front host b str rest v fits e in
    (
      c,
      ap (λ (o : Option (List ℕ × ByteArray)). o >>= λ r. some (Field.string r.0, r.1)) eq,
      w,
      left,
    )

read_fields-front :
    (host : Endian) (b : ByteArray) (fs : List Field) (rest : List ℕ)
    → IsValid b
    → All Fits fs
    → contents b ≡ concat (map encoding fs) ++ rest
    → (c : ByteArray) × (read_fields host (map shape fs) b ≡ some (fs, c))
      × IsValid c
      × (contents c ≡ rest)
unfolding read_fields
read_fields-front host b [] rest v fits e = (b, refl, v, e)
read_fields-front host b (f ∷ fs) rest v fits e =
    let (c, eq, w, left) =
      read_field-front host b f (concat (map encoding fs) ++ rest) v fits.0
        (e ∙ append_assoc (encoding f) (concat (map encoding fs)) rest) in
    let (d, eq', w', left') = read_fields-front host c fs rest w fits.1 left in
    (
      d,
      ap
            (λ (o : Option (Field × ByteArray)). o >>= λ r.
              read_fields host (map shape fs) r.1 >>= λ rest. some (r.0 ∷ rest.0, rest.1))
            eq
          ∙ ap (λ (o : Option (List Field × ByteArray)). o >>= λ rest. some (f ∷ rest.0, rest.1))
              eq',
      w',
      left',
    )

-- A message of numbers of the ten fixed kinds, of texts shorter than 2 ^ 32, and of numbers in groups of
-- seven bits, which must be positive and below 2 ^ 31, for `writeInt64` too: written to an array with
-- nothing left to read and with room for it, it is read back, field by field, on a host of the same or
-- of the other byte order; the array is then valid and has nothing left to read.
pub write_fields-read_fields :
    (from to : Endian) (b : ByteArray) (fs : List Field)
    → IsValid b
    → contents b ≡ []
    → All Fits fs
    → b.size + rooms fs + b.basesize < size_mod
    → (c d : ByteArray) × (write_fields from b fs ≡ some c)
      × (read_fields to (map shape fs) c ≡ some (fs, d))
      × IsValid d
      × (contents d ≡ [])
write_fields-read_fields from to b fs v none_left fits h =
    let (c, eq, p) = write_fields-Appended from b fs v fits h in
    let (d, eq', w, left) = read_fields-front to c fs [] p.valid fits (
      p.bytes
      ∙ ap (λ bs. bs ++ concat (map encoding fs)) none_left
      ∙ sym (append-nil (concat (map encoding fs)))) in
    (c, d, eq, eq', w, left)
