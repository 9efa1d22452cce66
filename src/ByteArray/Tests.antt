-- ===== src/ByteArray/Tests.antt =====
-- The byte array at concrete inputs.
use proj.Base.{
  Bool, length, ◌<◌, ℕ, ◌≡◌, refl, true, false, none, some, List, [], ◌∷◌, arith, inl, inr, ◌^◌,
  ◌+◌,
}
use proj.Base.Words.{size_mod}
use proj.Swap.{Endian, byteswap, byteswap-byteswap}
use proj.ByteArray.{ByteArray, construct, write, read}
use proj.ByteArray.Valid.{IsValid, contents, construct-IsValid}
use proj.ByteArray.Write.{Appended, write-appends}
use proj.ByteArray.Read.{Taken, read-takes, read_short}
use proj.ByteArray.Trace.{Op, run, queue_run, run-refines}
use proj.ByteArray.Codec.{
  write_string, read_string, write_int32, write_int64, write_uint32, write_uint64, read_int32,
  read_int64, read_uint32, read_uint64,
}
use proj.ByteArray.Codec.Fixed.{write_string-Appended, read_string-front}
use proj.ByteArray.Codec.Kinds.{Kind, writer, writer-Appended, reader, reader-Front, Front}
use proj.ByteArray.Codec.Message.{
  Field, Shape, rooms, write_fields, read_fields, write_fields-read_fields,
}
use proj.ByteArray.Codec.Varint.{write_int32-Appended, write_int64-Appended}
use proj.ByteArray.Codec.Rounds.{ReadsBack, read_ints-varint}
use proj.ByteArray.Codec.Faults.{write_ints_fault, read_ints_empty, read_ints_long}

-- Nodes of four bytes, `3 ∷ 4 ∷ 5 ∷ 6` stored across two of them, two bytes of the first read.
abbrev sample : ByteArray
sample = record {
  before = (1 ∷ 2 ∷ 3 ∷ 4 ∷ []) ∷ [];
  write_buf = 5 ∷ 6 ∷ 0 ∷ 0 ∷ [];
  after = [];
  pos = 2;
  cur = 2;
  size = 4;
  basesize = 4;
  capcity = 6;
  junk = 0;
}

sample-IsValid : IsValid sample
sample-IsValid = record {
  base_pos = omega arith;
  nodes = (refl, tt);
  buf_len = refl;
  last_node = refl;
  pos_in = omega arith;
  cur_in = omega arith;
  counted = omega arith;
  room = omega arith;
  small = omega arith;
}

-- An array of one node that holds `bytes`, which are at most 64.
abbrev holding : List ℕ → ℕ → ByteArray
holding bytes n = record {
  before = [];
  write_buf = bytes;
  after = [];
  pos = n;
  cur = 0;
  size = n;
  basesize = n;
  capcity = n;
  junk = 0;
}

holding-IsValid :
    (bytes : List ℕ) (n : ℕ) → 0 < n → n < 100 → length bytes ≡ n → IsValid (holding bytes n)
holding-IsValid bytes n p h e = record {
  base_pos = p;
  nodes = tt;
  buf_len = e;
  last_node = refl;
  pos_in = omega arith;
  cur_in = omega arith;
  counted = omega arith;
  room = omega arith;
  small = omega arith;
}

write-appends_example :
    (c : ByteArray) × (write sample (7 ∷ 8 ∷ 9 ∷ []) ≡ some c) × Appended sample (7 ∷ 8 ∷ 9 ∷ []) c
write-appends_example = write-appends sample (7 ∷ 8 ∷ 9 ∷ []) sample-IsValid (omega arith)

read-takes_example :
    (r : Bool × List ℕ × ByteArray) × (read sample 3 ≡ some r) × Taken sample 3 [] r
read-takes_example = read-takes sample 3 sample-IsValid (omega arith)

read_refused : read sample 5 ≡ some (false, [], sample)
read_refused = read_short sample 5 (omega arith)

abbrev script : List Op
script = Op.put (7 ∷ 8 ∷ 9 ∷ 10 ∷ 11 ∷ []) ∷ Op.get 6 ∷ Op.get 4 ∷ Op.get 3 ∷ []

run-refines_example : run sample script ≡ some (queue_run (contents sample) script)
run-refines_example = run-refines script sample sample-IsValid (omega arith)

queue_run-script :
    queue_run (3 ∷ 4 ∷ 5 ∷ 6 ∷ []) script
    ≡ (true, []) ∷ (true, 3 ∷ 4 ∷ 5 ∷ 6 ∷ 7 ∷ 8 ∷ []) ∷ (false, []) ∷ (true, 9 ∷ 10 ∷ 11 ∷ []) ∷ []
unfolding queue_run
queue_run-script = refl

construct_fresh : IsValid (construct 0 4096) × (contents (construct 0 4096) ≡ [])
construct_fresh = construct-IsValid 0 4096 (omega arith) (omega arith)

swapped_twice : byteswap 4 (byteswap 4 0x12345678) ≡ 0x12345678
swapped_twice = byteswap-byteswap 4 0x12345678 (omega arith)

swapped : byteswap 4 0x12345678 ≡ 0x78563412
unfolding byteswap
swapped = refl

writer-Appended_example :
    (c : ByteArray) × (writer Kind.fuint32 Endian.big sample 0x12345678 ≡ some c)
    × Appended sample (0x78 ∷ 0x56 ∷ 0x34 ∷ 0x12 ∷ []) c
writer-Appended_example =
    writer-Appended Kind.fuint32 Endian.big sample 0x12345678 sample-IsValid (omega arith)

reader-Front_example : Front 2 0x0403 sample (5 ∷ 6 ∷ []) (reader Kind.fint16 Endian.big sample 99)
reader-Front_example =
    reader-Front Kind.fint16 Endian.big sample 99 0x0403 (5 ∷ 6 ∷ []) sample-IsValid (omega arith)
      refl

write_string-Appended_test :
    (c : ByteArray) × (write_string Endian.little sample (104 ∷ 105 ∷ []) ≡ some c)
    × Appended sample (2 ∷ 0 ∷ 0 ∷ 0 ∷ 104 ∷ 105 ∷ []) c
write_string-Appended_test =
    write_string-Appended Endian.little sample (104 ∷ 105 ∷ []) sample-IsValid (omega arith)
      (omega arith)

abbrev string_array : ByteArray
string_array = holding (2 ∷ 0 ∷ 0 ∷ 0 ∷ 104 ∷ 105 ∷ 7 ∷ []) 7

read_string-front_test :
    (c : ByteArray) × (read_string Endian.little string_array ≡ some (104 ∷ 105 ∷ [], c))
    × IsValid c
    × (contents c ≡ 7 ∷ [])
read_string-front_test =
    read_string-front Endian.little string_array (104 ∷ 105 ∷ []) (7 ∷ [])
      (holding-IsValid (2 ∷ 0 ∷ 0 ∷ 0 ∷ 104 ∷ 105 ∷ 7 ∷ []) 7 (omega arith) (omega arith) refl)
      (omega arith) refl

write_int32-Appended_test :
    (c : ByteArray) × (write_int32 sample 300 ≡ some c) × Appended sample (44 ∷ 130 ∷ []) c
write_int32-Appended_test =
    write_int32-Appended sample 300 sample-IsValid (omega arith) (omega arith) (omega arith)

wrote_int64 :
    (c : ByteArray) × (write_int64 sample (2 ^ 35) ≡ some c)
    × Appended sample (0 ∷ 0 ∷ 0 ∷ 0 ∷ 0 ∷ 129 ∷ []) c
wrote_int64 =
    write_int64-Appended sample (2 ^ 35) sample-IsValid (omega arith) (omega arith) (omega arith)

read_ints-varint_example :
    ReadsBack read_int32 300 (holding (44 ∷ 130 ∷ 9 ∷ []) 3) (9 ∷ [])
    × ReadsBack read_uint32 300 (holding (44 ∷ 130 ∷ 9 ∷ []) 3) (9 ∷ [])
    × ReadsBack read_int64 300 (holding (44 ∷ 130 ∷ 9 ∷ []) 3) (9 ∷ [])
    × ReadsBack read_uint64 300 (holding (44 ∷ 130 ∷ 9 ∷ []) 3) (9 ∷ [])
read_ints-varint_example =
    read_ints-varint 2 300 (holding (44 ∷ 130 ∷ 9 ∷ []) 3) (9 ∷ [])
      (holding-IsValid (44 ∷ 130 ∷ 9 ∷ []) 3 (omega arith) (omega arith) refl) (omega arith)
      (omega arith) (omega arith) refl

write_ints_fault_example :
    (write_int32 sample 0 ≡ none)
    × (write_uint32 sample 0 ≡ none)
    × (write_int64 sample (2 ^ 63) ≡ none)
    × (write_uint64 sample (2 ^ 63) ≡ none)
write_ints_fault_example =
    write_ints_fault sample 0 (2 ^ 63) (inl refl) (inr (omega arith, omega arith))

abbrev drained : ByteArray
drained = construct 0 16

read_ints_empty_test :
    (read_int32 drained ≡ none)
    × (read_uint32 drained ≡ none)
    × (read_int64 drained ≡ none)
    × (read_uint64 drained ≡ none)
unfolding construct
read_ints_empty_test = read_ints_empty drained refl

abbrev long_array : ByteArray
long_array = holding (0 ∷ 0 ∷ 0 ∷ 0 ∷ 0 ∷ 129 ∷ []) 6

read_ints_long_test :
    (read_int32 long_array ≡ none)
    × (read_uint32 long_array ≡ none)
    × (read_int64 long_array ≡ none)
    × (read_uint64 long_array ≡ none)
read_ints_long_test =
    read_ints_long 10 (2 ^ 35) long_array []
      (holding-IsValid (0 ∷ 0 ∷ 0 ∷ 0 ∷ 0 ∷ 129 ∷ []) 6 (omega arith) (omega arith) refl)
      (omega arith) (omega arith) refl

-- A number of four bytes, two numbers in groups, and a text, in nodes of four bytes.
abbrev message : List Field
message =
    Field.fixed Kind.fint32 0xfffffffe
    ∷ Field.int32 300
    ∷ Field.int64 5
    ∷ Field.string (104 ∷ 105 ∷ [])
    ∷ []

message-fits : (construct 0 4).size + rooms message + (construct 0 4).basesize < size_mod
unfolding construct
message-fits = omega arith

write_fields-read_fields_example :
    (c d : ByteArray) × (write_fields Endian.little (construct 0 4) message ≡ some c)
    × (read_fields Endian.big
          (Shape.fixed Kind.fint32 ∷ Shape.int32 ∷ Shape.int64 ∷ Shape.string ∷ [])
          c
        ≡ some (message, d))
    × IsValid d
    × (contents d ≡ [])
write_fields-read_fields_example =
    write_fields-read_fields Endian.little Endian.big (construct 0 4) message
      (construct-IsValid 0 4 (omega arith) (omega arith)).0
      (construct-IsValid 0 4 (omega arith) (omega arith)).1
      (omega arith, ((omega arith, omega arith), ((omega arith, omega arith), (omega arith, tt))))
      message-fits
