-- ===== src/ByteArray/Codec/Faults.antt =====
-- Where the encoders and decoders leave the defined behaviour of the language.
use Prim.Native.Nat.{bit_or}
use mathlib.Core.Option
use native.Mathlib.Nat.{pow-succ', one-le-pow}
use proj.Base.{
  Option, some, ◌>>=◌, List, [], ◌/◌, lt→ltb, ◌∙◌, ◌++◌, leb, Option-cases, ℕ, zero, suc, ◌+◌, ◌-◌,
  ◌*◌, ◌%◌, ◌^◌, ◌≤◌, ◌<◌, ◌≡◌, ◌⊎◌, refl, ap, none, ◌∷◌, arith, inl, inr, Bool-cases, ltb, ◌==◌,
  false,
}
use proj.ByteArray.{ByteArray, read, write}
use proj.ByteArray.Read.{read_short}
use proj.ByteArray.Valid.{IsValid, contents}
use proj.ByteArray.Codec.Fixed.{read_front}
use proj.ByteArray.Codec.Varint.{varint, varint_large, groups_zero}
use proj.ByteArray.Codec.{
  keep, sign_extend, groups, mark_last, sar7, read_rounds, write_int32, write_int64, write_uint32,
  write_uint64, read_int32, read_int64, read_uint32, read_uint64,
}

-- The shift of a negative value is negative.
abbrev StaysNegative : ℕ → Type 0
StaysNegative w =
    (v : ℕ) → 2 ^ (w - 1) ≤ v → v < 2 ^ w → (2 ^ (w - 1) ≤ sar7 w v) × (sar7 w v < 2 ^ w)

stays32 : StaysNegative 32
stays32 v h k = ground arith

stays64 : StaysNegative 64
stays64 v h k = ground arith

-- So the loop never meets zero, and runs out of `tmp` whatever its size.
groups_negative :
    (w : ℕ)
    → StaysNegative w
    → 0 < 2 ^ (w - 1)
    → (room v : ℕ) → 2 ^ (w - 1) ≤ v
    → v < 2 ^ w
    → groups w room v ≡ none
unfolding groups
groups_negative w stays p zero v h k = let e : (v == 0) ≡ false = ground arith in rw e
groups_negative w stays p (suc room) v h k =
    let e : (v == 0) ≡ false = ground arith in
    rw e (
      ap (λ o. Option.map (λ gs. (v % 128) ∷ gs) o)
        (groups_negative w stays p room (sar7 w v) (stays v h k).0 (stays v h k).1))

abbrev pub Unwritable : ℕ → ℕ → Type 0
Unwritable w v = (v ≡ 0) ⊎ ((2 ^ (w - 1) ≤ v) × (v < 2 ^ w))

groups-Unwritable :
    (w : ℕ)
    → StaysNegative w
    → 0 < 2 ^ (w - 1)
    → (room v : ℕ) → Unwritable w v
    → (groups w room v >>= mark_last) ≡ none
unfolding mark_last
groups-Unwritable w stays p room v (inl z) = rw (z, groups_zero w room)
groups-Unwritable w stays p room v (inr (h, k)) = rw (groups_negative w stays p room v h k)

bind_none :
    (o : Option (List ℕ)) (b : ByteArray)
    → (o >>= mark_last) ≡ none
    → (o >>= λ tmp. mark_last tmp >>= λ marked. write b marked) ≡ none
bind_none none b e = refl
bind_none (some gs) b e = ap (λ (o : Option (List ℕ)). o >>= λ marked. write b marked) e

-- The four writers of grouped integers store outside their buffer, whatever the array, at zero and
-- at every value whose sign bit is set: for `writeUint32` and `writeUint64` the upper half of their
-- range.
pub write_ints_fault :
    (b : ByteArray) (u v : ℕ)
    → Unwritable 32 u
    → Unwritable 64 v
    → (write_int32 b u ≡ none)
      × (write_uint32 b u ≡ none)
      × (write_int64 b v ≡ none)
      × (write_uint64 b v ≡ none)
unfolding write_int32 write_uint32 write_int64 write_uint64
write_ints_fault b u v hu hv = (narrow, narrow, wide, wide)
  where
    narrow : (groups 32 5 u >>= λ tmp. mark_last tmp >>= λ marked. write b marked) ≡ none
    narrow = bind_none (groups 32 5 u) b (groups-Unwritable 32 stays32 (omega arith) 5 u hu)

    wide : (groups 64 10 v >>= λ tmp. mark_last tmp >>= λ marked. write b marked) ≡ none
    wide = bind_none (groups 64 10 v) b (groups-Unwritable 64 stays64 (omega arith) 10 v hv)

-- On an array with no byte left a round changes nothing.
read_rounds_empty :
    (widen : ℕ → ℕ) (rounds n val : ℕ) (b : ByteArray)
    → b.size ≡ 0
    → n + rounds ≡ 6
    → read_rounds widen rounds n val 0 b ≡ none
unfolding read_rounds
read_rounds_empty widen zero n val b e h = refl
read_rounds_empty widen (suc rounds) n val b e h =
    rw (read_short b 1 (omega arith)) (elim (Bool-cases (ltb (n * 7) 32)) [
      | inl t ↦ rw t (
          read_rounds_empty widen rounds (n + 1) (bit_or val (widen (0 * 2 ^ (n * 7) % 2 ^ 32))) b e
            (omega arith))
      | inr f ↦ rw f
    ])

-- None of the four readers returns on an array with no byte left.
pub read_ints_empty :
    (b : ByteArray)
    → b.size ≡ 0
    → (read_int32 b ≡ none)
      × (read_uint32 b ≡ none)
      × (read_int64 b ≡ none)
      × (read_uint64 b ≡ none)
unfolding read_int32 read_uint32 read_int64 read_uint64
read_ints_empty b e = (narrow, narrow, wide, wide)
  where
    narrow : read_rounds keep 6 0 0 0 b ≡ none
    narrow = read_rounds_empty keep 6 0 0 b e (omega arith)

    wide : read_rounds sign_extend 6 0 0 0 b ≡ none
    wide = read_rounds_empty sign_extend 6 0 0 b e (omega arith)

-- At the sixth round the shift is undefined, whatever is read.
read_rounds_sixth :
    (widen : ℕ → ℕ) (rounds val tmp : ℕ) (b : ByteArray)
    → read_rounds widen rounds 5 val tmp b ≡ none
unfolding read_rounds
read_rounds_sixth widen zero val tmp b = refl
read_rounds_sixth widen (suc rounds) val tmp b = elim (Option-cases (read b 1)) [
  | inl e ↦ rw e
  | inr (r, e) ↦ rw e
]

-- A value of more than `k` further groups takes the reader through `k` further rounds.
read_rounds_long :
    (widen : ℕ → ℕ) (fuel rounds k n val tmp v : ℕ) (b : ByteArray) (rest : List ℕ)
    → IsValid b
    → n + k ≡ 5
    → 128 ^ k ≤ v
    → v < 128 ^ fuel
    → contents b ≡ varint fuel v ++ rest
    → read_rounds widen rounds n val tmp b ≡ none
unfolding read_rounds
read_rounds_long widen fuel rounds zero n val tmp v b rest vb h g l e =
    let five : n ≡ 5 = omega arith in rw five (read_rounds_sixth widen rounds val tmp b)
read_rounds_long widen fuel zero (suc k) n val tmp v b rest vb h g l e = refl
read_rounds_long widen zero (suc rounds) (suc k) n val tmp v b rest vb h g l e =
    absurd (omega (arith, one-le-pow (suc k) 128 (omega arith)))
read_rounds_long widen (suc fuel) (suc rounds) (suc k) n val tmp v b rest vb h g l e =
    let big : 128 ≤ v = omega (arith, pow-succ' 128 k, one-le-pow k 128 (omega arith)) in
    let (c, rd, vc, cr, _, _) =
      read_front b ((v % 128) ∷ []) (varint fuel (v / 128) ++ rest) 1 vb
        (e ∙ ap (λ zs. zs ++ rest) (varint_large fuel v big)) refl in
    let top : leb 128 (v % 128) ≡ false = ground arith in
    rw (rd, lt→ltb (n * 7) 32 (omega arith), top)
      (read_rounds_long widen fuel rounds k (n + 1) _ _ (v / 128) c rest vc (omega arith)
        (omega (arith, pow-succ' 128 k)) (omega (arith, pow-succ' 128 fuel)) cr)

-- A value of 2 ^ 35 or more, which `writeInt64` encodes, is read back by none of the readers:
-- `tmp << (n*7)` is a shift of an `int` by 35.
pub read_ints_long :
    (fuel v : ℕ) (b : ByteArray) (rest : List ℕ)
    → IsValid b
    → 2 ^ 35 ≤ v
    → v < 128 ^ fuel
    → contents b ≡ varint fuel v ++ rest
    → (read_int32 b ≡ none)
      × (read_uint32 b ≡ none)
      × (read_int64 b ≡ none)
      × (read_uint64 b ≡ none)
unfolding read_int32 read_uint32 read_int64 read_uint64
read_ints_long fuel v b rest vb h l e = (narrow, narrow, wide, wide)
  where
    narrow : read_rounds keep 6 0 0 0 b ≡ none
    narrow = read_rounds_long keep fuel 6 5 0 0 0 v b rest vb refl (omega arith) l e

    wide : read_rounds sign_extend 6 0 0 0 b ≡ none
    wide = read_rounds_long sign_extend fuel 6 5 0 0 0 v b rest vb refl (omega arith) l e
