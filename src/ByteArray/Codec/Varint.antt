-- ===== src/ByteArray/Codec/Varint.antt =====
-- Integers in groups of seven bits, lowest first, the last group marked by the top bit.
use mathlib.Core.Option
use native.Mathlib.Nat.{pow-succ'}
use proj.Base.{
  ℕ, zero, suc, ◌+◌, ◌-◌, ◌/◌, ◌%◌, ◌^◌, ◌≤◌, ◌<◌, ◌≡◌, refl, ap, ◌∙◌, false, Option, none, some,
  List, [], ◌∷◌, arith, inl, inr, Bool-cases, ltb, ltb→lt, lt→ltb, length, if◌then◌else◌, ◌>>=◌,
  ◌==◌,
}
use proj.Base.Words.{size_mod}
use proj.Base.Bits.{bit_or-disjoint}
use proj.ByteArray.{ByteArray, write}
use proj.ByteArray.Codec.{groups, mark_last, write_int32, write_int64}
use proj.ByteArray.Valid.{IsValid}
use proj.ByteArray.Write.{Appended, write-appends}

-- The encoding, by its description: at most `fuel` groups.
abbrev pub varint : ℕ → ℕ → List ℕ
varint zero v = []
varint (suc fuel) v =
    let rest = (v % 128) ∷ varint fuel (v / 128) in if ltb v 128 then (v + 128) ∷ [] else rest

pub length-varint : (fuel v : ℕ) → length (varint fuel v) ≤ fuel
length-varint zero v = omega arith
length-varint (suc fuel) v = ground (arith, length-varint fuel (v / 128))

pub varint_small : (fuel v : ℕ) → v < 128 → varint (suc fuel) v ≡ (v + 128) ∷ []
varint_small fuel v h = rw (lt→ltb v 128 h)

pub varint_large : (fuel v : ℕ) → 128 ≤ v → varint (suc fuel) v ≡ (v % 128) ∷ varint fuel (v / 128)
varint_large fuel v h = let e : ltb v 128 ≡ false = ground arith in rw e

mark_cons :
    (g : ℕ) (o : Option (List ℕ)) (ms : List ℕ)
    → (o >>= mark_last) ≡ some ms
    → (Option.map (λ gs. g ∷ gs) o >>= mark_last) ≡ some (g ∷ ms)
unfolding mark_last
mark_cons g none ms e = cc
mark_cons g (some []) ms e = cc
mark_cons g (some (h ∷ gs)) ms e = ap (λ o. Option.map (λ ms. g ∷ ms) o) e

pub groups_zero : (w room : ℕ) → groups w room 0 ≡ some []
unfolding groups
groups_zero w zero = refl
groups_zero w (suc room) = refl

groups_step :
    (w room v : ℕ)
    → 0 < v
    → v < 2 ^ (w - 1)
    → groups w (suc room) v ≡ Option.map (λ gs. (v % 128) ∷ gs) (groups w room (v / 128))
unfolding groups
groups_step w room v h k = rw (lt→ltb v (2 ^ (w - 1)) k) (elim (Bool-cases (v == 0)) [
  | inl e ↦ absurd (ground arith)
  | inr e ↦ rw e (ap (λ t. Option.map (λ gs. (v % 128) ∷ gs) (groups w room t)) (omega arith))
])

-- What the loop of `writeInt32` leaves in `tmp`, for a positive value that its groups can hold.
groups_marked :
    (w room v : ℕ)
    → 0 < v
    → v < 2 ^ (w - 1)
    → v < 128 ^ room
    → (groups w room v >>= mark_last) ≡ some (varint room v)
unfolding mark_last
groups_marked w zero v h k l = absurd (omega arith)
groups_marked w (suc room) v h k l = elim (Bool-cases (ltb v 128)) [
  | inl small ↦
      let lt = ltb→lt v 128 small in
      rw (groups_step w room v h k, small)
        (ap (λ t. Option.map (λ gs. (v % 128) ∷ gs) (groups w room t) >>= mark_last) {y = 0}
            (omega arith)
          ∙ ap (λ o. Option.map (λ gs. (v % 128) ∷ gs) o >>= mark_last) (groups_zero w room)
          ∙ ap (λ t. some (t ∷ [])) (omega (arith, bit_or-disjoint 7 (v % 128) 1 (omega arith))))
  | inr large ↦
      rw (groups_step w room v h k, large)
        (mark_cons (v % 128) (groups w room (v / 128)) (varint room (v / 128)) (
          groups_marked w room (v / 128) (ground arith) (omega arith)
            (omega (arith, pow-succ' 128 room))))
]

bind_assoc :
    (o : Option (List ℕ)) (b : ByteArray) (ms : List ℕ)
    → (o >>= mark_last) ≡ some ms
    → (o >>= λ tmp. mark_last tmp >>= λ marked. write b marked) ≡ write b ms
bind_assoc none b ms e = cc
bind_assoc (some gs) b ms e = ap (λ (o : Option (List ℕ)). o >>= λ marked. write b marked) e

-- `writeInt32` appends the encoding of every positive value in at most five bytes.
pub write_int32-Appended :
    (b : ByteArray) (v : ℕ)
    → IsValid b
    → b.size + 5 + b.basesize < size_mod
    → 0 < v
    → v < 2 ^ 31
    → (c : ByteArray) × (write_int32 b v ≡ some c) × Appended b (varint 5 v) c
unfolding write_int32
write_int32-Appended b v vb k p h =
    let (c, eq, a) = write-appends b (varint 5 v) vb (omega (arith, length-varint 5 v)) in
    (
      c,
      bind_assoc (groups 32 5 v) b (varint 5 v) (groups_marked 32 5 v p (omega arith) (omega arith))
          ∙ eq,
      a,
    )

-- `writeInt64` appends the encoding of every positive value in at most ten bytes.
pub write_int64-Appended :
    (b : ByteArray) (v : ℕ)
    → IsValid b
    → b.size + 10 + b.basesize < size_mod
    → 0 < v
    → v < 2 ^ 63
    → (c : ByteArray) × (write_int64 b v ≡ some c) × Appended b (varint 10 v) c
unfolding write_int64
write_int64-Appended b v vb k p h =
    let (c, eq, a) = write-appends b (varint 10 v) vb (omega (arith, length-varint 10 v)) in
    (
      c,
      bind_assoc (groups 64 10 v) b (varint 10 v)
            (groups_marked 64 10 v p (omega arith) (omega arith))
          ∙ eq,
      a,
    )
