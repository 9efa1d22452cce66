-- ===== src/ByteArray/Codec/Rounds.antt =====
-- The reading loop of src/byteArray.cc on integers in groups of seven bits.
use native.Mathlib.Nat.{pow-succ', mul-le-mul_right}
use native.Mathlib.Numerals.{towards_suc}
use proj.Base.{
  ℕ, zero, suc, ◌+◌, ◌*◌, ◌/◌, ◌%◌, ◌^◌, ◌≤◌, ◌<◌, ◌≡◌, refl, ap, ◌∙◌, true, false, Option, some,
  List, [], ◌∷◌, ◌++◌, arith, inl, inr, Bool-cases, ltb, leb, ltb→lt, lt→ltb, if◌then◌else◌,
}
use proj.Base.Bits.{bit_or-disjoint}
use proj.ByteArray.{ByteArray, read}
use proj.ByteArray.Codec.{
  sign_extend, keep, read_rounds, read_int32, read_int64, read_uint32, read_uint64,
}
use proj.ByteArray.Codec.Fixed.{read_front}
use proj.ByteArray.Valid.{IsValid, contents}
use proj.ByteArray.Codec.Varint.{varint, varint_small, varint_large}

pow7 : (n : ℕ) → 2 ^ ((n + 1) * 7) ≡ 2 ^ (n * 7) * 128
pow7 n = ap (λ t. 2 ^ t) regroup ∙ shift (n * 7)
  where
    regroup : (n + 1) * 7 ≡ n * 7 + 7
    regroup = omega arith

    shift : (s : ℕ) → 2 ^ (s + 7) ≡ 2 ^ s * 128
    shift s = simp towards_suc (omega arith)

split_mul : (v p : ℕ) → (v % 128) * p + (v / 128) * (p * 128) ≡ v * p
split_mul v p =
    let e : v ≡ v % 128 + (v / 128) * 128 = omega arith in omega (arith, ap (λ (t : ℕ). t * p) e)

digit-lt : (v val p : ℕ) → val < p → val + (v % 128) * p < p * 128
digit-lt v val p h =
    let le : (v % 128) * p ≤ 127 * p = mul-le-mul_right p (omega arith) in omega arith

-- One round of the reading loop on a byte that is there.
module _ (widen : ℕ → ℕ) (wide : (x : ℕ) → x < 2 ^ 31 → widen x ≡ x) where
  read_round :
      (rounds n val tmp x : ℕ) (b c : ByteArray)
      → read b 1 ≡ some (true, x ∷ [], c)
      → n * 7 < 32
      → val < 2 ^ (n * 7)
      → val + (x % 128) * 2 ^ (n * 7) < 2 ^ 31
      → read_rounds widen (suc rounds) n val tmp b ≡ (
          if leb 128 x
          then some (val + (x % 128) * 2 ^ (n * 7), c)
          else read_rounds widen rounds (n + 1) (val + (x % 128) * 2 ^ (n * 7)) (x % 128) c)
  unfolding read_rounds
  read_round rounds n val tmp x b c e h k l = rw (
    e,
    lt→ltb (n * 7) 32 h,
    fits,
    wide ((x % 128) * 2 ^ (n * 7)) (omega arith),
    bit_or-disjoint (n * 7) val (x % 128) k,
  )
    where
      fits : (x % 128) * 2 ^ (n * 7) % 2 ^ 32 ≡ (x % 128) * 2 ^ (n * 7)
      fits = omega arith

  -- What a reading run at `val` has to give for the value `v` in front of `rest`.
  abbrev Reads : ℕ → ℕ → ℕ → ℕ → ℕ → ByteArray → List ℕ → Type 0
  Reads rounds n val tmp v b rest =
      (c : ByteArray) × (read_rounds widen rounds n val tmp b ≡ some (val + v * 2 ^ (n * 7), c))
      × IsValid c
      × (contents c ≡ rest)

  last_round :
      (rounds n val tmp v : ℕ) (b : ByteArray) (rest : List ℕ)
      → IsValid b
      → v < 128
      → contents b ≡ (v + 128) ∷ rest
      → n ≤ 4
      → val < 2 ^ (n * 7)
      → val + v * 2 ^ (n * 7) < 2 ^ 31
      → Reads (suc rounds) n val tmp v b rest
  last_round rounds n val tmp v b rest vb small e nr lo hi =
      let (c, rd, vc, cr, _, _) = read_front b ((v + 128) ∷ []) rest 1 vb e refl in
      let low : (v + 128) % 128 ≡ v = omega arith in
      let top : leb 128 (v + 128) ≡ true = ground arith in
      (
        c,
        read_round rounds n val tmp (v + 128) b c rd (omega arith) lo (rw low hi) ∙ rw (top, low),
        vc,
        cr,
      )

  middle_round :
      (rounds n val tmp v : ℕ) (b : ByteArray) (rest rest' : List ℕ)
      → IsValid b
      → contents b ≡ (v % 128) ∷ rest
      → n ≤ 4
      → val < 2 ^ (n * 7)
      → val + v * 2 ^ (n * 7) < 2 ^ 31
      → ((c : ByteArray)
          → IsValid c
          → contents c ≡ rest
          → Reads rounds (n + 1) (val + (v % 128) * 2 ^ (n * 7)) (v % 128) (v / 128) c rest')
      → Reads (suc rounds) n val tmp v b rest'
  middle_round rounds n val tmp v b rest rest' vb e nr lo hi next =
      let (c, rd, vc, cr, _, _) = read_front b ((v % 128) ∷ []) rest 1 vb e refl in
      let (d, eq, vd, dr) = next c vc cr in
      let low : (v % 128) % 128 ≡ v % 128 = omega arith in
      let top : leb 128 (v % 128) ≡ false = ground arith in
      let le : val + (v % 128) * 2 ^ (n * 7) < 2 ^ 31 = omega (arith, split_mul v (2 ^ (n * 7))) in
      (
        d,
        read_round rounds n val tmp (v % 128) b c rd (omega arith) lo (rw low le)
            ∙ rw (top, low)
                (eq
                  ∙ ap (λ t. some (t, d)) (rw (pow7 n) (omega (arith, split_mul v (2 ^ (n * 7)))))),
        vd,
        dr,
      )

  -- The reader on an encoded value that fits the rounds that are left: it is added above `val`.
  read_rounds-varint :
      (fuel rounds r n val tmp v : ℕ) (b : ByteArray) (rest : List ℕ)
      → IsValid b
      → 0 < v
      → v < 128 ^ fuel
      → contents b ≡ varint fuel v ++ rest
      → r < rounds
      → n + r ≡ 4
      → v < 8 * 128 ^ r
      → val < 2 ^ (n * 7)
      → val + v * 2 ^ (n * 7) < 2 ^ 31
      → Reads rounds n val tmp v b rest
  read_rounds-varint zero rounds r n val tmp v b rest vb p f e lr nr vr lo hi = absurd (omega arith)
  read_rounds-varint (suc fuel) zero r n val tmp v b rest vb p f e lr nr vr lo hi =
      absurd (omega arith)
  read_rounds-varint (suc fuel) (suc rounds) zero n val tmp v b rest vb p f e lr nr vr lo hi =
      last_round rounds n val tmp v b rest vb (omega arith)
        (e ∙ ap (λ zs. zs ++ rest) (varint_small fuel v (omega arith))) (omega arith) lo hi
  read_rounds-varint (suc fuel) (suc rounds) (suc r) n val tmp v b rest vb p f e lr nr vr lo hi =
      elim (Bool-cases (ltb v 128)) [
        | inl small ↦
            last_round rounds n val tmp v b rest vb (ltb→lt v 128 small)
              (e ∙ ap (λ zs. zs ++ rest) (varint_small fuel v (ltb→lt v 128 small))) (omega arith)
              lo hi
        | inr large ↦
            let big : 128 ≤ v = ground arith in
            middle_round rounds n val tmp v b (varint fuel (v / 128) ++ rest) rest vb
              (e ∙ ap (λ zs. zs ++ rest) (varint_large fuel v big)) (omega arith) lo hi
              (λ c vc cr.
                read_rounds-varint fuel rounds r (n + 1) (val + (v % 128) * 2 ^ (n * 7)) (v % 128)
                  (v / 128) c rest vc (omega arith) (omega (arith, pow-succ' 128 fuel)) cr
                  (omega arith) (omega arith) (omega (arith, pow-succ' 128 r))
                  (rw (pow7 n) (digit-lt v val (2 ^ (n * 7)) lo))
                  (rw (pow7 n) (omega (arith, split_mul v (2 ^ (n * 7))))))
      ]

-- `f` reads `v` and leaves a valid array of `rest`.
abbrev pub ReadsBack : (ByteArray → Option (ℕ × ByteArray)) → ℕ → ByteArray → List ℕ → Type 0
ReadsBack f v b rest = (c : ByteArray) × (f b ≡ some (v, c)) × IsValid c × (contents c ≡ rest)

-- The four readers give back a positive value below 2 ^ 31 whose encoding, of any number of
-- groups, stands first, and leave the bytes behind it.
pub read_ints-varint :
    (fuel v : ℕ) (b : ByteArray) (rest : List ℕ)
    → IsValid b
    → 0 < v
    → v < 2 ^ 31
    → v < 128 ^ fuel
    → contents b ≡ varint fuel v ++ rest
    → ReadsBack read_int32 v b rest
      × ReadsBack read_uint32 v b rest
      × ReadsBack read_int64 v b rest
      × ReadsBack read_uint64 v b rest
unfolding read_int32 read_uint32 read_int64 read_uint64
read_ints-varint fuel v b rest vb p h f e = (narrow, narrow, wide, wide)
  where
    start :
        (widen : ℕ → ℕ)
        → ((x : ℕ) → x < 2 ^ 31 → widen x ≡ x)
        → ReadsBack (read_rounds widen 6 0 0 0) v b rest
    start widen w =
        let (c, eq, vc, cr) =
          read_rounds-varint widen w fuel 6 4 0 0 0 v b rest vb p f e (omega arith) refl
            (omega arith) (omega arith) (omega arith) in
        (c, eq ∙ ap (λ t. some (t, c)) (omega arith), vc, cr)

    narrow : ReadsBack (read_rounds keep 6 0 0 0) v b rest
    narrow = start keep (λ x _. refl)

    wide : ReadsBack (read_rounds sign_extend 6 0 0 0) v b rest
    wide = start sign_extend (λ x l. rw (lt→ltb x (2 ^ 31) l))
