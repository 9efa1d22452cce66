-- ===== src/Swap.antt =====
-- src/bswap.hpp: the conversions between the host's byte order and a fixed one.
use mathlib.Core.List.{reverse, reverse-reverse, reverse-cons}
use native.Mathlib.Nat.{pow-succ'}
use proj.Base.{
  ℕ, zero, suc, ◌+◌, ◌*◌, ◌/◌, ◌%◌, ◌^◌, ◌<◌, ◌≡◌, refl, ap, ◌∙◌, List, [], ◌∷◌, arith, All,
  All-append, length, length-append,
}

-- `TADPOLE_BYTE_ORDER`
pub data Endian : Type 0 where
  little big : Endian

-- The bytes of a `w`-byte integer, the lowest first, and back.
abbrev pub le_bytes : ℕ → ℕ → List ℕ
le_bytes zero v = []
le_bytes (suc w) v = (v % 256) ∷ le_bytes w (v / 256)

abbrev pub of_le_bytes : List ℕ → ℕ
of_le_bytes [] = 0
of_le_bytes (x ∷ xs) = x + 256 * of_le_bytes xs

-- `bswap_16`, `bswap_32` and `bswap_64`, by the width in bytes.
unfoldable pub byteswap : ℕ → ℕ → ℕ
byteswap w v = of_le_bytes (reverse (le_bytes w v))

pub byteswap_on_big_endian : Endian → ℕ → ℕ → ℕ
byteswap_on_big_endian Endian.little w v = v
byteswap_on_big_endian Endian.big w v = byteswap w v

unfoldable pub byteswap_on_little_endian : Endian → ℕ → ℕ → ℕ
byteswap_on_little_endian Endian.little w v = byteswap w v
byteswap_on_little_endian Endian.big w v = v

-- What a `w`-byte integer looks like in the host's memory, and the integer that such bytes are.
unfoldable pub image : Endian → ℕ → ℕ → List ℕ
image Endian.little w v = le_bytes w v
image Endian.big w v = reverse (le_bytes w v)

unfoldable pub value : Endian → List ℕ → ℕ
value Endian.little bs = of_le_bytes bs
value Endian.big bs = of_le_bytes (reverse bs)

abbrev pub IsByte : ℕ → Type 0
IsByte x = x < 256

pub length-le_bytes : (w v : ℕ) → length (le_bytes w v) ≡ w
length-le_bytes zero v = refl
length-le_bytes (suc w) v = ap suc (length-le_bytes w (v / 256))

le_bytes-IsByte : (w v : ℕ) → All IsByte (le_bytes w v)
le_bytes-IsByte zero v = tt
le_bytes-IsByte (suc w) v = (omega arith, le_bytes-IsByte w (v / 256))

pub of_le_bytes-le_bytes : (w v : ℕ) → v < 256 ^ w → of_le_bytes (le_bytes w v) ≡ v
of_le_bytes-le_bytes zero v h = omega arith
of_le_bytes-le_bytes (suc w) v h =
    omega (arith, of_le_bytes-le_bytes w (v / 256) (omega (arith, pow-succ' 256 w)))

pub le_bytes-of_le_bytes :
    (bs : List ℕ) → All IsByte bs → le_bytes (length bs) (of_le_bytes bs) ≡ bs
le_bytes-of_le_bytes [] h = refl
le_bytes-of_le_bytes (x ∷ xs) (hx, h) =
    ap (λ y. y ∷ le_bytes (length xs) ((x + 256 * of_le_bytes xs) / 256)) (omega arith)
    ∙ ap (λ t. x ∷ le_bytes (length xs) t) (omega arith)
    ∙ ap (λ ys. x ∷ ys) (le_bytes-of_le_bytes xs h)

length-reverse : (bs : List ℕ) → length (reverse bs) ≡ length bs
length-reverse [] = refl
length-reverse (x ∷ xs) =
    rw (reverse-cons x xs) (omega (arith, length-append (reverse xs) (x ∷ []), length-reverse xs))

reverse-IsByte : (bs : List ℕ) → All IsByte bs → All IsByte (reverse bs)
reverse-IsByte [] h = tt
reverse-IsByte (x ∷ xs) h =
    rw (reverse-cons x xs)
      (All-append IsByte (reverse xs) (x ∷ []) (reverse-IsByte xs h.1) (h.0, tt))

le_bytes-byteswap : (w v : ℕ) → le_bytes w (byteswap w v) ≡ reverse (le_bytes w v)
unfolding byteswap
le_bytes-byteswap w v =
    ap (λ k. le_bytes k (of_le_bytes bs)) len
    ∙ le_bytes-of_le_bytes bs (reverse-IsByte _ (le_bytes-IsByte w v))
  where
    bs : List ℕ
    bs = reverse (le_bytes w v)

    len : w ≡ length bs
    len = omega (arith, length-reverse (le_bytes w v), length-le_bytes w v)

byteswap_lem : (w v : ℕ) → byteswap w v ≡ of_le_bytes (reverse (le_bytes w v))
unfolding byteswap
byteswap_lem w v = refl

-- Swapping the bytes of an integer twice gives it back, at every width.
pub byteswap-byteswap : (w v : ℕ) → v < 256 ^ w → byteswap w (byteswap w v) ≡ v
byteswap-byteswap w v h =
    byteswap_lem w (byteswap w v)
    ∙ ap (λ bs. of_le_bytes (reverse bs)) (le_bytes-byteswap w v)
    ∙ ap of_le_bytes (reverse-reverse (le_bytes w v))
    ∙ of_le_bytes-le_bytes w v h

-- Whatever the host's byte order, the memory of a swapped integer is its little-endian form.
pub image-byteswap_on_big_endian :
    (host : Endian) (w v : ℕ) → image host w (byteswap_on_big_endian host w v) ≡ le_bytes w v
unfolding image byteswap_on_big_endian
image-byteswap_on_big_endian Endian.little w v = refl
image-byteswap_on_big_endian Endian.big w v =
    ap reverse (le_bytes-byteswap w v) ∙ reverse-reverse (le_bytes w v)

-- Whatever the host's byte order, little-endian bytes are read back as their integer.
pub byteswap_on_big_endian-value :
    (host : Endian) (w v : ℕ)
    → v < 256 ^ w
    → byteswap_on_big_endian host w (value host (le_bytes w v)) ≡ v
unfolding byteswap_on_big_endian value byteswap
byteswap_on_big_endian-value Endian.little w v h = of_le_bytes-le_bytes w v h
byteswap_on_big_endian-value Endian.big w v h = byteswap-byteswap w v h

-- Network byte order: the highest byte first.
abbrev pub network : ℕ → ℕ → List ℕ
network w v = reverse (le_bytes w v)

abbrev pub of_network : List ℕ → ℕ
of_network bs = of_le_bytes (reverse bs)

pub length-network : (w v : ℕ) → length (network w v) ≡ w
length-network w v = length-reverse (le_bytes w v) ∙ length-le_bytes w v

pub network-IsByte : (w v : ℕ) → All IsByte (network w v)
network-IsByte w v = reverse-IsByte _ (le_bytes-IsByte w v)

pub of_network-network : (w v : ℕ) → v < 256 ^ w → of_network (network w v) ≡ v
of_network-network w v h =
    ap of_le_bytes (reverse-reverse (le_bytes w v)) ∙ of_le_bytes-le_bytes w v h

-- Whatever the host's byte order, the memory of a swapped integer is its network form.
pub image-byteswap_on_little_endian :
    (host : Endian) (w v : ℕ) → image host w (byteswap_on_little_endian host w v) ≡ network w v
unfolding image byteswap_on_little_endian
image-byteswap_on_little_endian Endian.little w v = le_bytes-byteswap w v
image-byteswap_on_little_endian Endian.big w v = refl

-- Whatever the host's byte order, `w` bytes in network order are read as their integer.
pub byteswap_on_little_endian-value :
    (host : Endian) (bs : List ℕ)
    → All IsByte bs
    → byteswap_on_little_endian host (length bs) (value host bs) ≡ of_network bs
unfolding byteswap_on_little_endian value byteswap
byteswap_on_little_endian-value Endian.little bs h =
    ap (λ xs. of_le_bytes (reverse xs)) (le_bytes-of_le_bytes bs h)
byteswap_on_little_endian-value Endian.big bs h = refl

pub length-image : (host : Endian) (w v : ℕ) → length (image host w v) ≡ w
unfolding image
length-image Endian.little w v = length-le_bytes w v
length-image Endian.big w v = length-network w v

pub image-IsByte : (host : Endian) (w v : ℕ) → All IsByte (image host w v)
unfolding image
image-IsByte Endian.little w v = le_bytes-IsByte w v
image-IsByte Endian.big w v = network-IsByte w v

-- An integer is read back from its memory.
pub value-image : (host : Endian) (w v : ℕ) → v < 256 ^ w → value host (image host w v) ≡ v
unfolding value image
value-image Endian.little w v h = of_le_bytes-le_bytes w v h
value-image Endian.big w v h = of_network-network w v h
