-- ===== src/Base/Digits.antt =====
-- The binary digits of a number, and what `bit_and` and `bit_or` do to each of them.
use Prim.Native.Nat.{min, max, bit_and, bit_or}
use native.Mathlib.Decide.{ℕ_discrete}
use native.Mathlib.Nat.{pow-suc}
use proj.Base.{
  ℕ, zero, suc, ◌+◌, ◌-◌, ◌*◌, ◌/◌, ◌%◌, ◌^◌, ◌≤◌, ◌<◌, ◌≡◌, refl, ap, ap₂, ◌∙◌, arith,
  if◌then◌else◌, ◌==◌,
}
use proj.Base.Bits.{or_last, and_last, and_zero_below}

-- The digit at place `k`, and how many of the `n` lowest digits are one.
abbrev pub digit : ℕ → ℕ → ℕ
digit zero v = v % 2
digit (suc k) v = digit k (v / 2)

abbrev pub ones : ℕ → ℕ → ℕ
ones zero v = 0
ones (suc n) v = v % 2 + ones n (v / 2)

pub digit-bit_or : (k a b : ℕ) → digit k (bit_or a b) ≡ max (digit k a) (digit k b)
digit-bit_or zero a b = omega (arith, or_last a b)
digit-bit_or (suc k) a b =
    ap (λ t. digit k t) {y = bit_or (a / 2) (b / 2)} (omega (arith, or_last a b))
    ∙ digit-bit_or k (a / 2) (b / 2)

pub digit-bit_and : (k a b : ℕ) → digit k (bit_and a b) ≡ min (digit k a) (digit k b)
digit-bit_and zero a b = omega (arith, and_last a b)
digit-bit_and (suc k) a b =
    ap (λ t. digit k t) {y = bit_and (a / 2) (b / 2)} (omega (arith, and_last a b))
    ∙ digit-bit_and k (a / 2) (b / 2)

digit-zero : (k : ℕ) → digit k 0 ≡ 0
digit-zero zero = refl
digit-zero (suc k) = digit-zero k

-- A power of two has one digit, and what is left of all ones without it has the others.
pub digit-pow : (k j : ℕ) → digit k (2 ^ j) ≡ (if k == j then 1 else 0)
digit-pow zero zero = refl
digit-pow zero (suc j) = ground (arith, pow-suc 2 j)
digit-pow (suc k) zero = digit-zero k ∙ ground arith
digit-pow (suc k) (suc j) =
    ap (λ t. digit k t) {y = 2 ^ j} (omega (arith, pow-suc 2 j)) ∙ digit-pow k j ∙ ground arith

pub digit-complement : (k w v : ℕ) → k < w → v < 2 ^ w → digit k (2 ^ w - 1 - v) ≡ 1 - digit k v
digit-complement k zero v h g = absurd (omega arith)
digit-complement zero (suc w) v h g = omega (arith, pow-suc 2 w)
digit-complement (suc k) (suc w) v h g =
    ap (λ t. digit k t) {y = 2 ^ w - 1 - v / 2} (omega (arith, pow-suc 2 w))
    ∙ digit-complement k w (v / 2) (omega arith) (omega (arith, pow-suc 2 w))

pub bit_and-pow : (k v : ℕ) → bit_and v (2 ^ k) ≡ digit k v * 2 ^ k
bit_and-pow zero v = omega (arith, and_last v 1, and_zero_below (v / 2) (v / 2) (omega arith))
bit_and-pow (suc k) v =
    let half : 2 ^ suc k / 2 ≡ 2 ^ k = omega (arith, pow-suc 2 k) in
    omega (
      arith,
      and_last v (2 ^ suc k),
      ap (λ (t : ℕ). bit_and (v / 2) t) half,
      bit_and-pow k (v / 2),
      pow-suc 2 k,
      ap (λ (t : ℕ). digit k (v / 2) * t) (pow-suc 2 k),
      twice (digit k (v / 2)) (2 ^ k),
    )
  where
    twice : (a b : ℕ) → a * (b * 2) ≡ a * b * 2
    twice a b = grind arith

bit_and_self : (n v : ℕ) → v ≤ n → bit_and v v ≡ v
bit_and_self zero v h = omega (
  arith,
  and_zero_below v v (omega arith),
  ap₂ bit_and {x = v} {y = 0} {u = v} {v = 0} (omega arith) (omega arith),
)
bit_and_self (suc n) v h = omega (arith, and_last v v, bit_and_self n (v / 2) (omega arith))

-- `v & (v - 1)` is `v` without its lowest one.
pub ones-drop_last :
    (n v : ℕ)
    → 0 < v
    → v < 2 ^ n
    → (ones n (bit_and v (v - 1)) + 1 ≡ ones n v) × (bit_and v (v - 1) < v)
ones-drop_last zero v pos h = absurd (omega arith)
ones-drop_last (suc n) v pos h = elim (ℕ_discrete (v % 2) 1) [
  | yes odd ↦
      let half : (v - 1) / 2 ≡ v / 2 = omega arith in
      let e : bit_and v (v - 1) ≡ v / 2 * 2 = omega (
        arith,
        and_last v (v - 1),
        ap (λ (t : ℕ). bit_and (v / 2) t) half,
        bit_and_self (v / 2) (v / 2) (omega arith),
      ) in
      (
        omega (arith, ap (λ t. ones n t) {x = bit_and v (v - 1) / 2} {y = v / 2} (omega arith)),
        omega arith,
      )
  | no even ↦
      let half : (v - 1) / 2 ≡ v / 2 - 1 = omega arith in
      let e : bit_and v (v - 1) ≡ bit_and (v / 2) (v / 2 - 1) * 2 =
        omega (arith, and_last v (v - 1), ap (λ (t : ℕ). bit_and (v / 2) t) half) in
      let (fewer, below) = ones-drop_last n (v / 2) (omega arith) (omega (arith, pow-suc 2 n)) in
      (
        omega (
          arith,
          ap (λ t. ones n t) {x = bit_and v (v - 1) / 2} {y = bit_and (v / 2) (v / 2 - 1)}
              (omega arith),
        ),
        omega arith,
      )
]

pub ones-none : (n v : ℕ) → v < 2 ^ n → ones n v ≡ 0 → v ≡ 0
ones-none zero v h e = omega arith
ones-none (suc n) v h e =
    omega (arith, pow-suc 2 n, ones-none n (v / 2) (omega (arith, pow-suc 2 n)) (omega arith))

pub ones-below : (n v : ℕ) → ones n v ≤ n
ones-below zero v = omega arith
ones-below (suc n) v = omega (arith, ones-below n (v / 2))

-- A top digit that both have stays.
pub bit_and-top :
    (k a b : ℕ) → 2 ^ k ≤ a → 2 ^ k ≤ b → a < 2 ^ suc k → b < 2 ^ suc k → 2 ^ k ≤ bit_and a b
bit_and-top zero a b ha hb ga gb = omega (arith, and_last a b)
bit_and-top (suc k) a b ha hb ga gb = omega (
  arith,
  and_last a b,
  pow-suc 2 k,
  pow-suc 2 (suc k),
  bit_and-top k (a / 2) (b / 2) (omega (arith, pow-suc 2 k)) (omega (arith, pow-suc 2 k))
      (omega (arith, pow-suc 2 (suc k))) (omega (arith, pow-suc 2 (suc k))),
)
