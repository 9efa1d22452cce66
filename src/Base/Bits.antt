-- ===== src/Base/Bits.antt =====
-- Laws of `bit_or` and `bit_and` at variables, from the definition that the native operations stand
-- for.
use Prim.Native.Nat.{min, max, bit_or, bit_and, digits, bitwise, bit_or-bitwise, bit_and-bitwise}
use proj.Base.{
  ℕ, zero, suc, ◌+◌, ◌*◌, ◌/◌, ◌%◌, ◌^◌, ◌≤◌, ◌<◌, ◌≡◌, refl, ap, ap₂, sym, ◌∙◌, ◌-◌, arith,
}
use native.Mathlib.Nat.{
  pow-suc, one-le-pow, mod-lt, mod-eq-sub-div-mul, div-mul-le_self, div-lt_iff_lt-mul,
}

module _ (rest : ℕ → ℕ) (digit : ℕ → ℕ → ℕ) where
  -- Fuel beyond the first number's size changes nothing.
  one_spare : (n a b : ℕ) → a ≤ n → digits rest digit (suc n) a b ≡ digits rest digit n a b
  one_spare zero zero b h = refl
  one_spare (suc n) zero b h = refl
  one_spare zero (suc a) b h = absurd (omega arith)
  one_spare (suc n) (suc a) b h =
      ap (λ (t : ℕ). t * 2 + digit (suc a % 2) (b % 2))
        (one_spare n (suc a / 2) (b / 2) (omega arith))

  spare : (k n a b : ℕ) → a ≤ n → digits rest digit (k + n) a b ≡ digits rest digit n a b
  spare zero n a b h = ap (λ (t : ℕ). digits rest digit t a b) {x = 0 + n} {y = n} (omega arith)
  spare (suc k) n a b h =
      ap (λ (t : ℕ). digits rest digit t a b) {x = suc k + n} {y = suc (k + n)} (omega arith)
      ∙ one_spare (k + n) a b (omega arith)
      ∙ spare k n a b h

  -- The lowest digit, split off.
  last_digit :
      ((b : ℕ) → rest b ≡ rest (b / 2) * 2 + digit 0 (b % 2))
      → (a b : ℕ)
      → bitwise rest digit a b ≡ bitwise rest digit (a / 2) (b / 2) * 2 + digit (a % 2) (b % 2)
  last_digit end zero b = end b
  last_digit end (suc a) b =
      let half = suc a / 2 in
      let all : (a - half) + half ≡ a = omega arith in
      ap (λ (t : ℕ). t * 2 + digit (suc a % 2) (b % 2))
        (ap (λ (t : ℕ). digits rest digit t half (b / 2)) (sym all)
          ∙ spare (a - half) half half (b / 2) (omega arith))

pub or_last : (a b : ℕ) → bit_or a b ≡ bit_or (a / 2) (b / 2) * 2 + max (a % 2) (b % 2)
or_last a b = omega (
  arith,
  last_digit (λ t. t) max (λ t. omega arith) a b,
  bit_or-bitwise a b,
  bit_or-bitwise (a / 2) (b / 2),
)

pub and_last : (a b : ℕ) → bit_and a b ≡ bit_and (a / 2) (b / 2) * 2 + min (a % 2) (b % 2)
and_last a b = omega (
  arith,
  last_digit (λ t. 0) min (λ t. omega arith) a b,
  bit_and-bitwise a b,
  bit_and-bitwise (a / 2) (b / 2),
)

double-pow : (k b : ℕ) → b * 2 ^ suc k ≡ b * 2 ^ k + b * 2 ^ k
double-pow k b = rw (pow-suc 2 k) (grind arith)

half_double : (t : ℕ) → (t + t) / 2 ≡ t
half_double t = omega arith

-- Digits that do not overlap are added.
pub bit_or-disjoint : (k a b : ℕ) → a < 2 ^ k → bit_or a (b * 2 ^ k) ≡ a + b * 2 ^ k
bit_or-disjoint zero zero b h = omega (arith, bit_or-bitwise 0 (b * 1))
bit_or-disjoint zero (suc a) b h = absurd (omega arith)
bit_or-disjoint (suc k) a b h = rw (double-pow k b) (
    omega (
      arith,
      or_last a (b * 2 ^ k + b * 2 ^ k),
      ap (λ (t : ℕ). bit_or (a / 2) t) (half_double (b * 2 ^ k)),
      bit_or-disjoint k (a / 2) b (omega (arith, pow-suc 2 k)),
    ))

or_zero_below : (n a : ℕ) → a ≤ n → bit_or a 0 ≡ a
or_zero_below zero zero h = bit_or-bitwise 0 0
or_zero_below zero (suc a) h = absurd (omega arith)
or_zero_below (suc n) a h = omega (arith, or_last a 0, or_zero_below n (a / 2) (omega arith))

pub and_zero_below : (n a : ℕ) → a ≤ n → bit_and a 0 ≡ 0
and_zero_below zero zero h = bit_and-bitwise 0 0
and_zero_below zero (suc a) h = absurd (omega arith)
and_zero_below (suc n) a h = omega (arith, and_last a 0, and_zero_below n (a / 2) (omega arith))

-- Low bits set by a mask.
or_low_bits : (k q r : ℕ) → r < 2 ^ k → bit_or (q * 2 ^ k + r) (2 ^ k - 1) ≡ q * 2 ^ k + (2 ^ k - 1)
or_low_bits zero q r h = omega (arith, or_zero_below (q * 1 + r) (q * 1 + r) (omega arith))
or_low_bits (suc k) q r h =
    let p : 2 ^ suc k ≡ 2 ^ k + 2 ^ k = omega (arith, pow-suc 2 k) in
    let big : 1 ≤ 2 ^ k = one-le-pow k 2 (omega arith) in
    let a = (q * 2 ^ suc k + r) / 2 in
    let e : a ≡ q * 2 ^ k + r / 2 = omega (arith, double-pow k q) in
    let m : (2 ^ suc k - 1) / 2 ≡ 2 ^ k - 1 = omega arith in
    omega (
      arith,
      or_last (q * 2 ^ suc k + r) (2 ^ suc k - 1),
      ap₂ bit_or e m,
      or_low_bits k q (r / 2) (omega arith),
      double-pow k q,
    )

-- A number below `2 ^ j` is kept by `j` set bits.
and_all_bits : (j q : ℕ) → q < 2 ^ j → bit_and q (2 ^ j - 1) ≡ q
and_all_bits zero q h = omega (arith, and_zero_below q q (omega arith))
and_all_bits (suc j) q h =
    let p : 2 ^ suc j ≡ 2 ^ j + 2 ^ j = omega (arith, pow-suc 2 j) in
    let big : 1 ≤ 2 ^ j = one-le-pow j 2 (omega arith) in
    let m : (2 ^ suc j - 1) / 2 ≡ 2 ^ j - 1 = omega arith in
    omega (
      arith,
      and_last q (2 ^ suc j - 1),
      ap (λ (t : ℕ). bit_and (q / 2) t) m,
      and_all_bits j (q / 2) (omega arith),
    )

-- Low bits cleared by a mask.
and_high_bits :
    (k j q r : ℕ)
    → r < 2 ^ k
    → q < 2 ^ j
    → bit_and (q * 2 ^ k + r) ((2 ^ j - 1) * 2 ^ k) ≡ q * 2 ^ k
and_high_bits zero j q r h g =
    ap₂ bit_and {x = q * 1 + r} {y = q} {u = (2 ^ j - 1) * 1} {v = 2 ^ j - 1} (omega arith)
      (omega arith)
    ∙ and_all_bits j q g
    ∙ omega arith
and_high_bits (suc k) j q r h g =
    let m : ((2 ^ j - 1) * 2 ^ suc k) / 2 ≡ (2 ^ j - 1) * 2 ^ k =
      omega (arith, double-pow k (2 ^ j - 1)) in
    let e : (q * 2 ^ suc k + r) / 2 ≡ q * 2 ^ k + r / 2 = omega (arith, double-pow k q) in
    omega (
      arith,
      and_last (q * 2 ^ suc k + r) ((2 ^ j - 1) * 2 ^ suc k),
      ap₂ bit_and e m,
      and_high_bits k j q (r / 2) (omega (arith, pow-suc 2 k)) g,
      double-pow k q,
      double-pow k (2 ^ j - 1),
    )

two_pow_add : (k j : ℕ) → 2 ^ j * 2 ^ k ≡ 2 ^ (j + k)
two_pow_add zero j = omega (arith, ap (λ (t : ℕ). 2 ^ t) {x = j + 0} {y = j} (omega arith))
two_pow_add (suc k) j =
    double-pow k (2 ^ j)
    ∙ ap₂ (λ (a b : ℕ). a + b) (two_pow_add k j) (two_pow_add k j)
    ∙ omega (arith, pow-suc 2 (j + k))
    ∙ ap (λ (t : ℕ). 2 ^ t) {x = suc (j + k)} {y = j + suc k} (omega arith)

pred_mul : (a b : ℕ) → (a - 1) * b ≡ a * b - b
pred_mul zero b = omega arith
pred_mul (suc a) b = grind arith

div_pow_below : (k j a : ℕ) → a < 2 ^ (j + k) → a / 2 ^ k < 2 ^ j
div_pow_below k j a h =
    (div-lt_iff_lt-mul (one-le-pow k 2 (omega arith))).1 (omega (arith, two_pow_add k j))

-- `a | ((1 << k) - 1)`
pub bit_or_mask : (k a : ℕ) → bit_or a (2 ^ k - 1) ≡ a - a % 2 ^ k + (2 ^ k - 1)
bit_or_mask k a =
    ap (λ (t : ℕ). bit_or t (2 ^ k - 1)) {y = a / 2 ^ k * 2 ^ k + a % 2 ^ k}
      (omega (arith, mod-eq-sub-div-mul a (2 ^ k), div-mul-le_self a (2 ^ k)))
    ∙ or_low_bits k (a / 2 ^ k) (a % 2 ^ k) (mod-lt a (one-le-pow k 2 (omega arith)))
    ∙ omega (arith, mod-eq-sub-div-mul a (2 ^ k), div-mul-le_self a (2 ^ k))

-- `a & ~((1 << k) - 1)` of numbers of `j + k` bits
pub bit_and_mask :
    (k j a : ℕ) → a < 2 ^ (j + k) → bit_and a (2 ^ (j + k) - 1 - (2 ^ k - 1)) ≡ a - a % 2 ^ k
bit_and_mask k j a h =
    ap₂ bit_and {y = a / 2 ^ k * 2 ^ k + a % 2 ^ k} {v = (2 ^ j - 1) * 2 ^ k}
      (omega (arith, mod-eq-sub-div-mul a (2 ^ k), div-mul-le_self a (2 ^ k)))
      (omega (arith, two_pow_add k j, pred_mul (2 ^ j) (2 ^ k), one-le-pow k 2 (omega arith)))
    ∙ and_high_bits k j (a / 2 ^ k) (a % 2 ^ k) (mod-lt a (one-le-pow k 2 (omega arith)))
        (div_pow_below k j a h)
    ∙ omega (arith, mod-eq-sub-div-mul a (2 ^ k), div-mul-le_self a (2 ^ k))
