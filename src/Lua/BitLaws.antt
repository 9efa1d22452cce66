-- ===== src/Lua/BitLaws.antt =====
-- What the functions on bits of src/luaRegister.cc compute.
use Prim.Native.Nat.{bit_and, bit_or}
use native.Mathlib.Decide.{ℕ_discrete}
use native.Mathlib.Nat.{le_trans, pow-le-pow_right, one-le-pow}
use proj.Base.{
  ℕ, zero, suc, ◌+◌, ◌-◌, ◌/◌, ◌^◌, ◌≤◌, ◌<◌, ◌≡◌, refl, sym, ap, ◌∙◌, ◌⊎◌, inl, inr, true, false,
  not, ◌&&◌, none, some, if◌then◌else◌, leb, ltb, ◌==◌, arith, Bool-cases, ltb→lt,
}
use proj.Base.Digits.{
  digit, ones, digit-bit_or, digit-bit_and, digit-pow, digit-complement, bit_and-pow,
  ones-drop_last, ones-none, ones-below, bit_and-top,
}
use proj.Lua.{Stack, Pushed}
use proj.Lua.Bits.{set_bit, get_bit, amount, get_bit_amount}

zero_plus : (n : ℕ) → 0 + n ≡ n
zero_plus n = omega arith

ones-zero : (w : ℕ) → ones w 0 ≡ 0
ones-zero zero = refl
ones-zero (suc w) = omega (arith, ones-zero w)

amount-ones :
    (w fuel val amt : ℕ)
    → val < 2 ^ w
    → val < 2 ^ 31
    → ones w val ≤ fuel
    → amount fuel val amt ≡ some (amt + ones w val)
unfolding amount
amount-ones w zero val amt h small enough =
    let z : val ≡ 0 = ones-none w val h (omega arith) in ground arith
amount-ones w (suc fuel) val amt h small enough = elim (ℕ_discrete val 0) [
  | yes z ↦ ground (arith, ap (λ (t : ℕ). ones w t) z, ones-zero w)
  | no n ↦
      let (fewer, below) = ones-drop_last w val (omega arith) h in
      let t : (val == 0) ≡ false = ground arith in
      let u : (val == 2 ^ 31) ≡ false = ground arith in
      rw (t, u)
        (amount-ones w fuel (bit_and val (val - 1)) (amt + 1) (omega arith) (omega arith)
            (omega arith)
          ∙ ap (λ t. some t) (omega arith))
]

amount-negative : (fuel val amt : ℕ) → 2 ^ 31 ≤ val → val < 2 ^ 32 → amount fuel val amt ≡ none
unfolding amount
amount-negative zero val amt h g = ground arith
amount-negative (suc fuel) val amt h g = elim (ℕ_discrete val (2 ^ 31)) [
  | yes e ↦ ground arith
  | no n ↦
      let t : (val == 0) ≡ false = ground arith in
      let u : (val == 2 ^ 31) ≡ false = ground arith in
      let below = (ones-drop_last 32 val (omega arith) g).1 in
      rw (t, u)
        (amount-negative fuel (bit_and val (val - 1)) (amt + 1)
          (bit_and-top 31 val (val - 1) h (omega arith) g (omega arith)) (omega arith))
]

-- `getBitAmount` returns the number of ones of every number that is not negative, in at most 32
-- rounds of its loop. For a negative number the loop comes to the least `int`, where `val-1`
-- overflows: its behaviour is undefined.
pub get_bit_amount_lem :
    (p_state : Stack) (val : ℕ)
    → p_state.to_int 1 ≡ some val
    → val < 2 ^ 32
    → get_bit_amount p_state ≡ (if ltb val (2 ^ 31) then some (Pushed.int (ones 31 val)) else none)
unfolding get_bit_amount
get_bit_amount_lem p_state val e h = elim (Bool-cases (ltb val (2 ^ 31))) [
  | inl small ↦
      rw
        (
          e,
          small,
          amount-ones 31 32 val 0 (ltb→lt val (2 ^ 31) small) (ltb→lt val (2 ^ 31) small)
              (le_trans (ones-below 31 val) (omega arith)),
        )
        (ap (λ n. some (Pushed.int n)) (zero_plus (ones 31 val)))
  | inr large ↦ rw (e, large, amount-negative 32 val 0 (ground arith) h) refl
]

-- A stack with two numbers and no text.
abbrev pub asking : ℕ → ℕ → Stack
asking val pos = record {
  to_int = λ i. if i == 1 then some val else if i == 2 then some pos else none;
  to_text = λ i. none;
}

-- And one with three.
abbrev pub setting : ℕ → ℕ → ℕ → Stack
setting val pos bit = record {
  to_int = λ i.
      if i == 1 then some val else if i == 2 then some pos else if i == 3 then some bit else none;
  to_text = λ i. none;
}

digit_cases : (k v : ℕ) → (digit k v ≡ 0) ⊎ (digit k v ≡ 1)
digit_cases zero v = ground arith
digit_cases (suc k) v = digit_cases k (v / 2)

tested : (k v : ℕ) → not (bit_and v (2 ^ k) == 0) ≡ (digit k v == 1)
tested k v = rw (bit_and-pow k v) (elim (digit_cases k v) [
  | inl e ↦ rw e (ground (arith))
  | inr e ↦ rw e (ground (arith, one-le-pow k 2 (omega arith)))
])

get_bit-digit :
    (val pos : ℕ)
    → 1 ≤ pos
    → pos ≤ 32
    → get_bit (asking val pos) ≡ some (Pushed.boolean (digit (pos - 1) val == 1))
unfolding get_bit
get_bit-digit val pos low high =
    let inside : (leb 1 pos && leb pos 32) ≡ true = ground arith in
    rw inside (ap (λ b. some (Pushed.boolean b)) (tested (pos - 1) val))

-- What `setBit` leaves in the number.
abbrev changed : ℕ → ℕ → ℕ → ℕ
changed val k bit =
    if bit == 1
    then bit_or val (2 ^ k)
    else if bit == 0
    then bit_and val (2 ^ 32 - 1 - 2 ^ k)
    else val

digit-changed :
    (j val k bit : ℕ)
    → j < 32
    → k < 32
    → bit ≤ 1
    → digit j (changed val k bit) ≡ (if j == k then bit else digit j val)
digit-changed j val k bit hj hk hb = elim (ℕ_discrete bit 1) [
  | yes one ↦
      let t : (bit == 1) ≡ true = ground arith in
      rw (t, digit-bit_or j val (2 ^ k), digit-pow j k) (ground (arith, digit_cases j val))
  | no zero_bit ↦
      let t : (bit == 1) ≡ false = ground arith in
      let u : (bit == 0) ≡ true = ground arith in
      let within : 2 ^ k ≤ 2 ^ 31 = pow-le-pow_right (omega arith) {j = 31} (omega arith) in
      let fits : 2 ^ k < 2 ^ 32 = omega arith in
      rw
        (
          t,
          u,
          digit-bit_and j val (2 ^ 32 - 1 - 2 ^ k),
          digit-complement j 32 (2 ^ k) hj fits,
          digit-pow j k,
        )
        (ground (arith, digit_cases j val))
]

-- For places 1 to 32, `setBit` with 1 or 0 returns a number in which `getBit` finds that bit at its
-- place, and at every other place what it finds there in the old number.
pub get_bit-set_bit :
    (val pos bit at : ℕ)
    → 1 ≤ pos
    → pos ≤ 32
    → bit ≤ 1
    → 1 ≤ at
    → at ≤ 32
    → (v : ℕ) × (set_bit (setting val pos bit) ≡ some (Pushed.int v))
      × (get_bit (asking v at)
          ≡ (if at == pos then some (Pushed.boolean (bit == 1)) else get_bit (asking val at)))
unfolding set_bit
get_bit-set_bit val pos bit at lp hp hb la ha =
    let inside : (leb 1 pos && leb pos 32) ≡ true = ground arith in
    let v = changed val (pos - 1) bit in
    (
      v,
      rw inside refl,
      get_bit-digit v at la ha
          ∙ ap (λ d. some (Pushed.boolean (d == 1)))
              (digit-changed (at - 1) val (pos - 1) bit (omega arith) (omega arith) hb)
          ∙ elim (Bool-cases (at == pos)) [
            | inl e ↦ let f : (at - 1 == pos - 1) ≡ true = ground arith in rw (e, f) refl
            | inr e ↦
                let f : (at - 1 == pos - 1) ≡ false = ground arith in
                rw (e, f) (sym (get_bit-digit val at la ha))
          ],
    )
