-- ===== src/Base/Numeral.antt =====
-- Numbers in texts: `atoi` and `<<` of an `int`.
use mathlib.Core.Path.{subst}
use native.Mathlib.Nat.{pow-succ'}
use proj.Base.{
  ◌*◌, ◌^◌, ◌<◌, ◌-◌, ◌||◌, ap, ◌∙◌, sym, append_assoc, Bool-cases, inl, inr, ltb→lt, ℕ, zero, suc,
  ◌+◌, ◌/◌, ◌%◌, ◌≡◌, refl, Bool, true, false, ◌&&◌, [], ◌∷◌, ◌++◌, arith, leb, ltb, ◌==◌,
  if◌then◌else◌,
}
use proj.Base.Text.{Text, decimal, show}

-- `isdigit` and `isspace` in the C locale.
abbrev pub is_digit : ℕ → Bool
is_digit c = leb b'0' c && leb c b'9'

abbrev pub is_space : ℕ → Bool
is_space c = c == 32 || (leb 9 c && leb c 13)

-- The digits at the front, behind the number `acc`.
unfoldable pub digits_from : ℕ → Text → ℕ
digits_from acc [] = acc
digits_from acc (c ∷ cs) =
    let rest = digits_from (acc * 10 + (c - 48)) cs in if is_digit c then rest else acc

unfoldable pub skip_space : Text → Text
skip_space [] = []
skip_space (c ∷ cs) = let rest = skip_space cs in if is_space c then rest else c ∷ cs

abbrev pub signed_digits : Text → ℕ
signed_digits [] = 0
signed_digits (c ∷ cs) =
    if c == b'-'
    then (2 ^ 32 - digits_from 0 cs % 2 ^ 32) % 2 ^ 32
    else if c == b'+'
    then digits_from 0 cs % 2 ^ 32
    else digits_from 0 (c ∷ cs) % 2 ^ 32

-- `atoi`, as the bit pattern of an `int`; where the C library promises nothing, a number that does
-- not fit, the pattern is cut.
unfoldable pub atoi : Text → ℕ
atoi s = signed_digits (skip_space s)

-- `<<` of an `int` to a stream, by its bit pattern.
abbrev pub show_int : ℕ → Text
show_int n = if ltb n (2 ^ 31) then show n else b'-' ∷ show (2 ^ 32 - n)

-- What follows a number: nothing that would extend it.
abbrev pub EndsNumber : Text → Type 0
EndsNumber [] = Unit
EndsNumber (c ∷ cs) = is_digit c ≡ false

digits_from-stop : (acc : ℕ) (rest : Text) → EndsNumber rest → digits_from acc rest ≡ acc
unfolding digits_from
digits_from-stop acc [] h = refl
digits_from-stop acc (c ∷ cs) h = rw h

digits_from-decimal :
    (fuel n : ℕ) (rest : Text)
    → n < 10 ^ fuel
    → digits_from 0 (decimal fuel n ++ rest) ≡ digits_from n rest
unfolding digits_from decimal
digits_from-decimal zero n rest h = ap (λ t. digits_from t rest) (omega arith)
digits_from-decimal (suc fuel) n rest h = elim (Bool-cases (ltb n 10)) [
  | inl small ↦
      let lt = ltb→lt n 10 small in
      let d : is_digit (48 + n) ≡ true = ground arith in
      rw (small, d) (ap (λ t. digits_from t rest) (omega arith))
  | inr large ↦
      let d : is_digit (48 + n % 10) ≡ true = ground arith in
      rw large (
        ap (λ t. digits_from 0 t) (append_assoc (decimal fuel (n / 10)) ((48 + n % 10) ∷ []) rest)
        ∙ digits_from-decimal fuel (n / 10) ((48 + n % 10) ∷ rest)
            (omega (arith, pow-succ' 10 fuel))
        ∙ rw d (ap (λ t. digits_from t rest) (omega arith)))
]

abbrev StartsNumber : Text → Type 0
StartsNumber [] = ⊥
StartsNumber (c ∷ cs) = is_digit c ≡ true

StartsNumber-decimal : (fuel n : ℕ) (rest : Text) → StartsNumber (decimal (suc fuel) n ++ rest)
unfolding decimal
StartsNumber-decimal zero n rest = ground arith
StartsNumber-decimal (suc fuel) n rest = elim (Bool-cases (ltb n 10)) [
  | inl small ↦ rw small (ground (arith, ltb→lt n 10 small))
  | inr large ↦ rw large (
      subst (λ t. StartsNumber t)
        (sym (append_assoc (decimal (suc fuel) (n / 10)) ((48 + n % 10) ∷ []) rest))
        (StartsNumber-decimal fuel (n / 10) ((48 + n % 10) ∷ rest)))
]

atoi_digits : (s : Text) → StartsNumber s → atoi s ≡ digits_from 0 s % 2 ^ 32
unfolding atoi skip_space
atoi_digits [] h = absurd h
atoi_digits (c ∷ cs) h =
    let spaces : is_space c ≡ false = ground arith in
    let minus : (c == b'-') ≡ false = ground arith in
    let plus : (c == b'+') ≡ false = ground arith in rw (spaces, minus, plus)

-- `atoi` reads back what `<<` prints, up to what follows the number.
pub atoi-show : (n : ℕ) (rest : Text) → n < 2 ^ 32 → EndsNumber rest → atoi (show n ++ rest) ≡ n
atoi-show n rest h e =
    atoi_digits (show n ++ rest) (StartsNumber-decimal 19 n rest)
    ∙ ap (λ t. t % 2 ^ 32) (digits_from-decimal 20 n rest (omega arith) ∙ digits_from-stop n rest e)
    ∙ omega arith
