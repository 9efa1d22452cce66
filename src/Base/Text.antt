-- ===== src/Base/Text.antt =====
-- Texts as lists of bytes, and the C and C++ library functions on them that the sources call.
use Prim.Native.Nat.{compare, Ordering}
use Prim.Native.Char.{code}
use Prim.Native.String.{String}
use proj.Base.{
  ℕ, zero, suc, ◌+◌, ◌/◌, ◌%◌, ◌≡◌, refl, Bool, true, false, ◌&&◌, List, [], ◌∷◌, ◌++◌, map, arith,
  leb, ltb, ◌==◌, if◌then◌else◌,
}

abbrev pub Text : Type 0
Text = List ℕ

-- The bytes of a literal.
abbrev pub codes : String → Text
codes String.[] = []
codes (String.◌∷◌ c s) = code c ∷ codes s

abbrev pub crlf : Text
crlf = 13 ∷ 10 ∷ []

-- `std::string::empty`
abbrev pub is_empty : Text → Bool
is_empty [] = true
is_empty (x ∷ xs) = false

-- `tolower` in the C locale.
unfoldable pub lower : ℕ → ℕ
lower c = if leb b'A' c && leb c b'Z' then c + 32 else c

-- What `c_str()` shows to a C function: the bytes before the first NUL.
abbrev pub c_str : Text → Text
c_str [] = []
c_str (x ∷ xs) = let rest = x ∷ c_str xs in if x == 0 then [] else rest

-- `strncmp(a, b, n) == 0`, and the same of `strncasecmp`, by what is done to each byte first.
module _ (fold : ℕ → ℕ) where
  unfoldable pub ncmp_eq : Text → Text → ℕ → Bool
  ncmp_eq a b zero = true
  ncmp_eq [] [] (suc n) = true
  ncmp_eq [] (y ∷ ys) (suc n) = y == 0
  ncmp_eq (x ∷ xs) [] (suc n) = x == 0
  ncmp_eq (x ∷ xs) (y ∷ ys) (suc n) =
      let rest = ncmp_eq xs ys n in
      if fold x == fold y then (if x == 0 then true else rest) else false

abbrev pub same_byte : ℕ → ℕ
same_byte c = c

abbrev pub strncmp_eq : Text → Text → ℕ → Bool
strncmp_eq = ncmp_eq same_byte

abbrev pub strncasecmp_eq : Text → Text → ℕ → Bool
strncasecmp_eq = ncmp_eq lower

-- The order of two texts by their bytes.
unfoldable pub lex : Text → Text → Ordering
lex [] [] = Ordering.eq
lex [] (y ∷ ys) = Ordering.lt
lex (x ∷ xs) [] = Ordering.gt
lex (x ∷ xs) (y ∷ ys) = elim (compare x y) [
  | Ordering.lt ↦ Ordering.lt
  | Ordering.eq ↦ lex xs ys
  | Ordering.gt ↦ Ordering.gt
]

-- The sign of `strcasecmp(a, b)`.
abbrev pub strcasecmp : Text → Text → Ordering
strcasecmp a b = lex (map lower (c_str a)) (map lower (c_str b))

-- `==` of `std::string`.
unfoldable pub text_eq : Text → Text → Bool
text_eq [] [] = true
text_eq [] (y ∷ ys) = false
text_eq (x ∷ xs) [] = false
text_eq (x ∷ xs) (y ∷ ys) = x == y && text_eq xs ys

-- `<<` of an unsigned number to a stream, with at most `fuel` digits.
unfoldable pub decimal : ℕ → ℕ → Text
decimal zero n = []
decimal (suc fuel) n =
    let more = decimal fuel (n / 10) ++ (48 + n % 10) ∷ [] in
    if ltb n 10 then (48 + n) ∷ [] else more

-- Twenty digits hold every 64-bit number.
abbrev pub show : ℕ → Text
show n = decimal 20 n

pub text_eq→eq : (a b : Text) → text_eq a b ≡ true → a ≡ b
unfolding text_eq
text_eq→eq [] [] h = refl
text_eq→eq [] (y ∷ ys) h = cc
text_eq→eq (x ∷ xs) [] h = cc
text_eq→eq (x ∷ xs) (y ∷ ys) h = ground (arith, text_eq→eq xs ys)

pub text_eq_refl : (a : Text) → text_eq a a ≡ true
unfolding text_eq
text_eq_refl [] = refl
text_eq_refl (x ∷ xs) = ground (arith, text_eq_refl xs)

pub lex→eq : (a b : Text) → lex a b ≡ Ordering.eq → a ≡ b
unfolding lex
lex→eq [] [] h = refl
lex→eq [] (y ∷ ys) h = cc
lex→eq (x ∷ xs) [] h = cc
lex→eq (x ∷ xs) (y ∷ ys) h = ground (arith, lex→eq xs ys)

pub lex_refl : (a : Text) → lex a a ≡ Ordering.eq
unfolding lex
lex_refl [] = refl
lex_refl (x ∷ xs) = ground (arith, lex_refl xs)

pub lex_swap : (a b : Text) → lex a b ≡ Ordering.lt → lex b a ≡ Ordering.gt
unfolding lex
lex_swap [] [] h = cc
lex_swap [] (y ∷ ys) h = refl
lex_swap (x ∷ xs) [] h = cc
lex_swap (x ∷ xs) (y ∷ ys) h = ground (arith, lex_swap xs ys)

pub lex_unswap : (a b : Text) → lex a b ≡ Ordering.gt → lex b a ≡ Ordering.lt
unfolding lex
lex_unswap [] [] h = cc
lex_unswap [] (y ∷ ys) h = cc
lex_unswap (x ∷ xs) [] h = refl
lex_unswap (x ∷ xs) (y ∷ ys) h = ground (arith, lex_unswap xs ys)

pub lex_trans :
    (a b c : Text) → lex a b ≡ Ordering.lt → lex b c ≡ Ordering.lt → lex a c ≡ Ordering.lt
unfolding lex
lex_trans [] [] c h k = cc
lex_trans [] (y ∷ ys) [] h k = cc
lex_trans [] (y ∷ ys) (z ∷ zs) h k = refl
lex_trans (x ∷ xs) [] c h k = cc
lex_trans (x ∷ xs) (y ∷ ys) [] h k = cc
lex_trans (x ∷ xs) (y ∷ ys) (z ∷ zs) h k = ground (arith, lex_trans xs ys zs)
