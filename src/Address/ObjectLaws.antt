-- ===== src/Address/ObjectLaws.antt =====
-- What the comparisons of `Address` of src/address.cc answer.
use native.Mathlib.Decide.{ℕ_discrete}
use Prim.Native.Nat.{Ordering, min}
use proj.Base.{
  ℕ, ◌≤◌, ◌≡◌, refl, sym, ap, ◌∙◌, ◌≢◌, ◌↔◌, ◌⊎◌, inl, inr, Bool, true, false, some, length, take,
  arith,
}
use proj.Base.Memory.{Memory, memcmp}
use proj.Base.Text.{lex, lex→eq, lex_refl, lex_swap, lex_unswap}
use proj.Address.Object.{Address, get_addr, get_addr_len, less, equal, unequal}

-- The object has the bytes that its length names.
abbrev pub IsWhole : Address → Type 0
IsWhole a = get_addr_len a ≤ length (get_addr a)

-- The bytes of `a` that `operator<` compares with those of `b`.
abbrev pub compared : Address → Address → Memory
compared a b = take (min (get_addr_len a) (get_addr_len b)) (get_addr a)

memcmp_lem :
    (a b : Memory) (n : ℕ)
    → n ≤ length a
    → n ≤ length b
    → memcmp a b n ≡ some (lex (take n a) (take n b))
unfolding memcmp
memcmp_lem a b n ha hb = ground arith

min_comm : (a b : ℕ) → min a b ≡ min b a
min_comm a b = omega arith

swapped : (a b : Address) → compared b a ≡ take (min (get_addr_len a) (get_addr_len b)) (get_addr b)
swapped a b = ap (λ n. take n (get_addr b)) (min_comm (get_addr_len b) (get_addr_len a))

abbrev sign : Address → Address → Ordering
sign a b = lex (compared a b) (compared b a)

sign_lem :
    (a b : Address)
    → IsWhole a
    → IsWhole b
    → memcmp (get_addr a) (get_addr b) (min (get_addr_len a) (get_addr_len b)) ≡ some (sign a b)
sign_lem a b ha hb =
    memcmp_lem (get_addr a) (get_addr b) (min (get_addr_len a) (get_addr_len b)) (omega arith)
      (omega arith)
    ∙ ap (λ t. some (lex (compared a b) t)) (sym (swapped a b))

abbrev is_not_gt : Ordering → Bool
is_not_gt Ordering.gt = false
is_not_gt Ordering.lt = true
is_not_gt Ordering.eq = true

less_lem : (a b : Address) → IsWhole a → IsWhole b → less a b ≡ some (is_not_gt (sign a b))
unfolding less
less_lem a b ha hb = ground (arith, sign_lem a b ha hb)

-- Of two addresses whose lengths stay within their objects at least one is below the other by
-- `operator<`; and each is below the other exactly when the compared bytes are the same, so also an
-- address and itself.
pub less-total :
    (a b : Address)
    → IsWhole a
    → IsWhole b
    → ((less a b ≡ some true) ⊎ (less b a ≡ some true))
      × (((less a b ≡ some true) × (less b a ≡ some true)) ↔ (compared a b ≡ compared b a))
less-total a b ha hb =
    rw (less_lem a b ha hb, less_lem b a hb ha)
      (
        by_sign (sign a b) refl,
        (
          (λ (h : (some (is_not_gt (sign a b)) ≡ some true)
                × (some (is_not_gt (sign b a)) ≡ some true)).
              both (sign a b) refl h),
          λ (e : compared a b ≡ compared b a). rw (e, lex_refl (compared b a)) (refl, refl),
        ),
      )
  where
    by_sign :
        (o : Ordering)
        → sign a b ≡ o
        → (some (is_not_gt (sign a b)) ≡ some true) ⊎ (some (is_not_gt (sign b a)) ≡ some true)
    by_sign Ordering.lt e = inl (rw e refl)
    by_sign Ordering.eq e = inl (rw e refl)
    by_sign Ordering.gt e = inr (rw (lex_unswap (compared a b) (compared b a) e) refl)

    both :
        (o : Ordering)
        → sign a b ≡ o
        → (some (is_not_gt (sign a b)) ≡ some true) × (some (is_not_gt (sign b a)) ≡ some true)
        → compared a b ≡ compared b a
    both Ordering.lt e h = absurd (ground (arith, lex_swap (compared a b) (compared b a) e, h.1))
    both Ordering.eq e h = lex→eq (compared a b) (compared b a) e
    both Ordering.gt e h = absurd (ground (arith, h.0))

abbrev differs : Ordering → Bool
differs Ordering.lt = true
differs Ordering.gt = true
differs Ordering.eq = false

same_length :
    (a b : Address)
    → IsWhole a
    → IsWhole b
    → get_addr_len a ≡ get_addr_len b
    → equal a b ≡ some (differs (sign a b))
unfolding equal
same_length a b ha hb e =
    let n : min (get_addr_len a) (get_addr_len b) ≡ get_addr_len a = omega arith in
    ground (arith, ap (λ k. memcmp (get_addr a) (get_addr b) k) n, sign_lem a b ha hb)

other_length : (a b : Address) → get_addr_len a ≢ get_addr_len b → equal a b ≡ some false
unfolding equal
other_length a b e = ground arith

unequal_lem : (a b : Address) → (unequal a b ≡ some true) ↔ (equal a b ≡ some false)
unfolding unequal
unequal_lem a b = (
  (λ (h : unequal a b ≡ some true). ground arith),
  (λ (h : equal a b ≡ some false). ground arith),
)

-- Of two addresses whose lengths stay within their objects `operator==` holds exactly when the lengths
-- are the same and the bytes are not, and `operator!=` exactly when it does not.
pub equal_lem :
    (a b : Address)
    → IsWhole a
    → IsWhole b
    → ((equal a b ≡ some true)
        ↔ ((get_addr_len a ≡ get_addr_len b) × (compared a b ≢ compared b a)))
      × ((unequal a b ≡ some true) ↔ (equal a b ≡ some false))
equal_lem a b ha hb = ((forth, back (sign a b) refl), unequal_lem a b)
  where
    forth :
        equal a b ≡ some true → (get_addr_len a ≡ get_addr_len b) × (compared a b ≢ compared b a)
    forth h = elim (ℕ_discrete (get_addr_len a) (get_addr_len b)) [
      | yes e ↦ (
        e,
        λ same. ground (
          arith,
          same_length a b ha hb e,
          ap (λ t. lex t (compared b a)) same,
          lex_refl (compared b a),
        ),
      )
      | no d ↦ absurd (ground (arith, other_length a b d))
    ]

    back :
        (o : Ordering)
        → sign a b ≡ o
        → (get_addr_len a ≡ get_addr_len b) × (compared a b ≢ compared b a)
        → equal a b ≡ some true
    back Ordering.lt s (e, d) = same_length a b ha hb e ∙ ap (λ o. some (differs o)) s
    back Ordering.gt s (e, d) = same_length a b ha hb e ∙ ap (λ o. some (differs o)) s
    back Ordering.eq s (e, d) = absurd (d (lex→eq (compared a b) (compared b a) s))
