-- ===== src/Config/Dict.antt =====
-- A `std::map` from texts, as its entries in the order of the keys.
use Prim.Native.Nat.{Ordering}
use proj.Base.{◌≡◌, ◌≢◌, List, [], ◌∷◌, Option, none, some, arith}
use proj.Base.Text.{Text, lex, lex→eq, lex_refl, lex_trans}

module _ {A : Type 0} where
  -- `find`
  unfoldable pub find : Text → List (Text × A) → Option A
  find key [] = none
  find key ((k, a) ∷ m) = elim (lex key k) [
    | Ordering.lt ↦ none
    | Ordering.eq ↦ some a
    | Ordering.gt ↦ find key m
  ]

  -- `insert`: an entry that is there stays.
  unfoldable pub insert : Text → A → List (Text × A) → List (Text × A)
  insert key a [] = (key, a) ∷ []
  insert key a ((k, old) ∷ m) = elim (lex key k) [
    | Ordering.lt ↦ (key, a) ∷ (k, old) ∷ m
    | Ordering.eq ↦ (k, old) ∷ m
    | Ordering.gt ↦ (k, old) ∷ insert key a m
  ]

  -- `it->second = a` where the key is there, and `insert` where it is not.
  unfoldable pub assign : Text → A → List (Text × A) → List (Text × A)
  assign key a [] = (key, a) ∷ []
  assign key a ((k, old) ∷ m) = elim (lex key k) [
    | Ordering.lt ↦ (key, a) ∷ (k, old) ∷ m
    | Ordering.eq ↦ (k, a) ∷ m
    | Ordering.gt ↦ (k, old) ∷ assign key a m
  ]

  -- The first of two values.
  abbrev pub or_else : Option A → Option A → Option A
  or_else none b = b
  or_else (some a) b = some a

  pub find-insert_same :
      (key : Text) (a : A) (m : List (Text × A))
      → find key (insert key a m) ≡ or_else (find key m) (some a)
  unfolding find insert
  find-insert_same key a [] = ground (arith, lex_refl key)
  find-insert_same key a ((k, old) ∷ m) = ground (arith, lex_refl key, find-insert_same key a m)

  pub find-insert_other :
      (key other : Text) (a : A) (m : List (Text × A))
      → lex other key ≢ Ordering.eq
      → find other (insert key a m) ≡ find other m
  unfolding find insert
  find-insert_other key other a [] h = ground arith
  find-insert_other key other a ((k, old) ∷ m) h =
      ground (arith, find-insert_other key other a m h, lex→eq key k, lex_trans other key k)

  pub find-assign_same :
      (key : Text) (a : A) (m : List (Text × A)) → find key (assign key a m) ≡ some a
  unfolding find assign
  find-assign_same key a [] = ground (arith, lex_refl key)
  find-assign_same key a ((k, old) ∷ m) = ground (arith, lex_refl key, find-assign_same key a m)

  pub find-assign_other :
      (key other : Text) (a : A) (m : List (Text × A))
      → lex other key ≢ Ordering.eq
      → find other (assign key a m) ≡ find other m
  unfolding find assign
  find-assign_other key other a [] h = ground arith
  find-assign_other key other a ((k, old) ∷ m) h =
      ground (arith, find-assign_other key other a m h, lex→eq key k, lex_trans other key k)
