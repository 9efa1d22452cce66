-- ===== src/Http/Fields.antt =====
-- `MapType` of `HttpRequest` and `HttpResponce`: a `std::map` from names to values, ordered by
-- `strcasecmp`. A map is its sequence of entries in order.
use Prim.Native.Nat.{Ordering}
use proj.Base.{◌≡◌, ◌≢◌, List, [], ◌∷◌, ◌++◌, map, arith, All, Option, none, some}
use proj.Base.Text.{
  Text, crlf, codes, c_str, lower, strcasecmp, lex→eq, lex_refl, lex_unswap, lex_trans,
}

abbrev pub Fields : Type 0
Fields = List (Text × Text)

-- `m_fields.find(key)`.
unfoldable pub find : Text → Fields → Option Text
find key [] = none
find key ((name, val) ∷ m) = elim (strcasecmp key name) [
  | Ordering.lt ↦ find key m
  | Ordering.eq ↦ some val
  | Ordering.gt ↦ find key m
]

-- `m_fields[key] = val`: an entry of an equal name keeps its spelling.
unfoldable pub assign : Text → Text → Fields → Fields
assign key val [] = (key, val) ∷ []
assign key val ((name, old) ∷ m) = elim (strcasecmp key name) [
  | Ordering.lt ↦ (key, val) ∷ (name, old) ∷ m
  | Ordering.eq ↦ (name, val) ∷ m
  | Ordering.gt ↦ (name, old) ∷ assign key val m
]

-- `for(auto & it : m_fields) ss << it.first << ": " << it.second << "\r\n";`
unfoldable pub print : Fields → Text
print [] = []
print ((name, val) ∷ m) = name ++ (codes ": " ++ (val ++ (crlf ++ print m)))

-- What the order compares.
abbrev pub folded : Text → Text
folded key = map lower (c_str key)

abbrev pub Above : Text → Fields → Type 0
Above key m = All (λ e. strcasecmp key e.0 ≡ Ordering.lt) m

-- The names are in strictly rising order, so none occurs twice in any case.
abbrev pub IsSorted : Fields → Type 0
IsSorted [] = Unit
IsSorted ((name, val) ∷ m) = Above name m × IsSorted m

Above-weaken : (a b : Text) (m : Fields) → strcasecmp a b ≡ Ordering.lt → Above b m → Above a m
Above-weaken a b [] h k = tt
Above-weaken a b ((name, val) ∷ m) h k =
    (lex_trans (folded a) (folded b) (folded name) h k.0, Above-weaken a b m h k.1)

Above-assign :
    (a key val : Text) (m : Fields)
    → strcasecmp a key ≡ Ordering.lt
    → Above a m
    → Above a (assign key val m)
unfolding assign
Above-assign a key val [] h k = (h, tt)
Above-assign a key val ((name, old) ∷ m) h k = ground (arith, Above-assign a key val m h k.1)

-- Assigning a field keeps the names in order.
pub assign-IsSorted : (key val : Text) (m : Fields) → IsSorted m → IsSorted (assign key val m)
unfolding assign
assign-IsSorted key val [] h = (tt, tt)
assign-IsSorted key val ((name, old) ∷ m) h = ground (
  arith,
  assign-IsSorted key val m h.1,
  Above-weaken key name m,
  Above-assign name key val m,
  lex_unswap (folded key) (folded name),
)

-- After an assignment a name is found as assigned if it is the assigned one in any case, and as
-- before if not.
pub find-assign :
    (key other val : Text) (m : Fields)
    → ((strcasecmp other key ≡ Ordering.eq → find other (assign key val m) ≡ some val)
        × (strcasecmp other key ≢ Ordering.eq → find other (assign key val m) ≡ find other m))
unfolding find assign
find-assign key other val [] = ground arith
find-assign key other val ((name, old) ∷ m) =
    let ih = find-assign key other val m in
    ground (
      arith,
      ih,
      lex→eq (folded key) (folded name),
      lex→eq (folded other) (folded key),
      lex→eq (folded other) (folded name),
      lex_refl (folded name),
    )
