-- ===== src/Config/Cast.antt =====
-- The specialisations of `LexicalCast` of src/config.h. `load` is `YAML::Load` of a text as far as the
-- loops look at it, the printed items or the keys with the printed values, none where it throws, and
-- `emit` prints a node built of them.
use proj.Base.{
  ℕ, ◌≡◌, refl, sym, ap, ◌∙◌, Option, none, some, List, [], ◌∷◌, ◌++◌, map, ◌==◌, ◌&&◌,
  if◌then◌else◌, append_assoc, append-nil, ◌>>=◌,
}
use proj.Base.Text.{Text}

-- The last byte of a text that has the first byte `c`, and the text without it.
unfoldable pub last_byte : ℕ → Text → ℕ
last_byte c [] = c
last_byte c (d ∷ s) = last_byte d s

unfoldable pub but_last : ℕ → Text → Text
but_last c [] = []
but_last c (d ∷ s) = c ∷ but_last d s

-- `LexicalCast<std::string,std::string>`: the marks around a quoted text are taken off. On a lone mark
-- the range to copy ends before it begins: none.
unfoldable pub string_of_string : Text → Option Text
string_of_string [] = some []
string_of_string (c ∷ []) = if c == b'"' then none else some (c ∷ [])
string_of_string (c ∷ d ∷ s) =
    if c == b'"' && last_byte d s == b'"' then some (but_last d s) else some (c ∷ d ∷ s)

-- The loop over the items, which ends with what it has at the first one that does not convert; `add`
-- is `push_back` or `insert` of the container.
unfoldable pub from_items :
    {A C T : Type 0} → (of_item : A → Option T) → (add : C → T → C) → List A → C → C
from_items of_item add [] acc = acc
from_items of_item add (it ∷ items) acc = elim (of_item it) [
  | none ↦ acc
  | some v ↦ from_items of_item add items (add acc v)
]

-- The conversion of an entry of a map: its key stays.
abbrev pub entry_of : {T : Type 0} → (Text → Option T) → Text × Text → Option (Text × T)
entry_of of_string (key, str) = of_string str >>= λ v. some (key, v)

module _ {C T : Type 0} (load : Text → Option (List Text)) (of_string : Text → Option T)
    (add : C → T → C) (empty : C) where
  abbrev pub container_of_string : Text → Option C
  container_of_string str = load str >>= λ items. some (from_items of_string add items empty)

  -- `LexicalCast<std::string,std::set<T>>` and that of `std::unordered_set`.
  abbrev pub set_of_string : Text → Option C
  set_of_string str = container_of_string str

  abbrev pub unordered_set_of_string : Text → Option C
  unordered_set_of_string str = container_of_string str

module _ {C T : Type 0} (load : Text → Option (List (Text × Text))) (of_string : Text → Option T)
    (add : C → Text × T → C) (empty : C) where
  -- `LexicalCast<std::string,std::map<std::string,T>>` and that of `std::unordered_map`.
  abbrev pub map_of_string : Text → Option C
  map_of_string str = load str >>= λ items. some (from_items (entry_of of_string) add items empty)

  abbrev pub unordered_map_of_string : Text → Option C
  unordered_map_of_string str = map_of_string str

module _ {T : Type 0} (load : Text → Option (List Text)) (of_string : Text → Option T) where
  -- `LexicalCast<std::string,std::vector<T>>` and that of `std::list`.
  abbrev pub vector_of_string : Text → Option (List T)
  vector_of_string str = container_of_string load of_string (λ vec v. vec ++ v ∷ []) [] str

  abbrev pub list_of_string : Text → Option (List T)
  list_of_string str = vector_of_string str

module _ {T : Type 0} (emit : List Text → Text) (to_string : T → Text) where
  -- `LexicalCast<std::vector<T>,std::string>`, and those of the list and the sets by their elements in
  -- the order of the iteration.
  abbrev pub string_of_vector : List T → Text
  string_of_vector val = emit (map to_string val)

  abbrev pub string_of_list : List T → Text
  string_of_list val = emit (map to_string val)

  abbrev pub string_of_set : List T → Text
  string_of_set val = emit (map to_string val)

  abbrev pub string_of_unordered_set : List T → Text
  string_of_unordered_set val = emit (map to_string val)

module _ {T : Type 0} (emit : List (Text × Text) → Text) (to_string : T → Text) where
  -- `LexicalCast<std::map<std::string,T>,std::string>` and that of `std::unordered_map`.
  abbrev pub string_of_map : List (Text × T) → Text
  string_of_map val = emit (map (λ e. (e.0, to_string e.1)) val)

  abbrev pub string_of_unordered_map : List (Text × T) → Text
  string_of_unordered_map val = emit (map (λ e. (e.0, to_string e.1)) val)

module _ {T : Type 0} (of_string : Text → Option T) (to_string : T → Text)
    (back : (v : T) → of_string (to_string v) ≡ some v) where
  from_items-printed :
      (vs acc : List T) (rest : List Text)
      → from_items of_string (λ vec v. vec ++ v ∷ []) (map to_string vs ++ rest) acc
        ≡ from_items of_string (λ vec v. vec ++ v ∷ []) rest (acc ++ vs)
  unfolding from_items
  from_items-printed [] acc rest =
      ap (from_items of_string (λ vec v. vec ++ v ∷ []) rest) (sym (append-nil acc))
  from_items-printed (v ∷ vs) acc rest = rw (back v) (
      from_items-printed vs (acc ++ v ∷ []) rest
      ∙ ap (from_items of_string (λ vec v. vec ++ v ∷ []) rest) (append_assoc acc (v ∷ []) vs))

  -- Where YAML gives back the items that it printed, and an element is read back from its text, a
  -- vector is read back from its text; and of a text whose items are those of a vector, then one that
  -- does not convert, and then any others, the vector is read and no error is seen.
  pub vector_of_string_lem :
      (load : Text → Option (List Text)) (emit : List Text → Text) (vs : List T) (bad : Text)
      (rest : List Text)
      → ((ts : List Text) → load (emit ts) ≡ some ts)
      → of_string bad ≡ none
      → (vector_of_string load of_string (string_of_vector emit to_string vs) ≡ some vs)
        × (vector_of_string load of_string (emit (map to_string vs ++ bad ∷ rest)) ≡ some vs)
  unfolding from_items
  vector_of_string_lem load emit vs bad rest loads fails = (
    rw (loads (map to_string vs)) (
        ap (λ t. some (from_items of_string (λ vec v. vec ++ v ∷ []) t []))
          (sym (append-nil (map to_string vs)))
        ∙ ap (λ t. some t) (from_items-printed vs [] [])),
    rw (loads (map to_string vs ++ bad ∷ rest))
        (ap (λ t. some t) (from_items-printed vs [] (bad ∷ rest) ∙ rw (fails, from_items) refl)),
  )
