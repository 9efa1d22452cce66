-- ===== src/Config/Load.antt =====
-- What `Config::Lookup`, `Config::LookupData` and `ConfigVar::fromString` do to the variables.
use Prim.Native.Nat.{Ordering}
use proj.Base.{
  ℕ, ◌<◌, ◌≡◌, ◌≢◌, refl, sym, ap, ◌∙◌, List, [], ◌∷◌, ◌++◌, Option, none, some, arith, All,
  Option-cases, Bool, Bool-cases, ◌⊎◌, if◌then◌else◌, inl, inr,
}
use mathlib.Core.Path.{subst}
use proj.Base.Text.{Text, lex, lex→eq}
use proj.Config.Dict.{find, assign, find-assign_same, find-assign_other}
use proj.Config.{ConfigVar, Store, from_string, lookup, set_item, lookup_data}

assign_misses :
    (name k : Text) (reg : List (Text × ℕ)) (next old : ℕ)
    → old < next
    → (lex k name ≢ Ordering.eq → find k reg ≢ some old)
    → find k (assign name next reg) ≢ some old
assign_misses name k reg next old lt only = by_order (lex k name) refl
  where
    by_order : (o : Ordering) → lex k name ≡ o → find k (assign name next reg) ≢ some old
    by_order Ordering.eq e h =
        let same : find k (assign name next reg) ≡ some next =
          subst (λ t. find t (assign name next reg) ≡ some next) (sym (lex→eq k name e))
            (find-assign_same name next reg) in
        ground arith
    by_order Ordering.lt e h = ground (arith, find-assign_other name k next reg, only)
    by_order Ordering.gt e h = ground (arith, find-assign_other name k next reg, only)

module _ {V : Type 0} where
  -- What a text makes of a variable.
  abbrev pub Took : ConfigVar V → Text → ConfigVar V → Type 0
  Took v str w =
      ((v.of_string str ≡ none) × (w ≡ v))
      ⊎ ((new : V) × (v.of_string str ≡ some new)
          × (((v.cb ≡ none) × (w ≡ record v { val = new }))
              ⊎ ((cb : V → V → Bool) × (v.cb ≡ some cb)
                  × (w ≡ record v {
                    val = if cb v.val new then new else v.val;
                    told = v.told ++ (v.val, new) ∷ [];
                  }))))

  -- No item is for the variable at an address.
  abbrev pub Misses : Store V → ℕ → List (Text × Text) → Type 0
  Misses s addr items = All (λ it. find it.0 s.registry ≢ some addr) items

  set_item_missed :
      (it : Text × Text) (s : Store V) (addr : ℕ)
      → find it.0 s.registry ≢ some addr
      → (set_item it s).vars addr ≡ s.vars addr
  set_item_missed it s addr h = elim (Option-cases (find it.0 s.registry)) [
    | inl e ↦ ground arith
    | inr (a, e) ↦ ground arith
  ]

  set_item_registry : (it : Text × Text) (s : Store V) → (set_item it s).registry ≡ s.registry
  set_item_registry it s = ground arith

  set_item_hit :
      (it : Text × Text) (s : Store V) (addr : ℕ)
      → find it.0 s.registry ≡ some addr
      → (set_item it s).vars addr ≡ from_string (s.vars addr) it.1
  set_item_hit it s addr h = ground arith

  Misses-set_item :
      (it : Text × Text) (s : Store V) (addr : ℕ) (items : List (Text × Text))
      → Misses s addr items
      → Misses (set_item it s) addr items
  Misses-set_item it s addr [] h = tt
  Misses-set_item it s addr (x ∷ items) h =
      (ground (arith, h.0, set_item_registry it s), Misses-set_item it s addr items h.1)

  lookup_data_missed :
      (items : List (Text × Text)) (s : Store V) (addr : ℕ)
      → Misses s addr items
      → (lookup_data items s).vars addr ≡ s.vars addr
  unfolding lookup_data
  lookup_data_missed [] s addr h = refl
  lookup_data_missed (it ∷ items) s addr h =
      lookup_data_missed items (set_item it s) addr (Misses-set_item it s addr items h.1)
      ∙ set_item_missed it s addr h.0

  lookup_data_hit :
      (before : List (Text × Text)) (name str : Text) (after : List (Text × Text)) (s : Store V)
      (addr : ℕ)
      → find name s.registry ≡ some addr
      → Misses s addr before
      → Misses s addr after
      → (lookup_data (before ++ (name, str) ∷ after) s).vars addr ≡ from_string (s.vars addr) str
  unfolding lookup_data
  lookup_data_hit [] name str after s addr e b a =
      lookup_data_missed after (set_item (name, str) s) addr
        (Misses-set_item (name, str) s addr after a)
      ∙ set_item_hit (name, str) s addr e
  lookup_data_hit (it ∷ before) name str after s addr e b a =
      let t = set_item it s in
      lookup_data_hit before name str after t addr
        (ap (λ r. find name r) (set_item_registry it s) ∙ e) (Misses-set_item it s addr before b.1)
        (Misses-set_item it s addr after a)
      ∙ ap (λ v. from_string v str) (set_item_missed it s addr b.0)

  -- `from_string`, by what the conversion gives and the listener.
  abbrev taken : ConfigVar V → Option V → Option (V → V → Bool) → ConfigVar V
  taken v none cb = v
  taken v (some new) none = record v { val = new }
  taken v (some new) (some cb) =
      let called : ConfigVar V = record v { told = v.told ++ (v.val, new) ∷ [] } in
      if cb v.val new then record called { val = new } else called

  from_string-taken :
      (v : ConfigVar V) (str : Text) → from_string v str ≡ taken v (v.of_string str) v.cb
  unfolding from_string
  from_string-taken v str = elim (Option-cases (v.of_string str)) [
    | inl e ↦ ground (arith, e)
    | inr (new, e) ↦ elim (Option-cases v.cb) [
      | inl f ↦ ground (arith, e, f)
      | inr (cb, f) ↦ ground (arith, e, f)
    ]
  ]

  taken-listener :
      (v : ConfigVar V) (new : V) (cb : V → V → Bool)
      → taken v (some new) (some cb)
        ≡ record v { val = if cb v.val new then new else v.val; told = v.told ++ (v.val, new) ∷ [] }
  taken-listener v new cb = elim (Bool-cases (cb v.val new)) [
    | inl g ↦ rw g refl
    | inr g ↦ rw g refl
  ]

  from_string-Took : (v : ConfigVar V) (str : Text) → Took v str (from_string v str)
  from_string-Took v str = elim (Option-cases (v.of_string str)) [
    | inl e ↦ inl (e, from_string-taken v str ∙ ap (λ o. taken v o v.cb) e)
    | inr (new, e) ↦
        let start = from_string-taken v str ∙ ap (λ o. taken v o v.cb) e in
        inr (
          new,
          e,
          elim (Option-cases v.cb) [
            | inl f ↦ inl (f, start ∙ ap (λ cb. taken v (some new) cb) f)
            | inr (cb, f) ↦
                inr (cb, f, start ∙ ap (λ c. taken v (some new) c) f ∙ taken-listener v new cb)
          ],
        )
  ]

  -- A registered variable for which exactly one item was collected takes that item's text: where its
  -- conversion throws it stays as it is, and otherwise its listener, if it has one, is called once with
  -- the old and the new value, and it has the new value unless the listener throws. A variable for
  -- which no item was collected stays as it is.
  pub lookup_data_lem :
      (before : List (Text × Text)) (name str : Text) (after : List (Text × Text)) (s : Store V)
      (addr other : ℕ)
      → find name s.registry ≡ some addr
      → Misses s addr before
      → Misses s addr after
      → Misses s other (before ++ (name, str) ∷ after)
      → Took (s.vars addr) str ((lookup_data (before ++ (name, str) ∷ after) s).vars addr)
        × ((lookup_data (before ++ (name, str) ∷ after) s).vars other ≡ s.vars other)
  lookup_data_lem before name str after s addr other e b a o = (
    subst (λ v. Took (s.vars addr) str v) (sym (lookup_data_hit before name str after s addr e b a))
        (from_string-Took (s.vars addr) str),
    lookup_data_missed (before ++ (name, str) ∷ after) s other o,
  )

  -- Looking a name up again cuts the earlier variable off: no text that is loaded afterwards reaches
  -- it, whatever it is registered for, if it was registered under that name only. The new variable has
  -- the default value given, not the value of the earlier one, and is the one registered.
  pub lookup_stale :
      (name : Text) (val : V) (description : Text) (of_string : Text → Option V)
      (items : List (Text × Text)) (s : Store V) (old : ℕ)
      → old < s.next
      → ((k : Text) → lex k name ≢ Ordering.eq → find k s.registry ≢ some old)
      → ((lookup_data items (lookup name val description of_string s).1).vars old ≡ s.vars old)
        × (find name (lookup name val description of_string s).1.registry ≡ some s.next)
        × (((lookup name val description of_string s).1.vars s.next).val ≡ val)
  unfolding lookup
  lookup_stale name val description of_string items s old lt only =
      let t = (lookup name val description of_string s).1 in
      (
        lookup_data_missed items t old (missed items) ∙ ground arith,
        find-assign_same name s.next s.registry,
        ground arith,
      )
    where
      missed :
          (its : List (Text × Text)) → Misses (lookup name val description of_string s).1 old its
      missed [] = tt
      missed (it ∷ its) = (assign_misses name it.0 s.registry s.next old lt (only it.0), missed its)
