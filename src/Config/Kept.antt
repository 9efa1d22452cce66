-- ===== src/Config/Kept.antt =====
-- What stays true of a variable of src/config.h, whatever is loaded from files.
use proj.Base.{
  ℕ, ◌≡◌, Bool, Bool-cases, inl, inr, Option, none, some, List, [], ◌∷◌, ◌++◌, ◌==◌, if◌then◌else◌,
  Option-cases, ==_iff, ==_refl,
}
use proj.Base.Ensures.{Ensures}
use proj.Base.Text.{Text}
use proj.Config.Dict.{find}
use proj.Config.{
  ConfigVar, Store, from_string, lookup, set_item, lookup_data, init_from_yaml, load_from_yaml,
  Node,
}
use mathlib.Core.Path.{subst}

module _ {V : Type 0} (P : V → Type 0) where
  -- The variable's value has a property, and so has every value that its conversion gives.
  abbrev pub IsKept : ConfigVar V → Type 0
  IsKept v = P v.val × ((str : Text) → Ensures P (v.of_string str))

  from_string-IsKept : (v : ConfigVar V) (str : Text) → IsKept v → IsKept (from_string v str)
  unfolding from_string
  from_string-IsKept v str h = by_value (v.of_string str) (h.1 str)
    where
      told_of : (V → V → Bool) → V → ConfigVar V
      told_of f x =
          let called : ConfigVar V = record v { told = v.told ++ (v.val, x) ∷ [] } in
          if f v.val x then record called { val = x } else called

      by_listener :
          (cb : Option (V → V → Bool)) (x : V)
          → P x
          → IsKept (elim cb [ none ↦ record v { val = x } | some f ↦ told_of f x ])
      by_listener none x p = (p, h.1)
      by_listener (some f) x p = elim (Bool-cases (f v.val x)) [
        | inl e ↦ rw e (p, h.1)
        | inr e ↦ rw e h
      ]

      by_value :
          (o : Option V)
          → Ensures P o
          → IsKept (elim o [
            | none ↦ v
            | some x ↦ elim v.cb [ none ↦ record v { val = x } | some f ↦ told_of f x ]
          ])
      by_value none p = h
      by_value (some x) p = by_listener v.cb x p

  set_item-IsKept :
      (it : Text × Text) (s : Store V) (addr : ℕ)
      → IsKept (s.vars addr)
      → IsKept ((set_item it s).vars addr)
  set_item-IsKept it s addr h = elim (Option-cases (find it.0 s.registry)) [
    | inl e ↦ rw (e, set_item) h
    | inr (a, e) ↦ elim (Bool-cases (addr == a)) [
      | inl t ↦
          let same : addr ≡ a = (==_iff addr a).0 t in
          rw (e, set_item, t)
            (from_string-IsKept (s.vars a) it.1 (subst (λ k. IsKept (s.vars k)) same h))
      | inr t ↦ rw (e, set_item, t) h
    ]
  ]

  lookup_data-IsKept :
      (items : List (Text × Text)) (s : Store V) (addr : ℕ)
      → IsKept (s.vars addr)
      → IsKept ((lookup_data items s).vars addr)
  unfolding lookup_data
  lookup_data-IsKept [] s addr h = h
  lookup_data-IsKept (it ∷ items) s addr h =
      lookup_data-IsKept items (set_item it s) addr (set_item-IsKept it s addr h)

  -- Loading a file keeps it.
  pub load_from_yaml-IsKept :
      (dump : Node → Text) (load : Text → Option Node) (filename : Text) (s : Store V) (addr : ℕ)
      → IsKept (s.vars addr)
      → IsKept ((load_from_yaml dump load filename s).1.vars addr)
  unfolding load_from_yaml
  load_from_yaml-IsKept dump load filename s addr h = elim (Option-cases (load filename)) [
    | inl e ↦ rw (e, load_from_yaml) h
    | inr (node, e) ↦
        rw (e, load_from_yaml) (lookup_data-IsKept (init_from_yaml dump node [] []) s addr h)
  ]

  -- A variable looked up has its default value.
  pub lookup-IsKept :
      (name : Text) (val : V) (description : Text) (of_string : Text → Option V) (s : Store V)
      → P val
      → ((str : Text) → Ensures P (of_string str))
      → let r = lookup name val description of_string s in IsKept (r.1.vars r.0)
  unfolding lookup
  lookup-IsKept name val description of_string s p ensures = rw (==_refl s.next) (p, ensures)
