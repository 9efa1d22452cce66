-- ===== src/Config.antt =====
-- src/config.h and src/config.cc: configuration variables, their registry, and what a YAML file sets.
pub mod Dict
pub mod Flatten
pub mod Load
pub mod Cast
pub mod Yaml
pub mod Kept
mod Tests
use proj.Base.{
  ℕ, ◌+◌, Bool, true, false, Option, none, some, List, [], ◌∷◌, ◌++◌, ◌==◌, if◌then◌else◌,
}
use proj.Base.Text.{Text, codes, is_empty}
use proj.Config.Dict.{find, insert, assign}

-- A YAML node as the code walks over it.
mutual
  pub data Node : Type 0 where
    map : Entries → Node
    sequence : Items → Node
    scalar : Text → Node
    null : Node

  pub data Entries : Type 0 where
    no_entry : Entries
    entry : Text → Node → Entries → Entries

  pub data Items : Type 0 where
    no_item : Items
    item : Node → Items → Items

-- `prefix + slice + it->first.Scalar()`
abbrev pub key_under : Text → Text → Text
key_under prefix name = prefix ++ ((if is_empty prefix then [] else codes ".") ++ name)

-- `dump` is what `<<` of a node prints.
module _ (dump : Node → Text) where
  -- `Config::InitFromYaml`, by its three loops.
  unfoldable mutual
    pub init_from_yaml : Node → Text → List (Text × Text) → List (Text × Text)
    init_from_yaml (Node.map es) prefix items = init_map es prefix items
    init_from_yaml (Node.sequence ns) prefix items = init_sequence ns prefix items
    init_from_yaml (Node.scalar str) prefix items = insert prefix (dump (Node.scalar str)) items
    init_from_yaml Node.null prefix items = items

    pub init_map : Entries → Text → List (Text × Text) → List (Text × Text)
    init_map Entries.no_entry prefix items = items
    init_map (Entries.entry name node es) prefix items = init_map es prefix (
        init_from_yaml node (key_under prefix name)
          (insert (key_under prefix name) (dump node) items))

    pub init_sequence : Items → Text → List (Text × Text) → List (Text × Text)
    init_sequence Items.no_item prefix items = items
    init_sequence (Items.item node ns) prefix items =
        init_sequence ns prefix (init_from_yaml node prefix items)

-- The fields of `ConfigVar<T>`: `V` holds the values of all types, `of_string` is the variable's
-- `LexicalCast` from a text, none where it throws, and `cb` tells whether the listener returns; `told`
-- holds the calls of the listener so far, with the values it was given.
pub record ConfigVar (V : Type 0) : Type 0 where
  pub name : Text
  pub description : Text
  pub val : V
  pub of_string : Text → Option V
  pub cb : Option (V → V → Bool)
  pub told : List (V × V)

-- The variables by address, the next free address, and `GetData()`.
pub record Store (V : Type 0) : Type 0 where
  pub vars : ℕ → ConfigVar V
  pub next : ℕ
  pub registry : List (Text × ℕ)

module _ {V : Type 0} where
  -- `ConfigVar::addListener`: the one listener is replaced.
  abbrev pub add_listener : ConfigVar V → (V → V → Bool) → ConfigVar V
  add_listener v cb = record v { cb = some cb }

  -- `ConfigVar::fromString`
  unfoldable pub from_string : ConfigVar V → Text → ConfigVar V
  from_string v str = elim (v.of_string str) [
    | none ↦ v
    | some temp_val ↦ elim v.cb [
      | none ↦ record v { val = temp_val }
      | some cb ↦
          let called : ConfigVar V = record v { told = v.told ++ (v.val, temp_val) ∷ [] } in
          if cb v.val temp_val then record called { val = temp_val } else called
    ]
  ]

  -- `ConfigVar::toString`, by the variable's `LexicalCast` to a text, none where it throws; and
  -- `getValue`.
  unfoldable pub to_string : (V → Option Text) → ConfigVar V → Text
  to_string of_value v = elim (of_value v.val) [ none ↦ [] | some str ↦ str ]

  abbrev pub get_value : ConfigVar V → V
  get_value v = v.val

  -- A variable is changed in place, or made at a free address.
  abbrev pub put : ℕ → ConfigVar V → Store V → Store V
  put addr v s = record s { vars = λ k. if k == addr then v else s.vars k }

  -- `Config::Lookup`: a new variable in any case, which takes the place of the one of its name.
  unfoldable pub lookup : Text → V → Text → (Text → Option V) → Store V → ℕ × Store V
  lookup name val description of_string s =
      let conf : ConfigVar V = record {
        name = name;
        description = description;
        val = val;
        of_string = of_string;
        cb = none;
        told = [];
      } in
      (
        s.next,
        record (put s.next conf s) { next = s.next + 1; registry = assign name s.next s.registry },
      )

  -- One round of the loop of `LookupData`.
  abbrev pub set_item : Text × Text → Store V → Store V
  set_item it s = elim (find it.0 s.registry) [
    | none ↦ s
    | some addr ↦ put addr (from_string (s.vars addr) it.1) s
  ]

  -- `Config::LookupData`
  unfoldable pub lookup_data : List (Text × Text) → Store V → Store V
  lookup_data [] s = s
  lookup_data (it ∷ rest) s = lookup_data rest (set_item it s)

  -- `Config::LoadFromYaml`; `load` is what `YAML::LoadFile` reads, none where it throws.
  unfoldable pub load_from_yaml :
      (dump : Node → Text) → (load : Text → Option Node) → Text → Store V → Bool × Store V
  load_from_yaml dump load filename s = elim (load filename) [
    | none ↦ (false, s)
    | some node ↦ (true, lookup_data (init_from_yaml dump node [] []) s)
  ]
