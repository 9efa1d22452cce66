-- ===== src/Config/Flatten.antt =====
-- What `Config::InitFromYaml` of src/config.cc collects from a YAML node.
use Prim.Native.Nat.{Ordering}
use proj.Base.{
  ◌≡◌, refl, sym, ap, ◌∙◌, List, [], ◌∷◌, ◌++◌, append_assoc, append-nil, Option, none, some, arith,
}
use proj.Base.Text.{Text, codes, lex, lex→eq}
use proj.Config.Dict.{find, insert, or_else, find-insert_same, find-insert_other}
use proj.Config.{Node, Entries, Items, key_under, init_from_yaml, init_map, init_sequence}

-- The first text under a key.
unfoldable pub first : Text → List (Text × Text) → Option Text
first key [] = none
first key ((k, str) ∷ ps) = elim (lex key k) [
  | Ordering.lt ↦ first key ps
  | Ordering.eq ↦ some str
  | Ordering.gt ↦ first key ps
]

unfoldable pub insert_all : List (Text × Text) → List (Text × Text) → List (Text × Text)
insert_all [] m = m
insert_all ((key, str) ∷ ps) m = insert_all ps (insert key str m)

insert_all-append :
    (ps qs m : List (Text × Text)) → insert_all (ps ++ qs) m ≡ insert_all qs (insert_all ps m)
unfolding insert_all
insert_all-append [] qs m = refl
insert_all-append ((key, str) ∷ ps) qs m = insert_all-append ps qs (insert key str m)

find-insert_step :
    (key k : Text) (str : Text) (m : List (Text × Text))
    → find key (insert k str m)
      ≡ or_else (find key m) (elim (lex key k) [ Ordering.eq ↦ some str | _ ↦ none ])
find-insert_step key k str m =
    ground (arith, lex→eq key k, find-insert_same k str m, find-insert_other k key str m)

find-insert_all :
    (key : Text) (ps m : List (Text × Text))
    → find key (insert_all ps m) ≡ or_else (find key m) (first key ps)
unfolding insert_all first
find-insert_all key [] m = ground arith
find-insert_all key ((k, str) ∷ ps) m =
    ground (arith, find-insert_all key ps (insert k str m), find-insert_step key k str m)

-- Names with a dot before each.
unfoldable pub dots : List Text → Text
dots [] = []
dots (name ∷ names) = codes "." ++ (name ++ dots names)

-- The key of a path of names, the outermost first: the names with dots between them, from the first
-- name on that is not empty.
unfoldable pub dotted : List Text → Text
dotted [] = []
dotted ([] ∷ names) = dotted names
dotted ((c ∷ cs) ∷ names) = (c ∷ cs) ++ dots names

dots-append :
    (names : List Text) (name : Text)
    → dots (names ++ name ∷ []) ≡ dots names ++ (codes "." ++ name)
unfolding dots
dots-append [] name = ap (λ t. codes "." ++ t) (append-nil name)
dots-append (n ∷ names) name =
    ap (λ t. codes "." ++ (n ++ t)) (dots-append names name)
    ∙ ap (λ t. codes "." ++ t) (sym (append_assoc n (dots names) (codes "." ++ name)))

dotted-append :
    (names : List Text) (name : Text) → dotted (names ++ name ∷ []) ≡ key_under (dotted names) name
unfolding dotted dots
dotted-append [] [] = refl
dotted-append [] (c ∷ cs) = append-nil (c ∷ cs)
dotted-append ([] ∷ names) name = dotted-append names name
dotted-append ((c ∷ cs) ∷ names) name =
    ap (λ t. (c ∷ cs) ++ t) (dots-append names name)
    ∙ sym (append_assoc (c ∷ cs) (dots names) (codes "." ++ name))

module _ (dump : Node → Text) where
  -- Every node below a node, with the key of the names that lead to it, in the order of the file: an
  -- entry of a map adds its name to those of the map, and a sequence gives all its nodes its own names.
  unfoldable mutual
    pub paths : Node → List Text → List (Text × Text)
    paths (Node.map es) names = paths_map es names
    paths (Node.sequence ns) names = paths_sequence ns names
    paths (Node.scalar str) names = (dotted names, dump (Node.scalar str)) ∷ []
    paths Node.null names = []

    pub paths_map : Entries → List Text → List (Text × Text)
    paths_map Entries.no_entry names = []
    paths_map (Entries.entry name node es) names =
        (dotted (names ++ name ∷ []), dump node) ∷ paths node (names ++ name ∷ [])
        ++ paths_map es names

    pub paths_sequence : Items → List Text → List (Text × Text)
    paths_sequence Items.no_item names = []
    paths_sequence (Items.item node ns) names = paths node names ++ paths_sequence ns names

  mutual
    unfolding init_from_yaml init_map init_sequence paths paths_map paths_sequence insert_all

    init-paths :
        (node : Node) (names : List Text) (m : List (Text × Text))
        → init_from_yaml dump node (dotted names) m ≡ insert_all (paths node names) m
    init-paths (Node.map es) names m = init_map-paths es names m
    init-paths (Node.sequence ns) names m = init_sequence-paths ns names m
    init-paths (Node.scalar str) names m = refl
    init-paths Node.null names m = refl

    init_map-paths :
        (es : Entries) (names : List Text) (m : List (Text × Text))
        → init_map dump es (dotted names) m ≡ insert_all (paths_map es names) m
    init_map-paths Entries.no_entry names m = refl
    init_map-paths (Entries.entry name node es) names m =
        let all = names ++ name ∷ [] in
        let made = insert (dotted all) (dump node) m in
        ap
          (λ key.
            init_map dump es (dotted names)
              (init_from_yaml dump node key (insert key (dump node) m)))
          (sym (dotted-append names name))
        ∙ init_map-paths es names (init_from_yaml dump node (dotted all) made)
        ∙ ap (λ t. insert_all (paths_map es names) t) (init-paths node all made)
        ∙ sym (insert_all-append (paths node all) (paths_map es names) made)

    init_sequence-paths :
        (ns : Items) (names : List Text) (m : List (Text × Text))
        → init_sequence dump ns (dotted names) m ≡ insert_all (paths_sequence ns names) m
    init_sequence-paths Items.no_item names m = refl
    init_sequence-paths (Items.item node ns) names m =
        init_sequence-paths ns names (init_from_yaml dump node (dotted names) m)
        ∙ ap (λ t. insert_all (paths_sequence ns names) t) (init-paths node names m)
        ∙ sym (insert_all-append (paths node names) (paths_sequence ns names) m)

  -- What is collected under a key is the text of the first node in the file whose names, from the first
  -- that is not empty on and with dots between them, are the key, and nothing if no node's are.
  pub init_from_yaml_lem :
      (node : Node) (key : Text)
      → find key (init_from_yaml dump node [] []) ≡ first key (paths node [])
  unfolding find dotted
  init_from_yaml_lem node key =
      ap (λ m. find key m) (init-paths node [] []) ∙ find-insert_all key (paths node []) []
