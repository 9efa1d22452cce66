-- ===== src/Config/Tests.antt =====
-- A small configuration file and two variables.
use Prim.Native.Nat.{Ordering}
use proj.Base.{
  List, Option, not, ◌++◌, zero, suc, map, append_assoc, append-nil, ap, sym, ◌∙◌, ◌≡◌, ◌≢◌, refl,
  none, some, [], ◌∷◌, ◌==◌, if◌then◌else◌, arith,
}
use proj.Base.Text.{Text, codes, lex, is_empty}
use proj.Config.{
  Node, Entries, Items, ConfigVar, Store, init_from_yaml, lookup, lookup_data, from_string,
}
use proj.Config.Dict.{find}
use proj.Config.Flatten.{first, paths, dotted, dots, init_from_yaml_lem}
use proj.Config.Cast.{
  string_of_string, last_byte, but_last, vector_of_string, string_of_vector, vector_of_string_lem,
}
use proj.Config.Load.{Took, lookup_data_lem, lookup_stale}

-- Only scalars are printed, as they are.
abbrev dump : Node → Text
dump (Node.scalar str) = str
dump other = []

-- `tcp: { port: 80, hosts: [a, b] }`
abbrev file : Node
file = Node.map (
    Entries.entry (codes "tcp")
      (Node.map (
        Entries.entry (codes "port") (Node.scalar (codes "80")) (
          Entries.entry (codes "hosts")
            (Node.sequence (
              Items.item (Node.scalar (codes "a"))
                (Items.item (Node.scalar (codes "b")) Items.no_item)))
            Entries.no_entry)))
      Entries.no_entry)

init_from_yaml_lem_example :
    find (codes "tcp.port") (init_from_yaml dump file [] [])
    ≡ first (codes "tcp.port") (paths dump file [])
init_from_yaml_lem_example = init_from_yaml_lem dump file (codes "tcp.port")

port_found : first (codes "tcp.port") (paths dump file []) ≡ some (codes "80")
unfolding first paths lex dotted dots
port_found = refl

abbrev text_var : Text → Text → ConfigVar Text
text_var name val = record {
  name = name;
  description = [];
  val = val;
  of_string = λ str. some str;
  cb = none;
  told = [];
}

-- One with a listener that throws at an empty text.
abbrev heard_var : Text → Text → ConfigVar Text
heard_var name val = record (text_var name val) { cb = some (λ old new. not (is_empty new)) }

-- The variables `a` and `b`, at the addresses 0 and 1.
abbrev store : Store Text
store = record {
  vars =
      λ k. if k == 0 then heard_var (codes "a") (codes "x") else text_var (codes "b") (codes "y");
  next = 2;
  registry = (codes "a", 0) ∷ (codes "b", 1) ∷ [];
}

a_found : find (codes "a") store.registry ≡ some 0
unfolding find lex
a_found = refl

b_elsewhere : find (codes "b") store.registry ≢ some 0
unfolding find lex
b_elsewhere h = cc

a_elsewhere : find (codes "a") store.registry ≢ some 1
unfolding find lex
a_elsewhere h = cc

c_nowhere : find (codes "c") store.registry ≢ some 1
unfolding find lex
c_nowhere h = cc

c_not_there : find (codes "c") store.registry ≢ some 0
unfolding find lex
c_not_there h = cc

lookup_data_lem_example :
    Took
      (heard_var (codes "a") (codes "x"))
      (codes "1")
      ((lookup_data ((codes "a", codes "1") ∷ (codes "c", codes "3") ∷ []) store).vars 0)
    × ((lookup_data ((codes "a", codes "1") ∷ (codes "c", codes "3") ∷ []) store).vars 1
        ≡ text_var (codes "b") (codes "y"))
lookup_data_lem_example =
    lookup_data_lem [] (codes "a") (codes "1") ((codes "c", codes "3") ∷ []) store 0 1 a_found tt
      (c_not_there, tt) (a_elsewhere, (c_nowhere, tt))

-- The listener of `a` was called with both values.
listener_told :
    ((lookup_data ((codes "a", codes "1") ∷ []) store).vars 0).told ≡ (codes "x", codes "1") ∷ []
unfolding lookup_data find lex from_string
listener_told = refl

only_a : (k : Text) → lex k (codes "a") ≢ Ordering.eq → find k store.registry ≢ some 0
unfolding find
only_a k h e = ground arith

lookup_stale_test :
    ((lookup_data
          ((codes "a", codes "1") ∷ [])
          (lookup (codes "a") (codes "z") [] (λ str. some str) store).1).vars
        0
      ≡ heard_var (codes "a") (codes "x"))
    × (find (codes "a") (lookup (codes "a") (codes "z") [] (λ str. some str) store).1.registry
        ≡ some 2)
    × (((lookup (codes "a") (codes "z") [] (λ str. some str) store).1.vars 2).val ≡ codes "z")
lookup_stale_test =
    lookup_stale (codes "a") (codes "z") [] (λ str. some str) ((codes "a", codes "1") ∷ []) store 0
      (omega arith) only_a

-- Items printed one behind the other: a byte as its successor, and 0 behind each item.
abbrev emit : List Text → Text
emit [] = []
emit (t ∷ ts) = map suc t ++ 0 ∷ emit ts

abbrev items_from : Text → Text → List Text
items_from cur [] = []
items_from cur (zero ∷ s) = cur ∷ items_from [] s
items_from cur (suc c ∷ s) = items_from (cur ++ c ∷ []) s

abbrev load : Text → Option (List Text)
load str = some (items_from [] str)

items_from-item :
    (cur t s : Text) → items_from cur (map suc t ++ 0 ∷ s) ≡ (cur ++ t) ∷ items_from [] s
items_from-item cur [] s = ap (λ x. x ∷ items_from [] s) (sym (append-nil cur))
items_from-item cur (c ∷ t) s =
    items_from-item (cur ++ c ∷ []) t s
    ∙ ap (λ x. x ∷ items_from [] s) (append_assoc cur (c ∷ []) t)

items_from-emit : (ts : List Text) → items_from [] (emit ts) ≡ ts
items_from-emit [] = refl
items_from-emit (t ∷ ts) = items_from-item [] t (emit ts) ∙ ap (λ x. t ∷ x) (items_from-emit ts)

-- Texts that are printed with a mark in front, and read back only with it.
abbrev marked : Text → Text
marked t = 33 ∷ t

abbrev unmarked : Text → Option Text
unmarked [] = none
unmarked (c ∷ t) = if c == 33 then some t else none

vector_of_string_lem_test :
    (vector_of_string load unmarked (string_of_vector emit marked (codes "a" ∷ codes "b" ∷ []))
      ≡ some (codes "a" ∷ codes "b" ∷ []))
    × (vector_of_string load unmarked
          (emit (map marked (codes "a" ∷ codes "b" ∷ []) ++ codes "c" ∷ codes "!d" ∷ []))
        ≡ some (codes "a" ∷ codes "b" ∷ []))
vector_of_string_lem_test =
    vector_of_string_lem unmarked marked (λ t. refl) load emit (codes "a" ∷ codes "b" ∷ [])
      (codes "c") (codes "!d" ∷ []) (λ ts. ap (λ x. some x) (items_from-emit ts)) refl

unquoted : string_of_string (codes "\"ab\"") ≡ some (codes "ab")
unfolding string_of_string but_last last_byte
unquoted = refl

lone_mark : string_of_string (codes "\"") ≡ none
unfolding string_of_string
lone_mark = refl
