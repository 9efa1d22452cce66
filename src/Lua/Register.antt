-- ===== src/Lua/Register.antt =====
-- `luaRegister` and `luaState` of src/luaRegister.cc and src/luaState.cc: the globals of a state.
use Prim.Native.Nat.{Ordering}
use proj.Base.{
  ◌≡◌, refl, sym, ap, ◌∙◌, Option, none, some, List, [], ◌∷◌, arith, ◌++◌, ℕ, if◌then◌else◌, ◌==◌,
}
use proj.Base.Text.{Text, codes, lex, lex→eq}
use proj.Config.Dict.{find, assign, or_else, find-assign_same, find-assign_other}

-- The functions that are registered, and any other value of a global.
pub data Global : Type 0 where
  assert_s log set_bit get_bit get_bit_amount rand sleep sleep_ms other : Global

-- The globals of a state, by their names.
abbrev pub Globals : Type 0
Globals = List (Text × Global)

-- The calls of `lua_register` in `luaRegister::reg`.
abbrev pub table : Globals
table =
    (codes "assert_s", Global.assert_s)
    ∷ (codes "log", Global.log)
    ∷ (codes "setBit", Global.set_bit)
    ∷ (codes "getBit", Global.get_bit)
    ∷ (codes "getBitAmount", Global.get_bit_amount)
    ∷ (codes "rand", Global.rand)
    ∷ (codes "Sleep", Global.sleep)
    ∷ (codes "SleepMs", Global.sleep_ms)
    ∷ []

unfoldable pub register_all : Globals → Globals → Globals
register_all [] state = state
register_all ((name, f) ∷ rest) state = register_all rest (assign name f state)

-- `luaRegister::reg`
abbrev pub reg : Globals → Globals
reg state = register_all table state

-- `luaRegister::luaRegister`; a null state is none.
abbrev pub construct : Option Globals → Option Globals
construct none = none
construct (some state) = some (reg state)

-- `luaState::reg`; the second call of `luaRegister::reg` with a null state is undefined.
abbrev pub reg_state : Option Globals → Option Globals
reg_state state = elim (construct state) [ none ↦ none | some s ↦ some (reg s) ]

-- `luaState::luaState`, by the state that `luaL_newstate` and `luaL_openlibs` make, none where it is
-- null, which the code does not ask.
unfoldable pub construct_state : Option Globals → Option Globals
construct_state opened = elim opened [ none ↦ none | some s ↦ reg_state (some s) ]

-- `luaState::run`: the result, and the text that is printed; `do_file` is what `luaL_dofile` returns
-- with the message it leaves, and the state is never null where the constructor returned.
unfoldable pub run : (Text → ℕ × Text) → ℕ × Text
run do_file =
    let r = do_file (codes "l-src/main.lua") in if r.0 == 0 then (0, []) else (r.0, r.1 ++ 10 ∷ [])

-- What a list of registrations says of a name: the last one for it.
abbrev pub last_of : Text → Globals → Option Global
last_of key [] = none
last_of key ((name, f) ∷ rest) =
    or_else (last_of key rest)
      (elim (lex key name) [ Ordering.eq ↦ some f | Ordering.lt ↦ none | Ordering.gt ↦ none ])

or_else_assoc : (a b c : Option Global) → or_else (or_else a b) c ≡ or_else a (or_else b c)
or_else_assoc none b c = refl
or_else_assoc (some x) b c = refl

find-assign :
    (key name : Text) (f : Global) (state : Globals)
    → find key (assign name f state)
      ≡ or_else
          (elim (lex key name) [ Ordering.eq ↦ some f | Ordering.lt ↦ none | Ordering.gt ↦ none ])
          (find key state)
find-assign key name f state = by_order (lex key name) refl
  where
    by_order :
        (o : Ordering)
        → lex key name ≡ o
        → find key (assign name f state)
          ≡ or_else
              (elim (lex key name) [
                | Ordering.eq ↦ some f
                | Ordering.lt ↦ none
                | Ordering.gt ↦ none
              ])
              (find key state)
    by_order Ordering.eq e =
        rw e (
          ap (λ k. find k (assign name f state)) (lex→eq key name e)
          ∙ find-assign_same name f state)
    by_order Ordering.lt e = rw e (find-assign_other name key f state (ground (arith)))
    by_order Ordering.gt e = rw e (find-assign_other name key f state (ground (arith)))

find-register_all :
    (key : Text) (t state : Globals)
    → find key (register_all t state) ≡ or_else (last_of key t) (find key state)
unfolding register_all
find-register_all key [] state = refl
find-register_all key ((name, f) ∷ rest) state =
    find-register_all key rest (assign name f state)
    ∙ ap (λ o. or_else (last_of key rest) o) (find-assign key name f state)
    ∙ sym (or_else_assoc (last_of key rest) (last_of key ((name, f) ∷ [])) (find key state))

-- A new `luaState` has under each name of the table its function, and under any other name what it
-- had; the second registration of all of them changes nothing. Without a state the constructor's
-- behaviour is undefined.
pub construct_state_lem :
    (opened : Globals)
    → (construct_state none ≡ none)
      × (s : Globals) × (construct_state (some opened) ≡ some s)
      × ((key : Text) → find key s ≡ or_else (last_of key table) (find key opened))
      × ((key : Text) → find key s ≡ find key (reg opened))
unfolding construct_state
construct_state_lem opened = (
  refl,
  reg (reg opened),
  refl,
  (λ key.
      find-register_all key table (reg opened) ∙ again key (find-register_all key table opened)),
  λ key.
      find-register_all key table (reg opened)
      ∙ again key (find-register_all key table opened)
      ∙ sym (find-register_all key table opened),
)
  where
    twice : (a b : Option Global) → or_else a (or_else a b) ≡ or_else a b
    twice none b = refl
    twice (some x) b = refl

    again :
        (key : Text)
        → find key (reg opened) ≡ or_else (last_of key table) (find key opened)
        → or_else (last_of key table) (find key (reg opened))
          ≡ or_else (last_of key table) (find key opened)
    again key e =
        ap (λ o. or_else (last_of key table) o) e ∙ twice (last_of key table) (find key opened)
