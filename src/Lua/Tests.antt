-- ===== src/Lua/Tests.antt =====
-- Calls from scripts.
use proj.Base.{ℕ, ◌≡◌, refl, true, none, some, [], ◌∷◌, ◌==◌, if◌then◌else◌, arith}
use proj.Base.Text.{Text, codes, lex}
use proj.Config.Dict.{find, or_else}
use proj.Log.Appender.{Store, construct_stdout}
use proj.Log.Level.{Level}
use proj.Log.Logger.{Logger}
use proj.Log.Logger.Laws.{Logged}
use proj.Log.Manager.{Loggers, get_logger}
use proj.Log.Manager as Manager
use proj.Lua.{Stack, Pushed}
use proj.Lua.Bits.{get_bit, set_bit, get_bit_amount, amount}
use proj.Lua.BitLaws.{asking, setting, get_bit-set_bit, get_bit_amount_lem}
use proj.Lua.Register.{Global, Globals, construct_state, construct_state_lem, reg, table}
use proj.Lua.Logging.{Moment, log, lua_log-Logged}
use proj.Utils.{lua_file_redefine, find_from, behind}

get_bit_amount_lem_example : get_bit_amount (asking 2147483669 0) ≡ none
get_bit_amount_lem_example = get_bit_amount_lem (asking 2147483669 0) 2147483669 refl (omega arith)

three_ones : get_bit_amount (asking 21 0) ≡ some (Pushed.int 3)
unfolding get_bit_amount amount
three_ones = refl

get_bit-set_bit_example :
    (v : ℕ) × (set_bit (setting 20 32 1) ≡ some (Pushed.int v))
    × (get_bit (asking v 32) ≡ some (Pushed.boolean true))
get_bit-set_bit_example =
    get_bit-set_bit 20 32 1 32 (omega arith) (omega arith) (omega arith) (omega arith) (omega arith)

cleared : set_bit (setting 21 3 0) ≡ some (Pushed.int 17)
unfolding set_bit
cleared = refl

abbrev libs : Globals
libs = (codes "log", Global.other) ∷ (codes "print", Global.other) ∷ []

construct_state_lem_example :
    (construct_state none ≡ none)
    × (s : Globals) × (construct_state (some libs) ≡ some s)
    × ((key : Text) → find key s ≡ or_else (proj.Lua.Register.last_of key table) (find key libs))
    × ((key : Text) → find key s ≡ find key (reg libs))
construct_state_lem_example = construct_state_lem libs

abbrev now : Moment
now = record { thread_id = 7; time = 0; elapse = 12 }

-- `log("root", 3, "@l-src/main.lua", 9, "hi")`
abbrev call : Stack
call = record {
  to_int = λ i. if i == 2 then some 3 else if i == 4 then some 9 else none;
  to_text = λ i.
      if i == 1
      then some (codes "root")
      else if i == 3
      then some (codes "@l-src/main.lua")
      else if i == 5
      then some (codes "hi")
      else none;
}

abbrev root : Logger
root = record { appenders = 0 ∷ []; name = codes "root"; level = Level.info }

abbrev loggers : Loggers
loggers = (codes "root", root) ∷ []

abbrev store : Store
store = record { appenders = λ k. construct_stdout; next = 1; cout = [] }

abbrev no_time : ℕ → Text
no_time t = []

file_name : lua_file_redefine (codes "@l-src/main.lua") ≡ some (codes "main.lua")
unfolding lua_file_redefine find_from behind
file_name = refl

lua_log-Logged_example :
    (t : Store) × (log no_time now call loggers store ≡ some (loggers, t))
    × Logged no_time Level.warn
        (record {
          line = 9;
          thread_id = 7;
          fiber_id = 0;
          time = 0;
          elapse = 12;
          filename = codes "main.lua";
          logger_name = codes "root";
          content = codes "hi";
        })
        (0 ∷ [])
        store
        t
unfolding get_logger Manager.find lex
lua_log-Logged_example =
    lua_log-Logged no_time now call loggers store (codes "root") (codes "@l-src/main.lua")
      (codes "main.lua") (codes "hi") Level.warn 9 refl refl refl file_name refl refl
