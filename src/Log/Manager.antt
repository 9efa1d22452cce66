-- ===== src/Log/Manager.antt =====
-- `LogAppDef`, `LogDef` and `LoggerMgr` of src/log.h and src/log.cc.
pub mod Order
pub mod Registry
pub mod Load
pub mod Dump
use Prim.Native.Nat.{Ordering}
use proj.Base.{
  ℕ, ◌+◌, Bool, true, false, Option, none, some, List, [], ◌∷◌, ◌++◌, map, length, if◌then◌else◌,
  ltb, replicate, ◌>>=◌, ◌==◌,
}
use proj.Base.Text.{Text, is_empty, lex}
use proj.Log.Level.{Level, number}
use proj.Log.Format.{LogFormatter}
use proj.Log.Appender.{
  Store, LogAppender, Kind, put, construct_stdout, construct_file, set_format_string,
}
use proj.Log.Appender as Appender
use proj.Log.Logger as Logger
use proj.Log.Logger.{add_appender}

-- `LogAppDef`; `type` is any `int`.
pub record LogAppDef : Type 0 where
  pub type : ℕ
  pub level : Level
  pub filename : Text
  pub format : Text

-- `LogDef`
pub record LogDef : Type 0 where
  pub name : Text
  pub level : Level
  pub appends : List LogAppDef

-- `LogDef::LogDef`
abbrev pub construct : LogDef
construct = record { name = []; level = Level.unknow; appends = [] }

-- `LogDef::operator<`
unfoldable pub less : LogDef → LogDef → Bool
less lhs rhs = elim (lex lhs.name rhs.name) [
  | Ordering.lt ↦ true
  | Ordering.gt ↦ false
  | Ordering.eq ↦
      if ltb (number lhs.level) (number rhs.level)
      then true
      else if ltb (number rhs.level) (number lhs.level)
      then false
      else ltb (length lhs.appends) (length lhs.appends)
]

-- `m_loggers`, a `std::map`: its entries in the order of the names.
abbrev pub Loggers : Type 0
Loggers = List (Text × Logger.Logger)

-- `m_loggers.find(name)`
unfoldable pub find : Text → Loggers → Option Logger.Logger
find name [] = none
find name ((key, logger) ∷ m) = elim (lex name key) [
  | Ordering.lt ↦ none
  | Ordering.eq ↦ some logger
  | Ordering.gt ↦ find name m
]

-- The logger of a name is put in its place, over the one there if there is one: what an insert does
-- for a new name, and what a change through the logger's pointer does for an old one.
unfoldable pub put_logger : Text → Logger.Logger → Loggers → Loggers
put_logger name logger [] = (name, logger) ∷ []
put_logger name logger ((key, old) ∷ m) = elim (lex name key) [
  | Ordering.lt ↦ (name, logger) ∷ (key, old) ∷ m
  | Ordering.eq ↦ (key, logger) ∷ m
  | Ordering.gt ↦ (key, old) ∷ put_logger name logger m
]

-- `LoggerMgr::getLogger`. The pointer that it returns is the place of the name in the map.
unfoldable pub get_logger : Text → Loggers → Logger.Logger × Loggers
get_logger name m = elim (find name m) [
  | none ↦ (Logger.construct name, put_logger name (Logger.construct name) m)
  | some logger ↦ (logger, m)
]

-- `new` of an appender: its address, and the store with it.
abbrev pub allocate : LogAppender → Store → ℕ × Store
allocate a s = (s.next, record (put s.next a s) { next = s.next + 1 })

-- The appender that `fromYaml` makes of one definition; it stays null where a file has no name and
-- for a type that is neither 0 nor 1.
abbrev pub new_appender : (opens : Text → Bool) → LogAppDef → Option LogAppender
new_appender opens it =
    if it.type == 0
    then some construct_stdout
    else if it.type == 1
    then (if is_empty it.filename then none else some (construct_file opens it.filename))
    else none

-- `apd->setLevel(it.level);` and the format, if one is given.
abbrev pub configure : LogAppender → LogAppDef → LogAppender
configure a it =
    let leveled = Appender.set_level a it.level in
    if is_empty it.format then leveled else set_format_string leveled it.format

-- The loop of `fromYaml`; the call through a null pointer is none.
unfoldable pub add_all :
    (opens : Text → Bool) → List LogAppDef → Logger.Logger → Store → Option (Logger.Logger × Store)
add_all opens [] logger s = some (logger, s)
add_all opens (it ∷ rest) logger s = new_appender opens it >>= λ a.
    let made = allocate (configure a it) s in
    add_all opens rest (add_appender logger (some made.0)) made.1

-- `LoggerMgr::fromYaml`
unfoldable pub from_yaml :
    (opens : Text → Bool) → LogDef → Loggers → Store → Option (Loggers × Store)
from_yaml opens log m s =
    let found = get_logger log.name m in
    let changed = add_all opens log.appends (Logger.set_level found.0 log.level) s >>= λ r.
    some (put_logger log.name r.0 found.1, r.1) in
    if is_empty log.name then some (m, s) else changed

-- `LoggerMgr::toYamlString`, up to the printing of the definitions. The definition of an appender;
-- the pattern of a null formatter is none.
abbrev pub appender_def : LogAppender → Option LogAppDef
appender_def it = elim it.formatter [
  | none ↦ none
  | some f ↦ some (elim it.kind [
    | Kind.file ↦ record { type = 1; level = it.level; filename = it.filename; format = f.pattern }
    | Kind.stdout ↦ record { type = 0; level = it.level; filename = []; format = f.pattern }
  ])
]

-- The inner loop: `vec[i].appends.push_back(lad);` for each appender.
unfoldable pub push_appenders : Store → List ℕ → List LogAppDef → Option (List LogAppDef)
push_appenders s [] appends = some appends
push_appenders s (k ∷ ks) appends =
    appender_def (s.appenders k) >>= λ lad. push_appenders s ks (appends ++ lad ∷ [])

-- The outer loop. Its `i` is never moved on, so `vec[i]` is the first place in every round, here
-- apart from the places behind it.
unfoldable pub fill_first : Store → Loggers → LogDef → Option LogDef
fill_first s [] first = some first
fill_first s ((key, logger) ∷ m) first =
    push_appenders s logger.appenders first.appends >>= λ appends.
    fill_first s m (record { name = logger.name; level = logger.level; appends = appends })

-- `vec`, of as many places as there are loggers.
unfoldable pub to_log_defs : Store → Loggers → Option (List LogDef)
to_log_defs s [] = some []
to_log_defs s (entry ∷ m) =
    fill_first s (entry ∷ m) construct >>= λ first. some (first ∷ replicate (length m) construct)
