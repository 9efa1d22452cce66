-- ===== src/Log/Tests.antt =====
-- Levels, patterns, loggers and the registry at concrete inputs.
use Prim.Native.Nat.{Ordering}
use proj.Base.{
  ℕ, zero, suc, ◌≡◌, ◌≢◌, ◌⊎◌, refl, inr, true, false, none, some, List, [], ◌∷◌, ◌++◌, map, concat,
  arith, All,
}
use proj.Base.Text.{Text, codes, decimal, lex}
use proj.Log.Level.{Level, from_string, from_string-unknow}
use proj.Log.Format as Format
use proj.Log.Format.{LogEvent, format, pattern_or_default, format_item, default_pattern}
use proj.Log.Format.Expand.{dangles, expand, last_text, format-expand, format_dangling}
use proj.Log.Appender.{Store, construct_stdout, construct_file}
use proj.Log.Logger as Logger
use proj.Log.Logger.{add_appender, erase_first, log}
use proj.Log.Logger.Laws.{Logged, log-Logged, erase_first_lem}
use proj.Log.Manager.{
  LogAppDef, LogDef, Loggers, less, find, get_logger, from_yaml, to_log_defs, construct,
}
use proj.Log.Manager.Order.{less_trans, less_appends}
use proj.Log.Manager.Registry.{get_logger_lem}
use proj.Log.Manager.Load.{IsNull, Added, from_yaml-Added, from_yaml_null}
use proj.Log.Manager.Dump.{IsFormatted, plain_defs, to_log_defs_lem}

abbrev local_time : ℕ → Text
local_time t = codes "now"

abbrev event : LogEvent
event = record {
  line = 12;
  thread_id = 3;
  fiber_id = 4;
  time = 5;
  elapse = 6;
  filename = codes "a.cc";
  logger_name = [];
  content = codes "hi";
}

from_string-unknow_test : from_string (codes "ERROR") ≡ Level.unknow
from_string-unknow_test = from_string-unknow (codes "ERROR")

-- The default pattern as it prints.
default_printed :
    expand local_time Level.warn event default_pattern
    ≡ codes "now\t6\t[]\t[WARN]\t[a.cc:12]\t[3:4]\thi\n"
unfolding expand format_item decimal
default_printed = refl

default_ends : dangles default_pattern ≡ false
unfolding dangles
default_ends = refl

format-expand_example :
    format local_time (Format.construct []) Level.warn event
    ≡ expand local_time Level.warn event default_pattern
format-expand_example = format-expand local_time Level.warn event [] default_ends

short_ends : dangles (codes "%p-") ≡ false
unfolding dangles
short_ends = refl

format_dangling_test :
    format local_time (Format.construct (codes "%p-" ++ codes "%")) Level.warn event
    ≡ expand local_time Level.warn event (codes "%p-")
      ++ (codes "<error>" ++ (last_text [] (codes "%p-") ++ codes "%"))
format_dangling_test = format_dangling local_time Level.warn event (codes "%p-") short_ends

dangling_printed :
    expand local_time Level.warn event (codes "%p-")
      ++ (codes "<error>" ++ (last_text [] (codes "%p-") ++ codes "%"))
    ≡ codes "WARN-<error>-%"
unfolding expand last_text format_item
dangling_printed = refl

-- Standard output at the address 0 and a file at the others.
abbrev store : Store
store = record {
  appenders = λ k. elim k [
    | zero ↦ construct_stdout
    | suc j ↦ construct_file (λ name. true) (codes "f.log")
  ];
  next = 2;
  cout = [];
}

abbrev logger : Logger.Logger
logger = record { appenders = 0 ∷ 1 ∷ 0 ∷ []; name = codes "root"; level = Level.info }

log-Logged_example :
    ((log local_time logger Level.warn event store).0 ≡ record event { logger_name = codes "root" })
    × Logged local_time Level.warn
        (record event { logger_name = codes "root" })
        (0 ∷ 1 ∷ 0 ∷ [])
        store
        (log local_time logger Level.warn event store).1
log-Logged_example = log-Logged local_time logger Level.warn event store

dropped :
    (All (λ (x : ℕ). x ≢ 0) (0 ∷ 1 ∷ 0 ∷ []) × (erase_first 0 (0 ∷ 1 ∷ 0 ∷ []) ≡ 0 ∷ 1 ∷ 0 ∷ []))
    ⊎ ((before after : List ℕ) × (◌≡◌ {A = List ℕ} (0 ∷ 1 ∷ 0 ∷ []) (before ++ 0 ∷ after))
        × All (λ (x : ℕ). x ≢ 0) before
        × (erase_first 0 (0 ∷ 1 ∷ 0 ∷ []) ≡ before ++ after))
dropped = erase_first_lem 0 (0 ∷ 1 ∷ 0 ∷ [])

abbrev def : Text → Level → List LogAppDef → LogDef
def name lv appends = record { name = name; level = lv; appends = appends }

less_ab : less (def (codes "a") Level.info []) (def (codes "a") Level.warn []) ≡ true
unfolding less lex
less_ab = refl

less_bc : less (def (codes "a") Level.warn []) (def (codes "b") Level.info []) ≡ true
unfolding less lex
less_bc = refl

chained : less (def (codes "a") Level.info []) (def (codes "b") Level.info []) ≡ true
chained =
    less_trans (def (codes "a") Level.info []) (def (codes "a") Level.warn [])
      (def (codes "b") Level.info []) less_ab less_bc

abbrev file_def : LogAppDef
file_def = record { type = 1; level = Level.warn; filename = codes "f.log"; format = codes "%m%n" }

abbrev null_def : LogAppDef
null_def = record { type = 1; level = Level.warn; filename = []; format = [] }

tied : less (def (codes "a") Level.info []) (def (codes "a") Level.info (file_def ∷ [])) ≡ false
tied = less_appends (codes "a") Level.info [] (file_def ∷ [])

abbrev loggers : Loggers
loggers = (codes "root", logger) ∷ []

other_differs : lex (codes "root") (codes "sys") ≢ Ordering.eq
unfolding lex
other_differs h = cc

get_logger_lem_test :
    (get_logger (codes "sys") (get_logger (codes "sys") loggers).1
      ≡ get_logger (codes "sys") loggers)
    × (find (codes "sys") (get_logger (codes "sys") loggers).1
        ≡ some (get_logger (codes "sys") loggers).0)
    × (find (codes "root") (get_logger (codes "sys") loggers).1 ≡ find (codes "root") loggers)
get_logger_lem_test = get_logger_lem (codes "sys") (codes "root") loggers other_differs

from_yaml-Added_example :
    (r : Loggers × Store) × (lg : Logger.Logger) × (from_yaml
        (λ name. true)
        (def (codes "sys") Level.warn (file_def ∷ []))
        loggers
        store
      ≡ some r)
    × (find (codes "sys") r.0 ≡ some lg)
    × Added
        (λ name. true)
        (file_def ∷ [])
        (Logger.set_level (get_logger (codes "sys") loggers).0 Level.warn)
        store
        (lg, r.1)
    × (find (codes "root") r.0 ≡ find (codes "root") loggers)
from_yaml-Added_example =
    from_yaml-Added (λ name. true) (def (codes "sys") Level.warn (file_def ∷ [])) (codes "root")
      loggers store refl (inr (refl, refl), tt) other_differs

null_def-IsNull : IsNull null_def
null_def-IsNull = (omega arith, inr refl)

from_yaml_null_test :
    from_yaml (λ name. true) (def (codes "sys") Level.warn (file_def ∷ null_def ∷ [])) loggers store
    ≡ none
from_yaml_null_test =
    from_yaml_null (λ name. true) (codes "sys") Level.warn (file_def ∷ []) null_def [] loggers store
      refl null_def-IsNull

store-IsFormatted : IsFormatted store
unfolding Format.construct
store-IsFormatted zero h = cc
store-IsFormatted (suc j) h = cc

to_log_defs_lem_example :
    to_log_defs store ((codes "root", logger) ∷ (codes "sys", Logger.construct (codes "sys")) ∷ [])
    ≡ some (
        record {
          name = codes "sys";
          level = Level.unknow;
          appends = concat (
              map
                (λ (e : Text × Logger.Logger). plain_defs store e.1)
                ((codes "root", logger) ∷ (codes "sys", Logger.construct (codes "sys")) ∷ []));
        }
        ∷ construct
        ∷ [])
to_log_defs_lem_example =
    to_log_defs_lem store loggers (codes "sys") (Logger.construct (codes "sys")) store-IsFormatted
