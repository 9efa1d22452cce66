-- ===== src/Log/Setup/Open.antt =====
-- What definitions without levels make of the loggers and appenders of src/log.cc.
use proj.Base.{
  ℕ, ◌≡◌, refl, Bool, true, false, Option, none, some, List, [], ◌∷◌, if◌then◌else◌, ◌>>=◌, All,
  arith,
}
use proj.Base.Ensures.{Ensures, Ensures-bind, Ensures-then}
use proj.Base.Text.{Text, is_empty, lex}
use Prim.Native.Nat.{Ordering}
use proj.Log.Appender.{Store}
use proj.Log.Level.{Level}
use proj.Log.Logger as Logger
use proj.Log.Manager.{
  LogAppDef, LogDef, Loggers, new_appender, configure, allocate, add_all, from_yaml, get_logger,
  put_logger,
}
use proj.Log.Manager as Manager
use proj.Log.Setup.{from_yaml_all}
use proj.Log.Setup.Levels.{IsOpenDef, AllUnknow}

-- Every logger, and every appender, lets every level through.
abbrev pub AllOpen : Loggers → Store → Type 0
AllOpen m s =
    All (λ e. e.1.level ≡ Level.unknow) m × ((k : ℕ) → (s.appenders k).level ≡ Level.unknow)

abbrev OpenLoggers : Loggers → Type 0
OpenLoggers m = All (λ e. e.1.level ≡ Level.unknow) m

abbrev OpenLogger : Logger.Logger → Type 0
OpenLogger logger = logger.level ≡ Level.unknow

abbrev OpenStore : Store → Type 0
OpenStore s = (k : ℕ) → (s.appenders k).level ≡ Level.unknow

abbrev OpenPair : Logger.Logger × Store → Type 0
OpenPair r = OpenLogger r.0 × OpenStore r.1

abbrev pub OpenState : Loggers × Store → Type 0
OpenState r = AllOpen r.0 r.1

find-Open : (name : Text) (m : Loggers) → OpenLoggers m → Ensures OpenLogger (Manager.find name m)
unfolding Manager.find
find-Open name [] h = tt
find-Open name ((key, logger) ∷ m) h = by_order (lex name key) (find-Open name m h.1)
  where
    by_order :
        (o : Ordering)
        → Ensures OpenLogger (Manager.find name m)
        → Ensures OpenLogger (elim o [
          | Ordering.lt ↦ none
          | Ordering.eq ↦ some logger
          | Ordering.gt ↦ Manager.find name m
        ])
    by_order Ordering.lt later = tt
    by_order Ordering.eq later = h.0
    by_order Ordering.gt later = later

put_logger-Open :
    (name : Text) (logger : Logger.Logger) (m : Loggers)
    → OpenLogger logger
    → OpenLoggers m
    → OpenLoggers (put_logger name logger m)
unfolding put_logger
put_logger-Open name logger [] u h = (u, tt)
put_logger-Open name logger ((key, old) ∷ m) u h =
    by_order (lex name key) (put_logger-Open name logger m u h.1)
  where
    by_order :
        (o : Ordering)
        → OpenLoggers (put_logger name logger m)
        → OpenLoggers (elim o [
          | Ordering.lt ↦ (name, logger) ∷ (key, old) ∷ m
          | Ordering.eq ↦ (key, logger) ∷ m
          | Ordering.gt ↦ (key, old) ∷ put_logger name logger m
        ])
    by_order Ordering.lt later = (u, h)
    by_order Ordering.eq later = (u, h.1)
    by_order Ordering.gt later = (h.0, later)

get_logger-Open :
    (name : Text) (m : Loggers)
    → OpenLoggers m
    → OpenLogger (get_logger name m).0 × OpenLoggers (get_logger name m).1
unfolding get_logger
get_logger-Open name m h = by_found (Manager.find name m) (find-Open name m h)
  where
    by_found :
        (o : Option Logger.Logger)
        → Ensures OpenLogger o
        → let r : Logger.Logger × Loggers = elim o [
          | none ↦ (Logger.construct name, put_logger name (Logger.construct name) m)
          | some logger ↦ (logger, m)
        ] in
          OpenLogger r.0 × OpenLoggers r.1
    by_found none u = (refl, put_logger-Open name (Logger.construct name) m refl h)
    by_found (some logger) u = (u, h)

add_all-Open :
    (opens : Text → Bool) (defs : List LogAppDef) (logger : Logger.Logger) (s : Store)
    → AllUnknow defs
    → OpenLogger logger
    → OpenStore s
    → Ensures OpenPair (add_all opens defs logger s)
unfolding add_all
add_all-Open opens [] logger s h u o = (u, o)
add_all-Open opens (it ∷ rest) logger s h u o =
    let next = add_all-Open opens rest in
    Ensures-then OpenPair (new_appender opens it) _ λ a.
      next (Logger.add_appender logger (some s.next)) (allocate (configure a it) s).1 h.1 u
        (λ k. ground (arith, h.0, o k))

from_yaml-Open :
    (opens : Text → Bool) (log : LogDef) (m : Loggers) (s : Store)
    → IsOpenDef log
    → AllOpen m s
    → Ensures OpenState (from_yaml opens log m s)
unfolding from_yaml
from_yaml-Open opens log m s d h = by_name (is_empty log.name)
  where
    found : Logger.Logger × Loggers
    found = get_logger log.name m

    changed : Ensures OpenState (
        add_all opens log.appends (Logger.set_level found.0 log.level) s >>= λ r.
        some (put_logger log.name r.0 found.1, r.1))
    changed =
        Ensures-bind OpenPair OpenState
          (add_all opens log.appends (Logger.set_level found.0 log.level) s) _
          (add_all-Open opens log.appends (Logger.set_level found.0 log.level) s d.1 d.0 h.1)
          λ r o. (put_logger-Open log.name r.0 found.1 o.0 (get_logger-Open log.name m h.0).1, o.1)

    by_name :
        (b : Bool)
        → Ensures OpenState (
            if b
            then some (m, s)
            else add_all opens log.appends (Logger.set_level found.0 log.level) s >>= λ r.
                some (put_logger log.name r.0 found.1, r.1))
    by_name true = h
    by_name false = changed

pub from_yaml_all-Open :
    (opens : Text → Bool) (defs : List LogDef) (m : Loggers) (s : Store)
    → All IsOpenDef defs
    → AllOpen m s
    → Ensures OpenState (from_yaml_all opens defs m s)
unfolding from_yaml_all
from_yaml_all-Open opens [] m s d h = h
from_yaml_all-Open opens (it ∷ rest) m s d h =
    let next = from_yaml_all-Open opens rest in
    Ensures-bind OpenState OpenState (from_yaml opens it m s) _ (from_yaml-Open opens it m s d.0 h)
      λ r o. next r.0 r.1 d.1 o
