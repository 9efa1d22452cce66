-- ===== src/Log/Setup/Init.antt =====
-- What `LogIniter` of src/log.cc sets up.
use proj.Base.{
  Any, ◌≡◌, refl, sym, Bool, false, Bool-cases, Option-cases, inl, inr, ◌⊎◌, none, some, List, [],
  ◌∷◌, All, arith,
}
use proj.Base.Ensures.{Ensures, Ensures-bind, Ensures-then, Ensures-some}
use proj.Base.Text.{Text, codes, is_empty}
use proj.Config.{ConfigVar, lookup, lookup_data, set_item, load_from_yaml}
use proj.Config as Config
use proj.Config.Cast.{vector_of_string}
use mathlib.Core.Path.{subst}
use proj.Config.Kept.{load_from_yaml-IsKept, lookup-IsKept}
use proj.Log.Appender.{Store}
use proj.Log.Logger as Logger
use proj.Log.Manager.{
  LogAppDef, LogDef, Loggers, new_appender, configure, allocate, add_all, from_yaml, get_logger,
  put_logger,
}
use proj.Log.Manager.Load.{IsNull}
use proj.Log.Setup.{log_def_of_string, from_yaml_all, System, logs_of_string, configured, log_init}
use proj.Log.Setup.Levels.{IsOpenDef, log_def_of_string-IsOpenDef, from_items-Open}
use proj.Log.Setup.Open.{AllOpen, OpenState, from_yaml_all-Open}

-- A named definition with an appender that `fromYaml` cannot make.
abbrev pub IsNullDef : LogDef → Type 0
IsNullDef d = (is_empty d.name ≡ false) × Any IsNull d.appends

new_appender-none :
    (opens : Text → Bool) (it : LogAppDef) → new_appender opens it ≡ none → IsNull it
new_appender-none opens it h = ground arith

add_all-cases :
    (opens : Text → Bool) (defs : List LogAppDef) (logger : Logger.Logger) (s : Store)
    → ((r : Logger.Logger × Store) × (add_all opens defs logger s ≡ some r))
      ⊎ ((add_all opens defs logger s ≡ none) × Any IsNull defs)
unfolding add_all
add_all-cases opens [] logger s = inl ((logger, s), refl)
add_all-cases opens (it ∷ rest) logger s = elim (Option-cases (new_appender opens it)) [
  | inl e ↦ inr (rw e refl, inl (new_appender-none opens it e))
  | inr (a, e) ↦
      let made = allocate (configure a it) s in
      elim (add_all-cases opens rest (Logger.add_appender logger (some s.next)) made.1) [
        | inl (r, f) ↦ inl (r, rw e f)
        | inr (f, null) ↦ inr (rw e f, inr null)
      ]
]

from_yaml-cases :
    (opens : Text → Bool) (log : LogDef) (m : Loggers) (s : Store)
    → ((r : Loggers × Store) × (from_yaml opens log m s ≡ some r))
      ⊎ ((from_yaml opens log m s ≡ none) × IsNullDef log)
unfolding from_yaml
from_yaml-cases opens log m s = elim (Bool-cases (is_empty log.name)) [
  | inl e ↦ inl ((m, s), rw e refl)
  | inr e ↦
      let found = get_logger log.name m in
      elim (add_all-cases opens log.appends (Logger.set_level found.0 log.level) s) [
        | inl (r, f) ↦ inl ((put_logger log.name r.0 found.1, r.1), rw (e, f) refl)
        | inr (f, null) ↦ inr (rw (e, f) refl, (e, null))
      ]
]

from_yaml_all-cases :
    (opens : Text → Bool) (defs : List LogDef) (m : Loggers) (s : Store)
    → ((r : Loggers × Store) × (from_yaml_all opens defs m s ≡ some r))
      ⊎ ((from_yaml_all opens defs m s ≡ none) × Any IsNullDef defs)
unfolding from_yaml_all
from_yaml_all-cases opens [] m s = inl ((m, s), refl)
from_yaml_all-cases opens (it ∷ rest) m s = elim (from_yaml-cases opens it m s) [
  | inr (e, null) ↦ inr (rw e refl, inl null)
  | inl (r, e) ↦ elim (from_yaml_all-cases opens rest r.0 r.1) [
    | inl (t, f) ↦ inl (t, rw e f)
    | inr (f, null) ↦ inr (rw e f, inr null)
  ]
]

module _ {N V : Type 0} (sys : System N V)
    (holds : (defs : List LogDef) → sys.project (sys.inject defs) ≡ defs) where
  abbrev OpenValue : V → Type 0
  OpenValue v = All IsOpenDef (sys.project v)

  injected : (defs : List LogDef) → All IsOpenDef defs → OpenValue (sys.inject defs)
  injected defs all = subst (λ ds. All IsOpenDef ds) (sym (holds defs)) all

  logs_of_string-Open : (str : Text) → Ensures OpenValue (logs_of_string sys str)
  logs_of_string-Open str =
      Ensures-bind (λ ds. All IsOpenDef ds) OpenValue
        (vector_of_string sys.items_of (log_def_of_string sys.yaml) str) _
        (Ensures-then (λ ds. All IsOpenDef ds) (sys.items_of str) _
          λ items.
            from_items-Open (log_def_of_string sys.yaml) items []
              (log_def_of_string-IsOpenDef sys.yaml) tt)
        λ defs all. injected defs all

  configured-IsOpenDef : (config : Config.Store V) → All IsOpenDef (configured sys config).1
  configured-IsOpenDef config =
      let made =
        lookup (codes "logs") (sys.inject []) (codes "config logs") (logs_of_string sys) config in
      let file = codes "./config/yaml/config.yml" in
      (load_from_yaml-IsKept OpenValue sys.dump sys.load_file file made.1 made.0 (
        lookup-IsKept OpenValue (codes "logs") (sys.inject []) (codes "config logs")
          (logs_of_string sys) config (injected [] tt) logs_of_string-Open)).0

  -- Whatever the configuration file says, `LogIniter` sets up the loggers, and then all of them and
  -- all their appenders have the least level, if those that were there had: no level of the file is
  -- kept. Or a named definition of the file has a null appender, and nothing is defined.
  pub log_init-AllOpen :
      (config : Config.Store V) (m : Loggers) (s : Store)
      → AllOpen m s
      → ((r : Config.Store V × Loggers × Store) × (log_init sys config m s ≡ some r)
          × AllOpen r.1 r.2)
        ⊎ ((log_init sys config m s ≡ none) × Any IsNullDef (configured sys config).1)
  unfolding log_init
  log_init-AllOpen config m s h =
      let loaded = configured sys config in
      let defs = loaded.1 in
      elim (from_yaml_all-cases sys.opens defs m s) [
        | inl (r, e) ↦ inl (
          (loaded.0, r.0, r.1),
          rw e refl,
          Ensures-some OpenState (from_yaml_all sys.opens defs m s) r
              (from_yaml_all-Open sys.opens defs m s (configured-IsOpenDef config) h) e,
        )
        | inr (e, null) ↦ inr (rw e refl, null)
      ]
