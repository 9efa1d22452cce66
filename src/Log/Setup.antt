-- ===== src/Log/Setup.antt =====
-- The conversions between `LogDef` and texts, `LoggerMgr::toYamlString` and `LogIniter` of src/log.cc:
-- the loggers that a configuration file sets up.
pub mod Levels
pub mod Open
pub mod Init
mod Tests
use proj.Base.{
  ℕ, ◌+◌, Bool, true, false, Option, none, some, List, [], ◌∷◌, ◌++◌, ◌==◌, if◌then◌else◌, ◌>>=◌,
}
use proj.Base.Text.{Text, codes, text_eq}
use proj.Config.{Node, Entries, Items, lookup, load_from_yaml}
use proj.Config as Config
use proj.Config.Cast.{vector_of_string, string_of_vector}
use proj.Config.Yaml.{Yaml}
use proj.Log.Appender.{Store}
use proj.Log.Level.{Level, from_string, to_string}
use proj.Log.Manager.{LogAppDef, LogDef, Loggers, from_yaml, to_log_defs}
use proj.Log.Manager as Manager

module _ {N : Type 0} (yaml : Yaml N) where
  -- A field that is set where the key is defined, and keeps its value where it is not.
  abbrev pub text_at : N → Text → Text → Option Text
  text_at node key old = yaml.at node key >>= λ found. elim found [
    | none ↦ some old
    | some value ↦ yaml.as_string value
  ]

  abbrev pub level_at : N → Option Level
  level_at node = yaml.at node (codes "level") >>= λ found. elim found [
    | none ↦ some Level.unknow
    | some value ↦ yaml.as_string value >>= λ level. some (from_string level)
  ]

  -- The type, the name of the file and the node `fp` of an appender.
  abbrev pub kind_at : N → Option (ℕ × Text × N)
  kind_at it = yaml.at it (codes "StdoutLogAppender") >>= λ found. elim found [
    | some fp ↦ some (0, [], fp)
    | none ↦ yaml.at it (codes "FileLogAppender") >>= λ other. elim other [
      | some fp ↦ text_at fp (codes "path") [] >>= λ path. some (1, path, fp)
      | none ↦ some (0, [], yaml.empty)
    ]
  ]

  -- One round of the loop over the appenders.
  unfoldable pub appender_of : N → Option LogAppDef
  appender_of it = kind_at it >>= λ kind. level_at kind.2 >>= λ level.
      text_at kind.2 (codes "format") [] >>= λ format.
      some (record { type = kind.0; level = level; filename = kind.1; format = format })

  unfoldable pub appenders_of : List N → List LogAppDef → Option (List LogAppDef)
  appenders_of [] appends = some appends
  appenders_of (it ∷ rest) appends =
      appender_of it >>= λ apd. appenders_of rest (appends ++ apd ∷ [])

  abbrev pub appends_at : N → Option (List LogAppDef)
  appends_at node = yaml.at node (codes "appends") >>= λ found. elim found [
    | none ↦ some []
    | some apps ↦ appenders_of (yaml.items apps) []
  ]

  -- `LexicalCast<std::string,LogDef>`, none where it throws.
  unfoldable pub log_def_of_string : Text → Option LogDef
  log_def_of_string str = yaml.load str >>= λ node. text_at node (codes "name") [] >>= λ name.
      level_at node >>= λ level.
      appends_at node >>= λ appends. some (record { name = name; level = level; appends = appends })

-- `node[key] = value` of a map.
unfoldable pub set_entry : Text → Node → Entries → Entries
set_entry key value Entries.no_entry = Entries.entry key value Entries.no_entry
set_entry key value (Entries.entry k old es) =
    let rest = Entries.entry k old (set_entry key value es) in
    if text_eq k key then Entries.entry k value es else rest

abbrev named : Text → Node → Entries → Entries
named key value es = Entries.entry key value es

-- The loop over the appenders: `apds` has one entry for each class.
unfoldable pub appender_entries : List LogAppDef → Entries → Entries
appender_entries [] apds = apds
appender_entries (it ∷ rest) apds =
    let level = Node.scalar (to_string it.level) in
    let format = Node.scalar it.format in
    let common = named (codes "level") level (named (codes "format") format Entries.no_entry) in
    let with_path = named (codes "level") level (
      named (codes "format") format
        (named (codes "path") (Node.scalar it.filename) Entries.no_entry)) in
    appender_entries rest (
      if it.type == 0
      then set_entry (codes "StdoutLogAppender") (Node.map common) apds
      else if it.type == 1
      then set_entry (codes "FileLogAppender") (Node.map with_path) apds
      else apds)

-- A node that nothing was assigned to is null.
abbrev as_node : Entries → Node
as_node Entries.no_entry = Node.null
as_node (Entries.entry key value es) = Node.map (Entries.entry key value es)

-- `LexicalCast<LogDef,std::string>`; `dump` is what `<<` of a node prints.
unfoldable pub log_def_to_string : (dump : Node → Text) → LogDef → Text
log_def_to_string dump log =
    let apds = as_node (appender_entries log.appends Entries.no_entry) in
    dump (
      Node.map (
        named (codes "name") (Node.scalar log.name) (
          named (codes "level") (Node.scalar (to_string log.level)) (
            named (codes "appends") (Node.sequence (Items.item apds Items.no_item))
              Entries.no_entry))))

-- `LoggerMgr::toYamlString`; none where an appender has no formatter.
unfoldable pub to_yaml_string :
    (dump : Node → Text) → (emit : List Text → Text) → Store → Loggers → Option Text
to_yaml_string dump emit s m =
    to_log_defs s m >>= λ vec. some (string_of_vector emit (log_def_to_string dump) vec)

-- The loop of `LogIniter` over the definitions.
unfoldable pub from_yaml_all :
    (opens : Text → Bool) → List LogDef → Loggers → Store → Option (Loggers × Store)
from_yaml_all opens [] m s = some (m, s)
from_yaml_all opens (it ∷ rest) m s =
    from_yaml opens it m s >>= λ r. from_yaml_all opens rest r.0 r.1

-- What the configuration of the loggers is made of: yaml-cpp, with `items_of` for the printed items of a
-- list and `dump` for the text of a node; what `YAML::LoadFile` reads; which files can be opened; and
-- how the variables, of all types, hold a list of definitions.
pub record System (N V : Type 0) : Type 0 where
  pub yaml : Yaml N
  pub items_of : Text → Option (List Text)
  pub dump : Node → Text
  pub load_file : Text → Option Node
  pub opens : Text → Bool
  pub inject : List LogDef → V
  pub project : V → List LogDef

module _ {N V : Type 0} (sys : System N V) where
  -- The conversion of the variable "logs".
  abbrev pub logs_of_string : Text → Option V
  logs_of_string str = vector_of_string sys.items_of (log_def_of_string sys.yaml) str >>= λ defs.
      some (sys.inject defs)

  -- The variables when the file has been loaded, and the value of "logs" then.
  abbrev pub configured : Config.Store V → Config.Store V × List LogDef
  configured config =
      let made =
        lookup (codes "logs") (sys.inject []) (codes "config logs") logs_of_string config in
      let loaded =
        (load_from_yaml sys.dump sys.load_file (codes "./config/yaml/config.yml") made.1).1 in
      (loaded, sys.project (loaded.vars made.0).val)

  -- `LogIniter::LogIniter`
  unfoldable pub log_init :
      Config.Store V → Loggers → Store → Option (Config.Store V × Loggers × Store)
  log_init config m s =
      let loaded = configured config in
      from_yaml_all sys.opens loaded.1 m s >>= λ r. some (loaded.0, r.0, r.1)
