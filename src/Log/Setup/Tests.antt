-- ===== src/Log/Setup/Tests.antt =====
-- A configuration with one logger, on nodes that are trees.
use proj.Base.{Any, ℕ, ◌≡◌, ◌⊎◌, refl, Bool, true, Option, none, some, List, [], ◌∷◌, if◌then◌else◌}
use proj.Base.Text.{Text, codes, text_eq}
use proj.Config.{Node, Entries, Items}
use proj.Config as Config
use proj.Config.Yaml.{Yaml}
use proj.Log.Appender.{Store, construct_stdout}
use proj.Log.Level.{Level}
use proj.Log.Manager.{LogDef, Loggers}
use proj.Log.Setup.{System, configured, log_init, log_def_of_string, appender_of, appenders_of}
use proj.Log.Setup.Init.{IsNullDef, log_init-AllOpen}
use proj.Log.Setup.Open.{AllOpen}

field : Entries → Text → Option (Option Node)
field Entries.no_entry key = some none
field (Entries.entry k value es) key =
    let rest = field es key in if text_eq k key then some (some value) else rest

at : Node → Text → Option (Option Node)
at (Node.map es) key = field es key
at (Node.scalar str) key = none
at (Node.sequence ns) key = some none
at Node.null key = some none

as_string : Node → Option Text
as_string (Node.scalar str) = some str
as_string (Node.map es) = none
as_string (Node.sequence ns) = none
as_string Node.null = none

nodes : Items → List Node
nodes Items.no_item = []
nodes (Items.item node ns) = node ∷ nodes ns

items : Node → List Node
items (Node.sequence ns) = nodes ns
items (Node.map es) = []
items (Node.scalar str) = []
items Node.null = []

-- `{name: sys, level: ERROR, appends: [{StdoutLogAppender: {level: WARN}}]}`
abbrev definition : Node
definition = Node.map (
    Entries.entry (codes "name") (Node.scalar (codes "sys")) (
      Entries.entry (codes "level") (Node.scalar (codes "ERROR")) (
        Entries.entry (codes "appends")
          (Node.sequence (
            Items.item
              (Node.map (
                Entries.entry (codes "StdoutLogAppender")
                  (Node.map
                    (Entries.entry (codes "level") (Node.scalar (codes "WARN")) Entries.no_entry))
                  Entries.no_entry))
              Items.no_item))
          Entries.no_entry)))

abbrev yaml : Yaml Node
yaml = record {
  load = λ str. some definition;
  empty = Node.null;
  at = at;
  as_string = as_string;
  as_uint16 = λ node. none;
  items = items;
}

abbrev sys : System Node (List LogDef)
sys = record {
  yaml = yaml;
  items_of = λ str. some (str ∷ []);
  dump = λ node. codes "sys";
  load_file = λ name. some (
      Node.map (
        Entries.entry (codes "logs") (Node.sequence (Items.item definition Items.no_item))
          Entries.no_entry));
  opens = λ name. true;
  inject = λ defs. defs;
  project = λ v. v;
}

abbrev no_config : Config.Store (List LogDef)
no_config = record {
  vars = λ k. record {
    name = [];
    description = [];
    val = [];
    of_string = λ str. none;
    cb = none;
    told = [];
  };
  next = 0;
  registry = [];
}

abbrev store : Store
store = record { appenders = λ k. construct_stdout; next = 0; cout = [] }

log_init-AllOpen_example :
    ((r : Config.Store (List LogDef) × Loggers × Store) × (log_init sys no_config [] store ≡ some r)
      × AllOpen r.1 r.2)
    ⊎ ((log_init sys no_config [] store ≡ none) × Any IsNullDef (configured sys no_config).1)
log_init-AllOpen_example = log_init-AllOpen sys (λ defs. refl) no_config [] store (tt, λ k. refl)

read_back :
    log_def_of_string yaml []
    ≡ some (record {
      name = codes "sys";
      level = Level.unknow;
      appends = record { type = 0; level = Level.unknow; filename = []; format = [] } ∷ [];
    })
unfolding log_def_of_string appender_of appenders_of at field as_string items nodes text_eq
    proj.Log.Level.from_string proj.Base.Text.lower
read_back = refl
