-- ===== src/Log/Setup/Levels.antt =====
-- The levels that `LexicalCast<std::string,LogDef>` of src/log.cc reads.
use proj.Base.{◌≡◌, refl, Option, none, some, List, [], ◌∷◌, ◌++◌, ◌>>=◌, All, All-append}
use proj.Base.Ensures.{Ensures, Ensures-bind, Ensures-then}
use proj.Base.Text.{Text, codes}
use proj.Config.Cast.{from_items}
use proj.Config.Yaml.{Yaml}
use proj.Log.Level.{Level, from_string, from_string-unknow}
use proj.Log.Manager.{LogAppDef, LogDef}
use proj.Log.Setup.{
  level_at, kind_at, text_at, appender_of, appenders_of, appends_at, log_def_of_string,
}

-- A definition all of whose levels are the least one.
abbrev pub IsOpenDef : LogDef → Type 0
IsOpenDef d = (d.level ≡ Level.unknow) × All (λ a. a.level ≡ Level.unknow) d.appends

abbrev IsUnknow : Level → Type 0
IsUnknow lv = lv ≡ Level.unknow

abbrev pub AllUnknow : List LogAppDef → Type 0
AllUnknow appends = All (λ a. a.level ≡ Level.unknow) appends

module _ {N : Type 0} (yaml : Yaml N) where
  level_at-IsUnknow : (node : N) → Ensures IsUnknow (level_at yaml node)
  level_at-IsUnknow node = Ensures-then IsUnknow (yaml.at node (codes "level")) _ by_field
    where
      by_field :
          (found : Option N)
          → Ensures IsUnknow (elim found [
            | none ↦ some Level.unknow
            | some value ↦ yaml.as_string value >>= λ level. some (from_string level)
          ])
      by_field none = refl
      by_field (some value) =
          Ensures-then IsUnknow (yaml.as_string value) (λ t. some (from_string t))
            (λ level. from_string-unknow level)

  abbrev OpenAppender : LogAppDef → Type 0
  OpenAppender a = a.level ≡ Level.unknow

  appender_of-Open : (it : N) → Ensures OpenAppender (appender_of yaml it)
  unfolding appender_of
  appender_of-Open it = Ensures-then OpenAppender (kind_at yaml it) _ λ kind.
      Ensures-bind IsUnknow OpenAppender (level_at yaml kind.2) _ (level_at-IsUnknow kind.2)
        λ level u. Ensures-then OpenAppender (text_at yaml kind.2 (codes "format") []) _ λ format. u

  appenders_of-AllUnknow :
      (its : List N) (appends : List LogAppDef)
      → AllUnknow appends
      → Ensures AllUnknow (appenders_of yaml its appends)
  unfolding appenders_of
  appenders_of-AllUnknow [] appends all = all
  appenders_of-AllUnknow (it ∷ its) appends all =
      let rest = appenders_of-AllUnknow its in
      Ensures-bind OpenAppender AllUnknow (appender_of yaml it) _ (appender_of-Open it) λ apd u.
        rest (appends ++ apd ∷ [])
          (All-append (λ a. a.level ≡ Level.unknow) appends (apd ∷ []) all (u, tt))

  appends_at-AllUnknow : (node : N) → Ensures AllUnknow (appends_at yaml node)
  appends_at-AllUnknow node = Ensures-then AllUnknow (yaml.at node (codes "appends")) _ by_field
    where
      by_field :
          (found : Option N)
          → Ensures AllUnknow
              (elim found [ none ↦ some [] | some apps ↦ appenders_of yaml (yaml.items apps) [] ])
      by_field none = tt
      by_field (some apps) = appenders_of-AllUnknow (yaml.items apps) [] tt

  pub log_def_of_string-IsOpenDef : (str : Text) → Ensures IsOpenDef (log_def_of_string yaml str)
  unfolding log_def_of_string
  log_def_of_string-IsOpenDef str = Ensures-then IsOpenDef (yaml.load str) _ λ node.
      Ensures-then IsOpenDef (text_at yaml node (codes "name") []) _ λ name.
        Ensures-bind IsUnknow IsOpenDef (level_at yaml node) _ (level_at-IsUnknow node) λ level u.
          Ensures-bind AllUnknow IsOpenDef (appends_at yaml node) _ (appends_at-AllUnknow node)
            λ appends all. (u, all)

pub from_items-Open :
    (of_item : Text → Option LogDef) (items : List Text) (acc : List LogDef)
    → ((str : Text) → Ensures IsOpenDef (of_item str))
    → All IsOpenDef acc
    → All IsOpenDef (from_items of_item (λ vec v. vec ++ v ∷ []) items acc)
unfolding from_items
from_items-Open of_item [] acc ensures all = all
from_items-Open of_item (it ∷ items) acc ensures all = by_item (of_item it) (ensures it) (λ v u.
    from_items-Open of_item items (acc ++ v ∷ []) ensures
      (All-append IsOpenDef acc (v ∷ []) all (u, tt)))
  where
    by_item :
        (o : Option LogDef)
        → Ensures IsOpenDef o
        → ((v : LogDef)
            → IsOpenDef v
            → All IsOpenDef (from_items of_item (λ vec v. vec ++ v ∷ []) items (acc ++ v ∷ [])))
        → All IsOpenDef (elim o [
          | none ↦ acc
          | some v ↦ from_items of_item (λ vec v. vec ++ v ∷ []) items (acc ++ v ∷ [])
        ])
    by_item none u next = all
    by_item (some v) u next = next v u
