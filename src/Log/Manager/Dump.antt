-- ===== src/Log/Manager/Dump.antt =====
-- What `LoggerMgr::toYamlString` of src/log.cc prints.
use proj.Base.{
  ℕ, suc, ◌≡◌, ◌≢◌, sym, ap, ◌∙◌, none, some, List, [], ◌∷◌, ◌++◌, map, length, concat, arith,
  append_assoc, append-nil, length-append, ◌>>=◌, replicate,
}
use proj.Base.Text.{Text}
use proj.Log.Appender.{Store, LogAppender, Kind}
use proj.Log.Logger as Logger
use proj.Log.Logger.{add_appender}
use proj.Log.Manager.{
  LogAppDef, LogDef, Loggers, construct, appender_def, push_appenders, fill_first, to_log_defs,
}

-- The definition of an appender that has a formatter.
abbrev pub plain_def : LogAppender → LogAppDef
plain_def it =
    let pattern : Text = elim it.formatter [ none ↦ [] | some f ↦ f.pattern ] in
    elim it.kind [
      | Kind.file ↦ record { type = 1; level = it.level; filename = it.filename; format = pattern }
      | Kind.stdout ↦ record { type = 0; level = it.level; filename = []; format = pattern }
    ]

abbrev pub plain_defs : Store → Logger.Logger → List LogAppDef
plain_defs s logger = map (λ k. plain_def (s.appenders k)) logger.appenders

abbrev pub IsFormatted : Store → Type 0
IsFormatted s = (k : ℕ) → (s.appenders k).formatter ≢ none

appender_def-plain :
    (it : LogAppender) → it.formatter ≢ none → appender_def it ≡ some (plain_def it)
appender_def-plain it h = ground arith

push_appenders_lem :
    (s : Store) (ks : List ℕ) (acc : List LogAppDef)
    → IsFormatted s
    → push_appenders s ks acc ≡ some (acc ++ map (λ k. plain_def (s.appenders k)) ks)
unfolding push_appenders
push_appenders_lem s [] acc h = ap (λ ds. some ds) (sym (append-nil acc))
push_appenders_lem s (k ∷ ks) acc h =
    let d = plain_def (s.appenders k) in
    ap (λ o. o >>= λ lad. push_appenders s ks (acc ++ lad ∷ []))
      (appender_def-plain (s.appenders k) (h k))
    ∙ push_appenders_lem s ks (acc ++ d ∷ []) h
    ∙ ap (λ ds. some ds) (append_assoc acc (d ∷ []) (map (λ k. plain_def (s.appenders k)) ks))

fill_first_lem :
    (s : Store) (m : Loggers) (key : Text) (logger : Logger.Logger) (first : LogDef)
    → IsFormatted s
    → fill_first s (m ++ (key, logger) ∷ []) first
      ≡ some (record {
        name = logger.name;
        level = logger.level;
        appends = first.appends ++ concat (map (λ e. plain_defs s e.1) (m ++ (key, logger) ∷ []));
      })
unfolding fill_first
fill_first_lem s [] key logger first h =
    ap (λ o. o >>= λ ds. some (record { name = logger.name; level = logger.level; appends = ds }))
      (push_appenders_lem s logger.appenders first.appends h
        ∙ ap (λ t. some (first.appends ++ t)) (sym (append-nil (plain_defs s logger))))
fill_first_lem s ((k, lg) ∷ m) key logger first h =
    let more = concat (map (λ e. plain_defs s e.1) (m ++ (key, logger) ∷ [])) in
    ap
      (λ o. o >>= λ ds.
        fill_first s (m ++ (key, logger) ∷ [])
          (record { name = lg.name; level = lg.level; appends = ds }))
      (push_appenders_lem s lg.appenders first.appends h)
    ∙ fill_first_lem s m key logger
        (record { name = lg.name; level = lg.level; appends = first.appends ++ plain_defs s lg }) h
    ∙ ap (λ t. some (record { name = logger.name; level = logger.level; appends = t }))
        (append_assoc first.appends (plain_defs s lg) more)

-- With a formatter in every appender, the definitions that `toYamlString` prints are one with the
-- name and the level of the last logger and the appenders of all of them, and behind it, for each
-- other logger, an empty one.
pub to_log_defs_lem :
    (s : Store) (m : Loggers) (key : Text) (logger : Logger.Logger)
    → IsFormatted s
    → to_log_defs s (m ++ (key, logger) ∷ [])
      ≡ some (
          record {
            name = logger.name;
            level = logger.level;
            appends = concat (map (λ e. plain_defs s e.1) (m ++ (key, logger) ∷ []));
          }
          ∷ replicate (length m) construct)
unfolding to_log_defs
to_log_defs_lem s [] key logger h =
    ap (λ o. o >>= λ first. some (first ∷ [])) (fill_first_lem s [] key logger construct h)
to_log_defs_lem s ((k, lg) ∷ m) key logger h =
    ap (λ o. o >>= λ first. some (first ∷ replicate (length (m ++ (key, logger) ∷ [])) construct))
      (fill_first_lem s ((k, lg) ∷ m) key logger construct h)
    ∙ ap
        (λ n. some (
          record {
            name = logger.name;
            level = logger.level;
            appends = concat (map (λ e. plain_defs s e.1) ((k, lg) ∷ m ++ (key, logger) ∷ []));
          }
          ∷ replicate n construct))
        {y = suc (length m)} (length-append m ((key, logger) ∷ []) ∙ omega arith)
