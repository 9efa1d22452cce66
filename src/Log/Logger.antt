-- ===== src/Log/Logger.antt =====
-- `Logger`, `EventWrap`, of src/log.h and src/log.cc.
pub mod Laws
use proj.Base.{ℕ, Bool, true, false, Option, none, some, List, [], ◌∷◌, ◌++◌, ◌==◌, if◌then◌else◌}
use proj.Base.Text.{Text}
use proj.Log.Level.{Level, reaches}
use proj.Log.Format.{LogEvent}
use proj.Log.Appender.{Store, LogAppender, appender_format}

-- The fields of `Logger`; the appenders by their address.
pub record Logger : Type 0 where
  pub appenders : List ℕ
  pub name : Text
  pub level : Level

-- `Logger::Logger`
abbrev pub construct : Text → Logger
construct name = record { appenders = []; name = name; level = Level.unknow }

-- `Logger::setLevel`
abbrev pub set_level : Logger → Level → Logger
set_level logger lv = record logger { level = lv }

-- `Logger::addAppender`; a null pointer is none.
abbrev pub add_appender : Logger → Option ℕ → Logger
add_appender logger none = logger
add_appender logger (some addr) = record logger { appenders = logger.appenders ++ addr ∷ [] }

-- The loop of `delAppender`, which stops behind the first one found.
unfoldable pub erase_first : ℕ → List ℕ → List ℕ
erase_first addr [] = []
erase_first addr (it ∷ rest) =
    let more = it ∷ erase_first addr rest in if it == addr then rest else more

-- `Logger::delAppender`
abbrev pub del_appender : Logger → ℕ → Logger
del_appender logger addr = record logger { appenders = erase_first addr logger.appenders }

-- `Logger::clearAppender`
abbrev pub clear_appender : Logger → Logger
clear_appender logger = record logger { appenders = [] }

module _ (local_time : ℕ → Text) where
  -- The loop of `log` over the appenders.
  unfoldable pub log_loop : List ℕ → Level → LogEvent → Store → Store
  log_loop [] lv event s = s
  log_loop (it ∷ rest) lv event s =
      log_loop rest lv event
        (if reaches lv (s.appenders it).level then appender_format local_time it lv event s else s)

  -- `Logger::log`; the event, which the caller holds too, comes back with the logger's name.
  unfoldable pub log : Logger → Level → LogEvent → Store → LogEvent × Store
  log logger lv event s =
      let named = record event { logger_name = logger.name } in
      if reaches lv logger.level then (named, log_loop logger.appenders lv named s) else (named, s)

  -- `Logger::debug`, `info`, `warn`, `error` and `fatal`.
  abbrev pub debug : Logger → LogEvent → Store → LogEvent × Store
  debug logger event s = log logger Level.debug event s

  abbrev pub info : Logger → LogEvent → Store → LogEvent × Store
  info logger event s = log logger Level.info event s

  abbrev pub warn : Logger → LogEvent → Store → LogEvent × Store
  warn logger event s = log logger Level.warn event s

  abbrev pub error : Logger → LogEvent → Store → LogEvent × Store
  error logger event s = log logger Level.error event s

  abbrev pub fatal : Logger → LogEvent → Store → LogEvent × Store
  fatal logger event s = log logger Level.fatal event s

  -- `TADPOLE_LOG_LEVEL(level,logger)<<content`: the text is streamed into the event of an
  -- `EventWrap`, whose destructor logs it.
  abbrev pub log_level : Logger → Level → LogEvent → Text → Store → LogEvent × Store
  log_level logger lv event content s =
      log logger lv (record event { content = event.content ++ content }) s
