-- ===== src/Lua/Logging.antt =====
-- `log` of src/luaRegister.cc: what a script logs.
use proj.Base.{ℕ, ◌≡◌, refl, Option, none, some, [], ◌==◌, if◌then◌else◌, ◌>>=◌}
use proj.Base.Text.{Text}
use proj.Log.Level.{Level, number, reaches}
use proj.Log.Format.{LogEvent}
use proj.Log.Appender.{Store}
use proj.Log.Logger as Logger
use proj.Log.Logger.Laws.{Logged, log-Logged}
use proj.Log.Manager.{Loggers, get_logger}
use proj.Utils.{lua_file_redefine, get_fiber_id}
use proj.Lua.{Stack}

-- `LogLevel::Level(level)`; a number that is no enumerator is left out: none.
abbrev pub level_of : ℕ → Option Level
level_of n =
    if n == 0
    then some Level.unknow
    else if n == 1
    then some Level.debug
    else if n == 2
    then some Level.info
    else if n == 3
    then some Level.warn
    else if n == 4
    then some Level.error
    else if n == 5
    then some Level.fatal
    else none

-- What the macro asks of the system: the thread, the time and the elapsed time.
pub record Moment : Type 0 where
  pub thread_id : ℕ
  pub time : ℕ
  pub elapse : ℕ

-- The event of `TADPOLE_LUA_LOG_LEVEL`.
abbrev pub event_of : Moment → ℕ → Text → LogEvent
event_of now line file = record {
  line = line;
  thread_id = now.thread_id;
  fiber_id = get_fiber_id;
  time = now.time;
  elapse = now.elapse;
  filename = file;
  logger_name = [];
  content = [];
}

-- `log`: the loggers, one of which may be new, and what was written. It is none where a text is null,
-- a number does not fit, or the name of the file makes `LuaFileRedefine` throw.
unfoldable pub log :
    (local_time : ℕ → Text) → Moment → Stack → Loggers → Store → Option (Loggers × Store)
log local_time now p_state m s = p_state.to_text 1 >>= λ name. p_state.to_int 2 >>= λ level.
    p_state.to_text 3 >>= λ path. lua_file_redefine path >>= λ file. p_state.to_int 4 >>= λ line.
    p_state.to_text 5 >>= λ message. level_of level >>= λ lv.
    let found = get_logger name m in
    some (found.1, (Logger.log_level local_time found.0 lv (event_of now line file) message s).1)

level_of-number : (lv : Level) → level_of (number lv) ≡ some lv
level_of-number Level.unknow = refl
level_of-number Level.debug = refl
level_of-number Level.info = refl
level_of-number Level.warn = refl
level_of-number Level.error = refl
level_of-number Level.fatal = refl

-- A call with a level's number and a file name that `LuaFileRedefine` takes does what the logger of
-- the name does with the event of that level, text, line and shortened file name, in the name of
-- fiber 0: each appender that both levels reach gets it formatted, and no other.
pub lua_log-Logged :
    (local_time : ℕ → Text) (now : Moment) (p_state : Stack) (m : Loggers) (s : Store)
    (name path file message : Text) (lv : Level) (line : ℕ)
    → p_state.to_text 1 ≡ some name
    → p_state.to_int 2 ≡ some (number lv)
    → p_state.to_text 3 ≡ some path
    → lua_file_redefine path ≡ some file
    → p_state.to_int 4 ≡ some line
    → p_state.to_text 5 ≡ some message
    → (t : Store) × (log local_time now p_state m s ≡ some ((get_logger name m).1, t))
      × Logged local_time lv
          (record {
            line = line;
            thread_id = now.thread_id;
            fiber_id = 0;
            time = now.time;
            elapse = now.elapse;
            filename = file;
            logger_name = (get_logger name m).0.name;
            content = message;
          })
          (if reaches lv (get_logger name m).0.level then (get_logger name m).0.appenders else [])
          s
          t
unfolding log get_fiber_id
lua_log-Logged local_time now p_state m s name path file message lv line e1 e2 e3 e e4 e5 =
    let logger = (get_logger name m).0 in
    let event = record (event_of now line file) { content = message } in
    (
      (Logger.log local_time logger lv event s).1,
      rw (e1, e2, e3, e, e4, e5, level_of-number lv) refl,
      (log-Logged local_time logger lv event s).1,
    )
