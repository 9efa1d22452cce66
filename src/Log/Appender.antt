-- ===== src/Log/Appender.antt =====
-- `LogAppender`, `StdoutLogAppender` and `FileLogAppender` of src/log.h and src/log.cc, and the store
-- of the appenders that loggers share by pointer.
use proj.Base.{ℕ, Bool, true, false, Option, none, some, [], ◌++◌, ◌==◌, if◌then◌else◌}
use proj.Base.Text.{Text}
use proj.Log.Level.{Level}
use proj.Log.Format as Format
use proj.Log.Format.{LogFormatter, LogEvent, format}

-- `m_type`: 0 is standard output, 1 a file.
pub data Kind : Type 0 where
  stdout file : Kind

-- The fields of the three classes. `m_fileStream` is the text written to the file since it was last
-- opened, or none if the opening failed.
pub record LogAppender : Type 0 where
  pub formatter : Option LogFormatter
  pub level : Level
  pub kind : Kind
  pub filename : Text
  pub stream : Option Text

-- What the program writes to: the appenders by their address, the next free address, and what was
-- written to `std::cout`.
pub record Store : Type 0 where
  pub appenders : ℕ → LogAppender
  pub next : ℕ
  pub cout : Text

-- The appender at an address is changed.
abbrev pub put : ℕ → LogAppender → Store → Store
put addr a s = record s { appenders = λ k. if k == addr then a else s.appenders k }

-- `setLevel`
abbrev pub set_level : LogAppender → Level → LogAppender
set_level a lv = record a { level = lv }

-- `setFormat(LogFormatter::ptr)`
abbrev pub set_format : LogAppender → Option LogFormatter → LogAppender
set_format a f = record a { formatter = f }

-- `setFormat(const std::string &)`
abbrev pub set_format_string : LogAppender → Text → LogAppender
set_format_string a pattern = record a { formatter = some (Format.construct pattern) }

-- `StdoutLogAppender::StdoutLogAppender`
abbrev pub construct_stdout : LogAppender
construct_stdout = record {
  formatter = some (Format.construct []);
  level = Level.unknow;
  kind = Kind.stdout;
  filename = [];
  stream = none;
}

-- `FileLogAppender::reopen`; `opens` tells whether the file of a name can be opened for writing.
abbrev pub reopen : (opens : Text → Bool) → LogAppender → Bool × LogAppender
reopen opens a =
    if opens a.filename
    then (true, record a { stream = some [] })
    else (false, record a { stream = none })

-- `FileLogAppender::FileLogAppender`
abbrev pub construct_file : (opens : Text → Bool) → Text → LogAppender
construct_file opens name =
    record (reopen opens (record {
      formatter = some (Format.construct []);
      level = Level.unknow;
      kind = Kind.stdout;
      filename = name;
      stream = none;
    })).1 { kind = Kind.file }

-- `<<` to the file's stream: nothing is written to one that did not open.
abbrev pub append_stream : Option Text → Text → Option Text
append_stream none str = none
append_stream (some old) str = some (old ++ str)

-- The virtual `format` of an appender, by its class.
module _ (local_time : ℕ → Text) where
  -- `StdoutLogAppender::format`
  abbrev pub stdout_format : LogAppender → Level → LogEvent → Store → Store
  stdout_format a lv event s = elim a.formatter [
    | none ↦ s
    | some f ↦ record s { cout = s.cout ++ format local_time f lv event }
  ]

  -- `FileLogAppender::format`, of the appender at an address.
  abbrev pub file_format : ℕ → LogAppender → Level → LogEvent → Store → Store
  file_format addr a lv event s = elim a.formatter [
    | none ↦ s
    | some f ↦
        put addr (record a { stream = append_stream a.stream (format local_time f lv event) }) s
  ]

  -- `it->format(level,event)`
  abbrev pub appender_format : ℕ → Level → LogEvent → Store → Store
  appender_format addr lv event s =
      let a = s.appenders addr in
      elim a.kind [
        | Kind.stdout ↦ stdout_format a lv event s
        | Kind.file ↦ file_format addr a lv event s
      ]
