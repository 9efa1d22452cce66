-- ===== src/Log/Manager/Registry.antt =====
-- What `LoggerMgr::getLogger` of src/log.cc does.
use Prim.Native.Nat.{Ordering}
use proj.Base.{◌≡◌, ◌≢◌, refl, inl, inr, none, some, [], ◌∷◌, arith, Option-cases}
use proj.Base.Text.{Text, lex, lex_refl, lex→eq, lex_trans}
use proj.Log.Logger as Logger
use proj.Log.Logger.{add_appender}
use proj.Log.Manager.{Loggers, find, put_logger, get_logger}

pub find-put_logger_same :
    (name : Text) (logger : Logger.Logger) (m : Loggers)
    → find name (put_logger name logger m) ≡ some logger
unfolding find put_logger
find-put_logger_same name logger [] = ground (arith, lex_refl name)
find-put_logger_same name logger ((key, old) ∷ m) =
    ground (arith, lex_refl name, find-put_logger_same name logger m)

pub find-put_logger_other :
    (name other : Text) (logger : Logger.Logger) (m : Loggers)
    → lex other name ≢ Ordering.eq
    → find other (put_logger name logger m) ≡ find other m
unfolding find put_logger
find-put_logger_other name other logger [] h = ground arith
find-put_logger_other name other logger ((key, old) ∷ m) h =
    ground (
      arith,
      find-put_logger_other name other logger m h,
      lex→eq name key,
      lex_trans other name key,
    )

get_logger_new :
    (name : Text) (m : Loggers)
    → find name m ≡ none
    → get_logger name m ≡ (Logger.construct name, put_logger name (Logger.construct name) m)
unfolding get_logger
get_logger_new name m e = rw (e, get_logger) refl

get_logger_old :
    (name : Text) (m : Loggers) (logger : Logger.Logger)
    → find name m ≡ some logger
    → get_logger name m ≡ (logger, m)
unfolding get_logger
get_logger_old name m logger e = rw (e, get_logger) refl

-- Asking for a logger twice gives the same logger and leaves the map as it is the second time; the
-- logger got is in the map under the name, and what any other name stands for is unchanged.
pub get_logger_lem :
    (name other : Text) (m : Loggers)
    → lex other name ≢ Ordering.eq
    → (get_logger name (get_logger name m).1 ≡ get_logger name m)
      × (find name (get_logger name m).1 ≡ some (get_logger name m).0)
      × (find other (get_logger name m).1 ≡ find other m)
get_logger_lem name other m h = elim (Option-cases (find name m)) [
  | inl e ↦
      let new = Logger.construct name in
      let got = find-put_logger_same name new m in
      rw (get_logger_new name m e) (
        get_logger_old name (put_logger name new m) new got,
        got,
        find-put_logger_other name other new m h,
      )
  | inr (logger, e) ↦ rw (get_logger_old name m logger e) (get_logger_old name m logger e, e, refl)
]
