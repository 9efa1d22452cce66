-- ===== src/Log/Manager/Load.antt =====
-- What `LoggerMgr::fromYaml` of src/log.cc does.
use Prim.Native.Nat.{Ordering}
use proj.Base.{
  ◌≤◌, ℕ, zero, suc, ◌+◌, ◌≡◌, ◌≢◌, refl, sym, ap, ◌∙◌, ◌⊎◌, inl, inr, Bool, true, false, none,
  some, List, [], ◌∷◌, ◌++◌, length, arith, append_assoc, append-nil, All, Option-cases, ◌==◌,
  if◌then◌else◌,
}
use proj.Base.Text.{Text, lex, is_empty}
use proj.Log.Level.{Level}
use proj.Log.Format as Format
use proj.Log.Appender.{Kind, Store, LogAppender, construct_stdout, construct_file}
use proj.Log.Logger as Logger
use proj.Log.Logger.{add_appender}
use proj.Log.Manager.{
  LogAppDef, LogDef, Loggers, find, put_logger, get_logger, new_appender, configure, allocate,
  add_all, from_yaml,
}
use proj.Log.Manager.Registry.{find-put_logger_same, find-put_logger_other, get_logger_lem}

-- The addresses from `k` on.
unfoldable pub addresses : ℕ → ℕ → List ℕ
addresses k zero = []
addresses k (suc n) = k ∷ addresses (k + 1) n

-- The appender that a definition asks for, written out: its own pattern, or the default one for an
-- empty format, and its level; of type 0 the standard output, and otherwise its file, emptied if it
-- opens.
abbrev pub wanted : (Text → Bool) → LogAppDef → LogAppender
wanted opens it = record {
  formatter = some (Format.construct it.format);
  level = it.level;
  kind = if it.type == 0 then Kind.stdout else Kind.file;
  filename = if it.type == 0 then [] else it.filename;
  stream = if it.type == 0 then none else if opens it.filename then some [] else none;
}

-- An appender is the one a definition asks for.
abbrev pub Makes : (Text → Bool) → LogAppDef → LogAppender → Type 0
Makes opens it a = a ≡ wanted opens it

-- One appender for each definition, at the addresses in their order.
abbrev pub MakesAll : (Text → Bool) → Store → ℕ → List LogAppDef → Type 0
MakesAll opens t k [] = Unit
MakesAll opens t k (it ∷ rest) = Makes opens it (t.appenders k) × MakesAll opens t (k + 1) rest

-- The definitions that name no file where they need one, or have another type.
abbrev pub IsUsable : LogAppDef → Type 0
IsUsable it = (it.type ≡ 0) ⊎ ((it.type ≡ 1) × (is_empty it.filename ≡ false))

-- The appender of a file, by its fields.
abbrev file_appender : (Text → Bool) → Text → LogAppender
file_appender opens name = record {
  formatter = some (Format.construct []);
  level = Level.unknow;
  kind = Kind.file;
  filename = name;
  stream = if opens name then some [] else none;
}

construct_file_lem :
    (opens : Text → Bool) (name : Text) → construct_file opens name ≡ file_appender opens name
construct_file_lem opens name = ground arith

IsUsable-new :
    (opens : Text → Bool) (it : LogAppDef)
    → IsUsable it
    → (b : LogAppender) × (new_appender opens it ≡ some b) × (configure b it ≡ wanted opens it)
IsUsable-new opens it (inl e) = (construct_stdout, ground arith, by_format it.format refl)
  where
    by_format : (f : Text) → it.format ≡ f → configure construct_stdout it ≡ wanted opens it
    by_format [] g = rw (e, g) refl
    by_format (x ∷ xs) g = rw (e, g) refl
IsUsable-new opens it (inr (e, f)) = (
  construct_file opens it.filename,
  ground arith,
  ap (λ a. configure a it) (construct_file_lem opens it.filename) ∙ by_format it.format refl,
)
  where
    by_format :
        (f : Text)
        → it.format ≡ f
        → configure (file_appender opens it.filename) it ≡ wanted opens it
    by_format [] g = rw (e, g) refl
    by_format (x ∷ xs) g = rw (e, g) refl

-- What a run of `fromYaml` over some definitions makes of a logger and the store.
pub record Added (opens : Text → Bool) (defs : List LogAppDef) (logger : Logger.Logger) (s : Store)
    (r : Logger.Logger × Store) : Type 0 where
  pub same_name : r.0.name ≡ logger.name
  pub same_level : r.0.level ≡ logger.level
  pub appended : r.0.appenders ≡ logger.appenders ++ addresses s.next (length defs)
  pub made : MakesAll opens r.1 s.next defs
  pub old : (k : ℕ) → (s.next ≤ k) ⊎ (r.1.appenders k ≡ s.appenders k)
  pub next_lem : r.1.next ≡ s.next + length defs

add_all-Added :
    (opens : Text → Bool) (defs : List LogAppDef) (logger : Logger.Logger) (s : Store)
    → All IsUsable defs
    → (r : Logger.Logger × Store) × (add_all opens defs logger s ≡ some r)
      × Added opens defs logger s r
unfolding add_all addresses
add_all-Added opens [] logger s h = (
  (logger, s),
  refl,
  record {
    same_name = refl;
    same_level = refl;
    appended = sym (append-nil logger.appenders);
    made = tt;
    old = λ k. inr refl;
    next_lem = omega arith;
  },
)
add_all-Added opens (it ∷ rest) logger s h =
    let (b, e, w) = IsUsable-new opens it h.0 in
    let made = allocate (configure b it) s in
    let (r, eq, a) = add_all-Added opens rest (add_appender logger (some s.next)) made.1 h.1 in
    (
      r,
      rw e eq,
      record {
        same_name = a.same_name;
        same_level = a.same_level;
        appended =
            a.appended
            ∙ append_assoc logger.appenders (s.next ∷ []) (addresses (s.next + 1) (length rest));
        made = (ground (arith, a.old s.next, w), a.made);
        old = λ k. ground (arith, a.old k);
        next_lem = omega (arith, a.next_lem);
      },
    )

-- A definition with a name, all of whose appenders can be made, gives the logger of the name its
-- level and, behind the appenders that it had, one new appender for each of its definitions, with the
-- level, the pattern, the kind and the file that it names; the appenders that were there and what
-- other names stand for are unchanged.
pub from_yaml-Added :
    (opens : Text → Bool) (log : LogDef) (other : Text) (m : Loggers) (s : Store)
    → is_empty log.name ≡ false
    → All IsUsable log.appends
    → lex other log.name ≢ Ordering.eq
    → (r : Loggers × Store) × (logger : Logger.Logger) × (from_yaml opens log m s ≡ some r)
      × (find log.name r.0 ≡ some logger)
      × Added opens log.appends
          (Logger.set_level (get_logger log.name m).0 log.level)
          s
          (logger, r.1)
      × (find other r.0 ≡ find other m)
unfolding from_yaml
from_yaml-Added opens log other m s named usable h =
    let found = get_logger log.name m in
    let (r, eq, a) =
      add_all-Added opens log.appends (Logger.set_level found.0 log.level) s usable in
    (
      (put_logger log.name r.0 found.1, r.1),
      r.0,
      rw (named, eq) refl,
      find-put_logger_same log.name r.0 found.1,
      a,
      find-put_logger_other log.name other r.0 found.1 h ∙ (get_logger_lem log.name other m h).2,
    )

-- An appender definition for which `fromYaml` makes no appender.
abbrev pub IsNull : LogAppDef → Type 0
IsNull it = (it.type ≢ 0) × ((it.type ≢ 1) ⊎ (is_empty it.filename ≡ true))

IsNull-new : (opens : Text → Bool) (it : LogAppDef) → IsNull it → new_appender opens it ≡ none
IsNull-new opens it (h, inl k) = ground arith
IsNull-new opens it (h, inr k) = ground arith

add_all_null :
    (opens : Text → Bool) (xs : List LogAppDef) (it : LogAppDef) (ys : List LogAppDef)
    (logger : Logger.Logger) (s : Store)
    → IsNull it
    → add_all opens (xs ++ it ∷ ys) logger s ≡ none
unfolding add_all
add_all_null opens [] it ys logger s h = rw (IsNull-new opens it h) refl
add_all_null opens (x ∷ xs) it ys logger s h = elim (Option-cases (new_appender opens x)) [
  | inl e ↦ rw e refl
  | inr (b, e) ↦
      let made = allocate (configure b x) s in
      rw e (add_all_null opens xs it ys (add_appender logger (some s.next)) made.1 h)
]

-- A file appender with no path, or one of another type, is called through a null pointer, so a
-- configuration that has it anywhere in a named definition does not load.
pub from_yaml_null :
    (opens : Text → Bool) (name : Text) (lv : Level) (xs : List LogAppDef) (it : LogAppDef)
    (ys : List LogAppDef) (m : Loggers) (s : Store)
    → is_empty name ≡ false
    → IsNull it
    → from_yaml opens (record { name = name; level = lv; appends = xs ++ it ∷ ys }) m s ≡ none
unfolding from_yaml
from_yaml_null opens name lv xs it ys m s named h =
    rw (named, add_all_null opens xs it ys (Logger.set_level (get_logger name m).0 lv) s h) refl
