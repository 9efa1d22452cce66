-- ===== src/Log/Level.antt =====
-- `LogLevel` of src/log.h and src/log.cc.
use proj.Base.{ℕ, ◌≤◌, ◌≡◌, refl, Bool, false, [], ◌∷◌, map, arith, ◌==◌, if◌then◌else◌, leb}
use proj.Base.Text.{Text, codes, text_eq, lower}

-- The enumerators, from the least severe on.
pub data Level : Type 0 where
  unknow debug info warn error fatal : Level

-- The value of an enumerator.
abbrev pub number : Level → ℕ
number Level.unknow = 0
number Level.debug = 1
number Level.info = 2
number Level.warn = 3
number Level.error = 4
number Level.fatal = 5

-- `LogLevel::ToString`
abbrev pub to_string : Level → Text
to_string Level.debug = codes "DEBUG"
to_string Level.info = codes "INFO"
to_string Level.warn = codes "WARN"
to_string Level.error = codes "ERROR"
to_string Level.fatal = codes "FATAL"
to_string Level.unknow = codes "UNKNOW"

-- The chain of `if(val == #name) return LogLevel::name;`.
abbrev named : Text → Level
named val =
    if text_eq val (codes "DEBUG")
    then Level.debug
    else if text_eq val (codes "INFO")
    then Level.info
    else if text_eq val (codes "WARN")
    then Level.warn
    else if text_eq val (codes "ERROR")
    then Level.error
    else if text_eq val (codes "FATAL")
    then Level.fatal
    else Level.unknow

-- `LogLevel::FromString`
unfoldable pub from_string : Text → Level
from_string val = named (map lower val)

-- `level >= bound`
abbrev pub reaches : Level → Level → Bool
reaches level bound = leb (number bound) (number level)

-- No lower-case text is a text that begins with a capital.
lower_differs :
    (val : Text) (c : ℕ) (cs : Text) → 65 ≤ c → c ≤ 90 → text_eq (map lower val) (c ∷ cs) ≡ false
unfolding lower text_eq
lower_differs [] c cs h k = refl
lower_differs (x ∷ xs) c cs h k = let e : (lower x == c) ≡ false = ground arith in rw e

-- No text is read as a level: each is made lower-case and then compared with upper-case names. So
-- every text, those of the levels included, is read as `UNKNOW`.
pub from_string-unknow : (val : Text) → from_string val ≡ Level.unknow
unfolding from_string
from_string-unknow val =
    let low : (c : ℕ) (cs : Text) → 65 ≤ c → c ≤ 90 → text_eq (map lower val) (c ∷ cs) ≡ false =
      lower_differs val in
    rw
      (
        low 68 (codes "EBUG") (omega arith) (omega arith),
        low 73 (codes "NFO") (omega arith) (omega arith),
        low 87 (codes "ARN") (omega arith) (omega arith),
        low 69 (codes "RROR") (omega arith) (omega arith),
        low 70 (codes "ATAL") (omega arith) (omega arith),
      )
      refl
