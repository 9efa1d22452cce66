-- ===== src/Utils.antt =====
-- src/utils.h and src/utils.cc. The clocks, `strftime` and the directories are parameters.
pub mod Laws
mod Tests
use proj.Base.{
  ℕ, zero, suc, ◌+◌, ◌-◌, ◌*◌, ◌/◌, ◌%◌, ◌^◌, Bool, true, false, ◌&&◌, Option, none, some, List, [],
  ◌∷◌, ◌++◌, ◌==◌, ltb, if◌then◌else◌, length, take, drop, ◌>>=◌, Option-cases,
}
use proj.Base.Text.{Text, codes, show, c_str}

-- `LogLevelToString`; the level is an `int` by its bits.
unfoldable pub log_level_to_string : ℕ → Text
log_level_to_string level =
    if level == 1
    then codes "DEBUG"
    else if level == 2
    then codes "INFO"
    else if level == 3
    then codes "WARN"
    else if level == 4
    then codes "ERROR"
    else if level == 5
    then codes "FATAL"
    else codes "UNKNOW"

-- What follows a beginning, if the text has it.
unfoldable pub behind : Text → Text → Option Text
behind [] s = some s
behind (x ∷ xs) [] = none
behind (x ∷ xs) (y ∷ ys) = let rest = behind xs ys in if x == y then rest else none

-- `s.find(needle)`, none for `npos`, where the search is at the index `i`.
unfoldable pub find_from : Text → ℕ → Text → Option ℕ
find_from needle i [] = elim (behind needle []) [ none ↦ none | some rest ↦ some i ]
find_from needle i (x ∷ xs) =
    let later = find_from needle (suc i) xs in
    elim (behind needle (x ∷ xs)) [ none ↦ later | some rest ↦ some i ]

-- `s.substr(pos, count)`, none where it throws.
abbrev pub substr : Text → ℕ → ℕ → Option Text
substr s pos count = if ltb (length s) pos then none else some (take count (drop pos s))

-- `LuaFileRedefine`; a name shorter than 2^31, and `npos` as an `int` is -1.
abbrev pub marker : Text
marker = codes "l-src/"

unfoldable pub lua_file_redefine : Text → Option Text
lua_file_redefine filename = elim (find_from marker 0 filename) [
  | some pos ↦ substr filename (pos + 6) (length filename - (pos + 6))
  | none ↦ substr filename 5 (length filename - 5)
]

-- `GetTimeByFormat`: what `strftime` stores into 64 bytes; none where it does not fit, when what is in
-- them has no meaning.
unfoldable pub get_time_by_format : (Text → Option Text) → Text → Option Text
get_time_by_format strftime format = strftime (c_str format) >>= λ buf. some (c_str buf)

-- `GetFiberId`
unfoldable pub get_fiber_id : ℕ
get_fiber_id = 0

-- `GetElapse`, by the microseconds between `g_begin_time` and now.
unfoldable pub get_elapse : ℕ → ℕ
get_elapse microseconds = microseconds / 1000 % 2 ^ 32

-- `GetTimeOfMS` and `GetTimeOfUS`, by the fields of the `timeval`.
unfoldable pub get_time_of_ms : ℕ → ℕ → ℕ
get_time_of_ms tv_sec tv_usec = (tv_sec * 1000 + tv_usec / 1000) % 2 ^ 32

unfoldable pub get_time_of_us : ℕ → ℕ → ℕ
get_time_of_us tv_sec tv_usec = (tv_sec * 1000 * 1000 + tv_usec) % 2 ^ 32

-- The line that the deleter of `GetConsumeTimePrinter` logs.
unfoldable pub consume_line : ℕ → Text
consume_line microseconds =
    codes "use time : " ++ show (microseconds / 1000 % 2 ^ 32) ++ codes " ms !"

-- What `readdir` lists of a directory; none for one that cannot be opened.
mutual
  pub data Listing : Type 0 where
    closed : Listing
    opened : Dirents → Listing

  pub data Dirents : Type 0 where
    end : Dirents
    file : Text → Dirents → Dirents
    dir : Text → Listing → Dirents → Dirents

abbrev is_hidden : Text → Bool
is_hidden [] = false
is_hidden (x ∷ xs) = x == b'.'

abbrev under : Text → Text → Text
under dirname name = dirname ++ (codes "/" ++ name)

-- `TravDir`: the names that `cb` is called with, in order; none where `readdir` is given null. `has_cb`
-- tells whether there is a callback.
unfoldable mutual
  pub trav_dir : Bool → Text → Listing → Option (List Text)
  trav_dir has_cb dirname Listing.closed = none
  trav_dir has_cb dirname (Listing.opened files) = trav_files has_cb dirname files

  pub trav_files : Bool → Text → Dirents → Option (List Text)
  trav_files has_cb dirname Dirents.end = some []
  trav_files has_cb dirname (Dirents.file name files) = trav_files has_cb dirname files >>= λ rest.
      some (if is_hidden name then rest else if has_cb then under dirname name ∷ rest else rest)
  trav_files has_cb dirname (Dirents.dir name listing files) =
      let inside = trav_dir has_cb (under dirname name) listing in
      (if is_hidden name then some [] else inside) >>= λ names.
      trav_files has_cb dirname files >>= λ rest. some (names ++ rest)
