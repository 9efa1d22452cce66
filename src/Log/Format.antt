-- ===== src/Log/Format.antt =====
-- `LogEvent`, `LogFormatter` and its items, of src/log.h and src/log.cc.
mod Pattern
pub mod Expand
use proj.Base.{
  ℕ, zero, suc, ◌+◌, ◌-◌, Bool, true, false, List, [], ◌∷◌, ◌++◌, map, ◌==◌, if◌then◌else◌, ltb,
  take, drop, length, concat,
}
use proj.Base.Text.{Text, codes, text_eq, show, is_empty}
use proj.Log.Level.{Level, to_string}

-- The fields of `LogEvent`; the stream `m_ss` is the text written to it.
pub record LogEvent : Type 0 where
  pub line : ℕ
  pub thread_id : ℕ
  pub fiber_id : ℕ
  pub time : ℕ
  pub elapse : ℕ
  pub filename : Text
  pub logger_name : Text
  pub content : Text

-- The classes derived from `LogFormatter::FormatItem`.
pub data FormatItem : Type 0 where
  date file line thread fiber level name message new_line table elapse percent : FormatItem
  string : Text → FormatItem

-- The virtual `format` of each class. `local_time` is what `strftime` makes of `localtime(&tv)`, by
-- the time zone of the host.
unfoldable pub format_item : (local_time : ℕ → Text) → FormatItem → Level → LogEvent → Text
format_item local_time FormatItem.date lv event = local_time event.time
format_item local_time FormatItem.file lv event = event.filename
format_item local_time FormatItem.line lv event = show event.line
format_item local_time FormatItem.thread lv event = show event.thread_id
format_item local_time FormatItem.fiber lv event = show event.fiber_id
format_item local_time FormatItem.level lv event = to_string lv
format_item local_time FormatItem.name lv event = event.logger_name
format_item local_time FormatItem.message lv event = event.content
format_item local_time FormatItem.new_line lv event = 10 ∷ []
format_item local_time FormatItem.table lv event = 9 ∷ []
format_item local_time FormatItem.elapse lv event = show event.elapse
format_item local_time FormatItem.percent lv event = codes "%"
format_item local_time (FormatItem.string str) lv event = str

-- An entry of `vec` in `init`: (0, text) and (1, name of an item).
pub data Piece : Type 0 where
  literal marked : Text → Piece

-- `m_pattern.substr(pos, count)`, where `pos` is inside.
abbrev pub substr : Text → ℕ → ℕ → Text
substr str pos count = take count (drop pos str)

-- `m_pattern[i] == '%'`
abbrev pub is_mark : Text → Bool
is_mark [] = false
is_mark (c ∷ cs) = c == b'%'

-- `if(!str.empty()) vec.push_back(std::make_pair(0,str));`, ahead of what is pushed after it.
abbrev pub push_text : Text → List Piece → List Piece
push_text str more = if is_empty str then more else Piece.literal str ∷ more

-- One round of the loop of `init` at `i`, with the text not yet pushed from `f` on: what it pushes,
-- and the next `i` and `f`. A mark in the last place leaves `f` as it was.
abbrev pub init_step : Text → ℕ → ℕ → List Piece × ℕ × ℕ
init_step pattern i f =
    if is_mark (drop i pattern)
    then (if ltb (i + 1) (length pattern)
        then (
          push_text (substr pattern f (i - f)) (Piece.marked (substr pattern (i + 1) 1) ∷ []),
          i + 2,
          i + 2,
        )
        else (push_text (substr pattern f (i - f)) (Piece.marked [] ∷ []), i + 1, f))
    else ([], i + 1, f)

-- The loop, and the push of the remaining text behind it. Every round moves `i` on, so the length
-- of the pattern is fuel enough.
unfoldable pub init_loop : ℕ → Text → ℕ → ℕ → List Piece
init_loop zero pattern i f = Piece.literal (substr pattern f (length pattern - f)) ∷ []
init_loop (suc fuel) pattern i f =
    let step = init_step pattern i f in
    let rest = step.0 ++ init_loop fuel pattern step.1 step.2 in
    if ltb i (length pattern)
    then rest
    else Piece.literal (substr pattern f (length pattern - f)) ∷ []

-- `s_fmt_map_str`, for a name of one byte.
abbrev pub item_of_char : ℕ → FormatItem
item_of_char c =
    if c == b'd'
    then FormatItem.date
    else if c == b'F'
    then FormatItem.file
    else if c == b'l'
    then FormatItem.line
    else if c == b't'
    then FormatItem.thread
    else if c == b'f'
    then FormatItem.fiber
    else if c == b'p'
    then FormatItem.level
    else if c == b'c'
    then FormatItem.name
    else if c == b'm'
    then FormatItem.message
    else if c == b'n'
    then FormatItem.new_line
    else if c == b'T'
    then FormatItem.table
    else if c == b'e'
    then FormatItem.elapse
    else if c == b'%'
    then FormatItem.percent
    else FormatItem.string (codes "<error>")

-- The item of a piece; a name that the map has not stands for the text `<error>`.
abbrev pub item_of : Piece → FormatItem
item_of (Piece.literal str) = FormatItem.string str
item_of (Piece.marked (c ∷ [])) = item_of_char c
item_of (Piece.marked other) = FormatItem.string (codes "<error>")

-- `LogFormatter`
pub record LogFormatter : Type 0 where
  pub pattern : Text
  pub items : List FormatItem

abbrev pub default_pattern : Text
default_pattern = codes "%d%T%e%T[%c]%T[%p]%T[%F:%l]%T[%t:%f]%T%m%n"

-- The constructor's choice of the pattern.
abbrev pub pattern_or_default : Text → Text
pattern_or_default pattern = if is_empty pattern then default_pattern else pattern

-- `LogFormatter::init`, on a formatter that has no items.
abbrev pub init : Text → List FormatItem
init pattern = map item_of (init_loop (length pattern) pattern 0 0)

-- `LogFormatter::LogFormatter`
unfoldable pub construct : Text → LogFormatter
construct pattern = record {
  pattern = pattern_or_default pattern;
  items = init (pattern_or_default pattern);
}

-- `LogFormatter::format`
unfoldable pub format : (local_time : ℕ → Text) → LogFormatter → Level → LogEvent → Text
format local_time formatter lv event =
    concat (map (λ it. format_item local_time it lv event) formatter.items)
