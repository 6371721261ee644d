-- ===== src/Logging.antt =====
-- internal/logging/logging.go: the choice of a handler, and the logger of a context.
use Prim.Native.Char.{code}
use seine.Prelude.{
  ℕ, ◌+◌, String, Bool, true, false, ◌&&◌, ◌||◌, Option, none, some, leb, nat_beq, ◌==◌,
  if◌then◌else◌,
}
use seine.Prelude.Int.{ℤ, pos, negsuc, leb_ℤ}
use seine.Prelude.Text.{trim_space}

abbrev pub Format : Type 0
Format = String

abbrev pub format_text : Format
format_text = "text"

abbrev pub format_json : Format
format_json = "json"

-- `slog.Level`
abbrev pub Level : Type 0
Level = ℤ

abbrev pub level_debug : Level
level_debug = negsuc 3

abbrev pub level_info : Level
level_info = pos 0

abbrev pub level_warn : Level
level_warn = pos 4

abbrev pub level_error : Level
level_error = pos 8

-- `unicode.ToLower` where the result is ASCII: a letter, the dotted capital I or the Kelvin sign.
unfoldable pub to_lower : ℕ → ℕ
to_lower c =
    if leb b'A' c && leb c b'Z'
    then c + 32
    else if nat_beq c 0x130
    then b'i'
    else if nat_beq c 0x212a
    then b'k'
    else c

-- `strings.ToLower(s)` is the text `word`, which is ASCII.
unfoldable pub lowers_to : String → String → Bool
unfolding to_lower
lowers_to String.[] String.[] = true
lowers_to String.[] (String.◌∷◌ c s) = false
lowers_to (String.◌∷◌ c s) String.[] = false
lowers_to (String.◌∷◌ c s) (String.◌∷◌ d t) =
    let rest = lowers_to s t in nat_beq (to_lower (code c)) (code d) && rest

-- `none` is the error.
unfoldable pub parse_level : String → Option Level
unfolding trim_space lowers_to
parse_level s =
    let word = trim_space s in
    if lowers_to word "debug"
    then some level_debug
    else if lowers_to word "" || lowers_to word "info"
    then some level_info
    else if lowers_to word "warn" || lowers_to word "warning"
    then some level_warn
    else if lowers_to word "error"
    then some level_error
    else none

unfoldable pub parse_format : String → Option Format
unfolding trim_space lowers_to
parse_format s =
    let word = trim_space s in
    if lowers_to word "" || lowers_to word "text"
    then some format_text
    else if lowers_to word "json"
    then some format_json
    else none

-- The handlers of slog.
pub data Handler : Type 0 where
  json_handler text_handler : Handler

-- `Output` is nil for `none`; a writer is named.
pub record Options : Type 0 where
  pub level : Level
  pub format : Format
  pub output : Option String

-- A logger: its handler with the options that it was made with.
pub record Logger : Type 0 where
  pub handler : Handler
  pub output : String
  pub level : Level
  pub add_source : Bool

-- `Setup`, which installs what it returns as the default logger
unfoldable pub setup : Options → Logger
setup opts = record {
  handler = if opts.format == format_json then json_handler else text_handler;
  output = elim opts.output [ none ↦ "stderr" | some w ↦ w ];
  level = opts.level;
  add_source = leb_ℤ opts.level level_debug;
}

-- A context, as far as its `loggerKey` goes, and the default logger.
unfoldable pub from_context : Option Logger → Logger → Logger
from_context none default = default
from_context (some l) default = l

unfoldable pub with_logger : Option Logger → Logger → Option Logger
with_logger ctx l = some l
