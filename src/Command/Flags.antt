-- ===== src/Command/Flags.antt =====
-- Go's package `flag` as both programs use it: boolean, text and duration flags on the command line.
-- `time.ParseDuration` is a parameter.
use Prim.Native.Char.{code}
use seine.Prelude.{
  ℕ, String, Bool, true, false, ◌||◌, Option, none, some, List, [], ◌∷◌, ◌==◌, nat_beq,
  if◌then◌else◌,
}
use seine.Prelude.Result.{Result, ok, err}
use seine.Spec.Types.{Duration}

pub data Kind : Type 0 where
  bool_flag text_flag duration_flag : Kind

-- The flags that are defined.
abbrev pub FlagSet : Type 0
FlagSet = List (String × Kind)

-- What ends the program before `run` goes on: `-help` and the errors.
pub data FlagError : Type 0 where
  help : FlagError
  bad_syntax undefined needs_argument invalid_value : String → FlagError

-- An argument: one that ends the flags, or a flag with its value if it has `=`.
pub data Argument : Type 0 where
  ends_flags malformed : Argument
  flag : String → Option String → Argument

abbrev dash : ℕ
dash = b'-'

-- the name, and what follows the first `=`
unfoldable pub split_value : String → String × Option String
split_value String.[] = ("", none)
split_value (String.◌∷◌ c s) =
    let rest = split_value s in
    if nat_beq (code c) b'=' then ("", some s) else (String.◌∷◌ c rest.0, rest.1)

-- after the dashes
unfoldable pub named : String → Argument
unfolding split_value
named String.[] = malformed
named (String.◌∷◌ c s) =
    if nat_beq (code c) dash || nat_beq (code c) b'='
    then malformed
    else (let parts = split_value (String.◌∷◌ c s) in flag parts.0 parts.1)

-- after one dash
abbrev dashed : String → Argument
unfolding named
dashed String.[] = ends_flags
dashed (String.◌∷◌ c s) =
    if nat_beq (code c) dash
    then (if s == "" then ends_flags else named s)
    else named (String.◌∷◌ c s)

unfoldable pub classify : String → Argument
unfolding dashed
classify String.[] = ends_flags
classify (String.◌∷◌ c s) = if nat_beq (code c) dash then dashed s else ends_flags

-- `strconv.ParseBool`
unfoldable pub parse_bool : String → Option Bool
parse_bool s =
    if s == "1" || (s == "t" || (s == "T" || (s == "true" || (s == "TRUE" || s == "True"))))
    then some true
    else if s == "0" || (s == "f" || (s == "F" || (s == "false" || (s == "FALSE" || s == "False"))))
    then some false
    else none

unfoldable pub kind_of : FlagSet → String → Option Kind
kind_of [] name = none
kind_of ((n, k) ∷ rest) name = if n == name then some k else kind_of rest name

-- What a flag that was set holds: its name and its text.
abbrev pub Setting : Type 0
Setting = String × String

-- What one argument does, with the one after it.
pub data Step : Type 0 where
  stop : Step
  fail : FlagError → Step
  set set_with_next : Setting → Step

module _ (parse_duration : String → Option Duration) where
  -- whether the flag's `Set` takes the text
  unfoldable pub takes : Kind → String → Bool
  unfolding parse_bool
  takes text_flag s = true
  takes bool_flag s = elim (parse_bool s) [ none ↦ false | some b ↦ true ]
  takes duration_flag s = elim (parse_duration s) [ none ↦ false | some d ↦ true ]

  abbrev checked : Kind → Setting → Step → Step
  unfolding takes
  checked k (name, s) step = if takes k s then step else fail (invalid_value name)

  abbrev with_argument : Kind → String → Option String → Step
  unfolding takes
  with_argument k name none = fail (needs_argument name)
  with_argument k name (some s) = checked k (name, s) (set_with_next (name, s))

  -- a flag that is defined
  unfoldable pub set_flag : Kind → String → Option String → Option String → Step
  unfolding takes
  set_flag k name (some s) next = checked k (name, s) (set (name, s))
  set_flag bool_flag name none next = set (name, "true")
  set_flag text_flag name none next = with_argument text_flag name next
  set_flag duration_flag name none next = with_argument duration_flag name next

  -- `parseOne`
  unfoldable pub parse_one : FlagSet → String → Option String → Step
  unfolding classify kind_of set_flag
  parse_one flags arg next = elim (classify arg) [
    | ends_flags ↦ stop
    | malformed ↦ fail (bad_syntax arg)
    | flag name value ↦ elim (kind_of flags name) [
      | none ↦ if name == "help" || name == "h" then fail help else fail (undefined name)
      | some k ↦ set_flag k name value next
    ]
  ]

  abbrev after : Setting → Result FlagError (List Setting) → Result FlagError (List Setting)
  after x (ok others) = ok (x ∷ others)
  after x (err e) = err e

  -- `flag.Parse`: the settings in their order
  unfoldable pub parse_args : FlagSet → List String → Result FlagError (List Setting)
  unfolding parse_one
  parse_args flags [] = ok []
  parse_args flags (arg ∷ []) = elim (parse_one flags arg none) [
    | stop ↦ ok []
    | fail e ↦ err e
    | set x ↦ ok (x ∷ [])
    | set_with_next x ↦ ok (x ∷ [])
  ]
  parse_args flags (arg ∷ next ∷ rest) =
      let from_next = parse_args flags (next ∷ rest) in
      let after_next = parse_args flags rest in
      elim (parse_one flags arg (some next)) [
        | stop ↦ ok []
        | fail e ↦ err e
        | set x ↦ after x from_next
        | set_with_next x ↦ after x after_next
      ]

-- The last setting of a flag, or its default.
unfoldable pub given : List Setting → String → String → String
given [] name default = default
given ((n, s) ∷ rest) name default = given rest name (if n == name then s else default)
