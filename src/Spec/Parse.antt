-- ===== src/Spec/Parse.antt =====
-- internal/spec/parse.go: `Parse`. The YAML decoder is a parameter; a file is its text.
use seine.Prelude.{String, List, [], ◌∷◌, Option, none, some}
use seine.Prelude.Result.{Result, ok, err}
use seine.External.{Net}
use seine.Spec.Types.{Document}
use seine.Spec.Defaults.{apply_defaults}
use seine.Spec.Validate.{validate}
use seine.Spec.Validate.Problems.{Problem}

-- What `dec.Decode` returns: `io.EOF`, another error, or a document.
pub data Decoded : Type 0 where
  eof failed : Decoded
  decoded : Document → Decoded

pub data ParseError : Type 0 where
  empty_document yaml_decode read_failed : ParseError
  invalid : List Problem → ParseError

-- `errors.Join` is nil exactly for no errors.
abbrev pub verdict : Document → List Problem → Result ParseError Document
verdict doc [] = ok doc
verdict doc (p ∷ problems) = err (invalid (p ∷ problems))

module _ (net : Net) (decode : String → Decoded) where
  unfoldable pub parse : String → Result ParseError Document
  unfolding validate apply_defaults
  parse text = elim (decode text) [
    | eof ↦ err empty_document
    | failed ↦ err yaml_decode
    | decoded doc ↦ let doc' = apply_defaults doc in verdict doc' (validate net doc')
  ]

  -- The argument is what `os.ReadFile` returns.
  unfoldable pub load_file : Option String → Result ParseError Document
  unfolding parse
  load_file none = err read_failed
  load_file (some text) = parse text
