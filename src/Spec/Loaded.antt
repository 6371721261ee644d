-- ===== src/Spec/Loaded.antt =====
-- internal/spec/parse.go: the documents that `Parse` returns.
use seine.Prelude.{String, ◌≡◌, refl, List, [], ◌∷◌, arith}
use seine.Prelude.Result.{ok, err}
use seine.External.{Net}
use seine.Spec.Types.{Document}
use seine.Spec.Defaults.{apply_defaults}
use seine.Spec.Validate.{validate}
use seine.Spec.Validate.Problems.{Problem}
use seine.Spec.Validate.Sound.{IsWellFormed, validate-IsWellFormed}
use seine.Spec.Parse.{Decoded, ParseError, eof, failed, decoded, parse, verdict}

verdict-ok : (d doc : Document) (ps : List Problem) → verdict d ps ≡ ok doc → (d ≡ doc) × (ps ≡ [])
verdict-ok d doc [] h = (ground arith, refl)
verdict-ok d doc (p ∷ ps) h = absurd (ground arith)

module _ (net : Net) (decode : String → Decoded) where
  decoded_as :
      (text : String) (r : Decoded) (doc : Document)
      → decode text ≡ r
      → parse net decode text ≡ ok doc
      → validate net doc ≡ []
  unfolding parse
  decoded_as text eof doc e h =
      absurd (let x : err ParseError.empty_document ≡ ok doc = rw (parse, e) at h in cc)
  decoded_as text failed doc e h =
      absurd (let x : err ParseError.yaml_decode ≡ ok doc = rw (parse, e) at h in cc)
  decoded_as text (decoded d) doc e h =
      let x : verdict (apply_defaults d) (validate net (apply_defaults d)) ≡ ok doc =
        rw (parse, e) at h in
      let (same, none_found) =
        verdict-ok (apply_defaults d) doc (validate net (apply_defaults d)) x in
      rw (← same) none_found

  -- Every document that `Parse` returns is well formed: its overlay is valid, names and tunnel
  -- addresses are unique over hubs and agents, every address lies in the overlay, agents are anchored
  -- at declared hubs and are in declared groups, rules connect declared groups, and there is a hub.
  pub parse-IsWellFormed :
      (text : String) (doc : Document) → parse net decode text ≡ ok doc → IsWellFormed net doc
  parse-IsWellFormed text doc h =
      validate-IsWellFormed net doc (decoded_as text (decode text) doc refl h)
