-- ===== src/Examples/Spec.antt =====
-- The sample document as `Parse` reads it.
use seine.Prelude.{String, ◌≡◌, refl, Option, none, some, ◌==◌, if◌then◌else◌}
use seine.Prelude.Int.{pos, beq_ℤ}
use seine.Prelude.Result.{ok}
use seine.Spec.Types.{Document, Duration}
use seine.Spec.Filled.{Fills}
use seine.Spec.Duration.{Raw}
use seine.Spec.RoundTrip.{
  YamlLaws, TimeLaws, Nodes, nodes, text_node, marshal, decode_document, encode_document,
  parse-marshal,
}
use seine.Spec.Parse.{Decoded, decoded, parse}
use seine.Spec.Validate.Names.{valid_name}
use seine.Spec.Validate.Sound.{IsWellFormed}
use seine.Spec.Loaded.{parse-IsWellFormed}
use seine.NetPolicy.Compile.{Compiled, compile}
use seine.NetPolicy.Total.{parse-compiles}
use seine.Examples.Sample.{sample_net, sample_doc}

abbrev decode_sample : String → Decoded
decode_sample text = decoded sample_doc

sample_parses : parse sample_net decode_sample "sample.yaml" ≡ ok sample_doc
unfolding parse valid_name
sample_parses = refl

parse-IsWellFormed_example : IsWellFormed sample_net sample_doc
parse-IsWellFormed_example =
    parse-IsWellFormed sample_net decode_sample "sample.yaml" sample_doc sample_parses

parse-compiles_example : (c : Compiled sample_net) × (compile sample_net (some sample_doc) ≡ ok c)
parse-compiles_example =
    parse-compiles sample_net decode_sample "sample.yaml" sample_doc sample_parses

-- The sample without its keepalive, whose text is the field's.
abbrev sample_rest : Document
sample_rest = record sample_doc {
  spec = record (sample_doc.spec) {
    wireguard = record (sample_doc.spec.wireguard) { persistent_keepalive = pos 0 };
  };
}

-- The only duration that has a text.
abbrev keepalive : Duration
keepalive = pos 25_000_000_000

abbrev read_duration : String → Option Duration
read_duration t = if t == "25s" then some keepalive else none

abbrev show_duration : Duration → String
show_duration d = if beq_ℤ d keepalive then "25s" else ""

abbrev of_float : Unit {0} → Duration
of_float v = pos 0

abbrev write_sample : Document → Option (Raw (Unit {0})) → Option String
write_sample d (some (Raw.text t)) = some t
write_sample d _ = none

abbrev read_sample : String → Nodes read_duration of_float show_duration
read_sample t = nodes sample_rest (some (Raw.text t))

abbrev flush : String → Option String
flush t = some t

sample_reads :
    (s : Option String) (t t' : String)
    → write_sample sample_rest (text_node read_duration of_float show_duration s) ≡ some t
    → flush t ≡ some t'
    → read_sample t' ≡ nodes sample_rest (text_node read_duration of_float show_duration s)
sample_reads none t t' h c = absurd (cc)
sample_reads (some s) t t' h c = cc

sample_yaml :
    YamlLaws read_duration of_float show_duration write_sample flush read_sample sample_rest
sample_yaml = record { read_of_write = sample_reads }

sample_time : TimeLaws read_duration of_float show_duration keepalive
sample_time = record { reads_back = refl }

abbrev sample_decode : String → Decoded
sample_decode = decode_document read_duration of_float show_duration read_sample

sample_reparses : parse sample_net sample_decode "25s" ≡ ok sample_doc
unfolding parse valid_name decode_document
sample_reparses = refl

sample_marshals :
    marshal (encode_document read_duration of_float show_duration write_sample) flush sample_doc
    ≡ some "25s"
unfolding marshal encode_document
sample_marshals = refl

parse-marshal_example :
    (parse sample_net sample_decode "25s" ≡ ok sample_doc)
    × ((raw : Document) × (sample_decode "25s" ≡ decoded raw) × Fills raw sample_doc)
parse-marshal_example =
    parse-marshal read_duration of_float show_duration write_sample flush read_sample sample_net
      "25s" "25s" sample_doc sample_yaml sample_time sample_reparses sample_marshals

pub sample-IsWellFormed : IsWellFormed sample_net sample_doc
sample-IsWellFormed =
    parse-IsWellFormed sample_net decode_sample "sample.yaml" sample_doc sample_parses
