-- ===== src/Spec/RoundTrip.antt =====
-- internal/spec/parse.go: `Marshal`, and what `Parse` makes of its result, with the methods that the
-- YAML library calls for a duration (internal/spec/duration.go).
use seine.Prelude.{
  String, ◌≡◌, refl, sym, ap, Option-cases, if◌then◌else◌, ◌∙◌, Option, none, some, Bool-cases, inl,
  inr, List, [], ◌∷◌,
}
use seine.Prelude.Int.{pos, beq_ℤ, beq_ℤ_iff}
use seine.Prelude.Result.{Result, ok, err}
use seine.External.{Net}
use seine.Spec.Types.{Document, Duration}
use seine.Spec.Duration.{Raw, DurationError, unmarshal_yaml, marshal_yaml}
use seine.Spec.Defaults.{apply_defaults}
use seine.Spec.Filled.{Fills, apply_defaults-again, apply_defaults-Fills}
use seine.Spec.Validate.{validate}
use seine.Spec.Validate.Problems.{Problem}
use seine.Spec.Parse.{Decoded, eof, failed, decoded, verdict, empty_document, yaml_decode, parse}

-- `encode` is the encoder's `Encode` and `close` its `Close`, on the text of the buffer; `none` is
-- their error.
unfoldable pub marshal :
    (Document → Option String) → (String → Option String) → Document → Option String
marshal encode close d = elim (encode d) [ none ↦ none | some text ↦ close text ]

verdict-ok :
    (d out : Document) (problems : List Problem)
    → verdict d problems ≡ ok out
    → (d ≡ out) × (problems ≡ [])
verdict-ok d out [] h = (cc, refl)
verdict-ok d out (p ∷ problems) h = absurd (cc)

module _ (net : Net) (decode : String → Decoded) where
  -- A document that `Parse` accepts is what the defaults make of one, and is valid.
  accepted :
      (text : String) (doc : Document) (x : Decoded)
      → decode text ≡ x
      → parse net decode text ≡ ok doc
      → (raw : Document) × (x ≡ decoded raw) × (apply_defaults raw ≡ doc) × (validate net doc ≡ [])
  unfolding parse
  accepted text doc eof e h =
      absurd (let x : err empty_document ≡ ok doc = rw (parse, e) at h in cc)
  accepted text doc failed e h =
      absurd (let x : err yaml_decode ≡ ok doc = rw (parse, e) at h in cc)
  accepted text doc (decoded raw) e h =
      let d = apply_defaults raw in
      let (same, valid) = verdict-ok d doc (validate net d) (rw (parse, e) at h) in
      (raw, refl, same, rw (← same) valid)

  parse_again :
      (text text' : String) (doc : Document)
      → parse net decode text ≡ ok doc
      → decode text' ≡ decoded doc
      → (parse net decode text' ≡ ok doc)
        × ((raw : Document) × (decode text ≡ decoded raw) × Fills raw doc)
  unfolding parse
  parse_again text text' doc h e =
      let (raw, read, same, valid) = accepted text doc (decode text) refl h in
      let again : apply_defaults doc ≡ doc = rw (← same) (apply_defaults-again raw) in
      (
        rw (parse, e) (ap (λ d. verdict d (validate net d)) again ∙ ap (verdict doc) valid),
        (raw, read, rw (← same) (apply_defaults-Fills raw)),
      )

module _ {Float : Type 0} (parse_duration : String → Option Duration) (of_float : Float → Duration)
    (show : Duration → String) where
  -- What a document's text holds beside `persistentKeepalive`, which is 0 in the document, and the node
  -- of that field, if there is one.
  pub data Nodes : Type 0 where
    no_nodes broken : Nodes
    nodes : Document → Option (Raw Float) → Nodes

  abbrev pub with_keepalive : Duration → Document → Document
  with_keepalive k d = record d {
    spec = record (d.spec) { wireguard = record (d.spec.wireguard) { persistent_keepalive = k } };
  }

  abbrev fill : Document → Result DurationError Duration → Decoded
  fill d (err e) = failed
  fill d (ok k) = decoded (with_keepalive k d)

  abbrev assemble : Nodes → Decoded
  assemble no_nodes = eof
  assemble broken = failed
  assemble (nodes d none) = decoded d
  assemble (nodes d (some r)) = fill d (unmarshal_yaml parse_duration of_float (some r))

  -- `dec.Decode`, which calls `UnmarshalYAML` for a duration
  unfoldable pub decode_document : (String → Nodes) → String → Decoded
  unfolding unmarshal_yaml
  decode_document read text = assemble (read text)

  -- `enc.Encode`, which calls `MarshalYAML` for a duration that is not 0, by `omitempty`
  unfoldable pub encode_document :
      (Document → Option (Raw Float) → Option String) → Document → Option String
  unfolding marshal_yaml
  encode_document write d =
      let k = d.spec.wireguard.persistent_keepalive in
      write (with_keepalive (pos 0) d)
        (if beq_ℤ k (pos 0) then none else some (marshal_yaml show k))

  abbrev pub text_node : Option String → Option (Raw Float)
  text_node none = none
  text_node (some s) = some (Raw.text s)

  -- What the YAML library promises of a document and any node for its keepalive: what it wrote, it reads.
  pub record YamlLaws (write : Document → Option (Raw Float) → Option String)
      (close : String → Option String) (read : String → Nodes) (d : Document) : Type 0 where
    pub read_of_write :
        (s : Option String) (t t' : String)
        → write d (text_node s) ≡ some t
        → close t ≡ some t'
        → read t' ≡ nodes d (text_node s)

  -- What package time promises of an int64 duration: its text reads back.
  pub record TimeLaws (d : Duration) : Type 0 where
    pub reads_back : parse_duration (show d) ≡ some d

  module _ (write : Document → Option (Raw Float) → Option String) (close : String → Option String)
      (read : String → Nodes) where
    decode_of_marshal :
        (doc : Document) (t : String)
        → YamlLaws write close read (with_keepalive (pos 0) doc)
        → TimeLaws doc.spec.wireguard.persistent_keepalive
        → marshal (encode_document write) close doc ≡ some t
        → decode_document read t ≡ decoded doc
    unfolding marshal encode_document decode_document unmarshal_yaml marshal_yaml
    decode_of_marshal doc t yaml time h =
        let k = doc.spec.wireguard.persistent_keepalive in
        elim (Option-cases (encode_document write doc)) [
          | inl p ↦ absurd (let x : none ≡ some t = rw (marshal, p) at h in cc)
          | inr (t', p) ↦
              let c : close t' ≡ some t = rw (marshal, p) at h in
              elim (Bool-cases (beq_ℤ k (pos 0))) [
                | inl z ↦
                    let w : write (with_keepalive (pos 0) doc) none ≡ some t' =
                      rw (encode_document, z) at p in
                    let r = yaml.read_of_write none t' t w c in
                    let e : pos 0 ≡ k = sym ((beq_ℤ_iff k (pos 0)).0 z) in
                    rw (decode_document, r) (ap (λ x. decoded (with_keepalive x doc)) e)
                | inr z ↦
                    let w : write (with_keepalive (pos 0) doc) (some (Raw.text (show k)))
                        ≡ some t' =
                      rw (encode_document, z) at p in
                    let r = yaml.read_of_write (some (show k)) t' t w c in
                    rw (decode_document, r, unmarshal_yaml, time.reads_back) refl
              ]
        ]

    -- A document that `Parse` returned, written by `Marshal` and read again: `Parse` accepts the text
    -- and returns the same document, if the YAML library reads what it wrote, with a duration as the
    -- text that `MarshalYAML` makes of it, and a duration's text reads back. What `Parse` returned is the
    -- decoded document with its empty fields, and no others, replaced by the defaults.
    pub parse-marshal :
        (net : Net) (t t' : String) (doc : Document)
        → YamlLaws write close read (with_keepalive (pos 0) doc)
        → TimeLaws doc.spec.wireguard.persistent_keepalive
        → parse net (decode_document read) t ≡ ok doc
        → marshal (encode_document write) close doc ≡ some t'
        → (parse net (decode_document read) t' ≡ ok doc)
          × ((raw : Document) × (decode_document read t ≡ decoded raw) × Fills raw doc)
    parse-marshal net t t' doc yaml time h m =
        parse_again net (decode_document read) t t' doc h (decode_of_marshal doc t' yaml time m)
