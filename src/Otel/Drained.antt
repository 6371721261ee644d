-- ===== src/Otel/Drained.antt =====
-- internal/otel/otel.go: which providers run after `Setup` and the shutdown function that it returns.
use seine.Prelude.{
  String, ◌≡◌, refl, sym, ◌∙◌, ap, inl, inr, Bool, true, false, Option, none, some, ◌==◌,
  Bool-cases, if◌then◌else◌,
}
use seine.Prelude.Result.{Result, ok, err}
use seine.Otel.{
  Sdk, Signal, Config, OtelError, Setup, traces, metrics, logs, setup, setup_signal, with_meter,
  with_tracer, with_resource, described, shutdown_all, noop_shutdown, installed,
}

abbrev pub started : Bool → Bool → Bool
started b x = if b then true else x

abbrev pub ended : Bool → Bool → Bool
ended b x = if b then false else x

-- A provider that is made runs and did not run before; one that is shut down does not run. No other
-- call starts or stops one.
pub record SdkLaws (sdk : Sdk) : Type 0 where
  pub live : sdk.Provider → sdk.State → Bool
  pub live_of_resource :
      (q : sdk.Provider) (name version : String) (s : sdk.State)
      → live q (sdk.new_resource name version s).1 ≡ live q s
  pub live_of_exporter :
      (q : sdk.Provider) (signal : Signal) (endpoint : String) (insecure : Bool) (s : sdk.State)
      → live q (sdk.new_exporter signal endpoint insecure s).1 ≡ live q s
  pub live_of_provider :
      (q : sdk.Provider) (signal : Signal) (e : sdk.Exporter) (r : sdk.Resource) (s : sdk.State)
      → let made = sdk.new_provider signal e r s in
        live q made.1 ≡ started (sdk.provider_eq.beq q made.0) (live q s)
  pub fresh :
      (signal : Signal) (e : sdk.Exporter) (r : sdk.Resource) (s : sdk.State)
      → live (sdk.new_provider signal e r s).0 s ≡ false
  pub live_of_set :
      (q : sdk.Provider) (signal : Signal) (p : sdk.Provider) (s : sdk.State)
      → live q (sdk.set_provider signal p s) ≡ live q s
  pub live_of_propagators :
      (q : sdk.Provider) (s : sdk.State) → live q (sdk.set_propagators s) ≡ live q s
  pub live_of_shutdown :
      (q p : sdk.Provider) (s : sdk.State)
      → live q (sdk.shutdown p s).1 ≡ ended (sdk.provider_eq.beq q p) (live q s)

ended-one : (b x : Bool) → (b ≡ true → x ≡ false) → ended b (started b x) ≡ x
ended-one true x f = sym (f refl)
ended-one false x f = refl

ended-two :
    (b c x : Bool)
    → (b ≡ true → x ≡ false)
    → (c ≡ true → started b x ≡ false)
    → ended c (ended b (started c (started b x))) ≡ x
ended-two true true x f g = absurd (let h = g refl in cc)
ended-two true false x f g = sym (f refl)
ended-two false true x f g = sym (g refl)
ended-two false false x f g = refl

ended-three :
    (b c d x : Bool)
    → (b ≡ true → x ≡ false)
    → (c ≡ true → started b x ≡ false)
    → (d ≡ true → started c (started b x) ≡ false)
    → ended d (ended c (ended b (started d (started c (started b x))))) ≡ x
ended-three true true d x f g h = absurd (let e = g refl in cc)
ended-three true false true x f g h = absurd (let e = h refl in cc)
ended-three true false false x f g h = sym (f refl)
ended-three false true true x f g h = absurd (let e = h refl in cc)
ended-three false true false x f g h = sym (g refl)
ended-three false false true x f g h = sym (h refl)
ended-three false false false x f g h = refl

module _ (sdk : Sdk) (laws : SdkLaws sdk) where
  open sdk use {State, Resource, Provider}
  open laws use {live}

  -- A signal that was set up runs one more provider, one that was not none.
  data IsSetUp (q : Provider) (s : State) : Result OtelError Provider × State → Type 0 where
    not_set_up : {e : OtelError} {s' : State} → live q s' ≡ live q s → IsSetUp q s (err e, s')
    set_up :
        {p : Provider} {s' : State}
        → live q s' ≡ started (sdk.provider_eq.beq q p) (live q s)
        → (sdk.provider_eq.beq q p ≡ true → live q s ≡ false)
        → IsSetUp q s (ok p, s')

  installed-IsSetUp :
      (q : Provider) (signal : Signal) (res : Resource) (s : State)
      (r : Option sdk.Exporter × State)
      → live q r.1 ≡ live q s
      → IsSetUp q s (installed sdk signal r res)
  installed-IsSetUp q signal res s (none, s1) e = not_set_up e
  installed-IsSetUp q signal res s (some exp, s1) e =
      let made = sdk.new_provider signal exp res s1 in
      set_up
        (laws.live_of_set q signal made.0 made.1
          ∙ (laws.live_of_provider q signal exp res s1
              ∙ ap (started (sdk.provider_eq.beq q made.0)) e))
        (λ b.
          (let same = (sdk.provider_eq.beq_iff q made.0).0 b in
            sym e ∙ rw same (laws.fresh signal exp res s1)))

  setup_signal-IsSetUp :
      (q : Provider) (signal : Signal) (cfg : Config) (res : Resource) (s : State)
      → IsSetUp q s (setup_signal sdk signal cfg res s)
  unfolding setup_signal
  setup_signal-IsSetUp q signal cfg res s =
      installed-IsSetUp q signal res s (sdk.new_exporter signal cfg.otlp_endpoint cfg.insecure s)
        (laws.live_of_exporter q signal cfg.otlp_endpoint cfg.insecure s)

  -- the state after the shutdown function that `Setup` returns is called at once
  unfoldable pub drained : Setup sdk → State
  drained r = (r.0 r.2).1

  with_meter-drained :
      (q tp mp : Provider) (s : State) (x : Bool) (r : Result OtelError Provider × State)
      → live q s ≡ started (sdk.provider_eq.beq q mp) (started (sdk.provider_eq.beq q tp) x)
      → (sdk.provider_eq.beq q tp ≡ true → x ≡ false)
      → (sdk.provider_eq.beq q mp ≡ true → started (sdk.provider_eq.beq q tp) x ≡ false)
      → IsSetUp q s r
      → live q (drained (with_meter sdk tp mp r)) ≡ x
  unfolding with_meter drained noop_shutdown shutdown_all
  with_meter-drained q tp mp s x (err e, s') a f g (not_set_up i) =
      laws.live_of_shutdown q mp (sdk.shutdown tp s').1
      ∙ (ap (ended (sdk.provider_eq.beq q mp))
            (laws.live_of_shutdown q tp s' ∙ ap (ended (sdk.provider_eq.beq q tp)) (i ∙ a))
          ∙ ended-two (sdk.provider_eq.beq q tp) (sdk.provider_eq.beq q mp) x f g)
  with_meter-drained q tp mp s x (ok lp, s') a f g (set_up i j) =
      let s1 = sdk.set_propagators s' in
      let s2 = (sdk.shutdown tp s1).1 in
      let s3 = (sdk.shutdown mp s2).1 in
      let up : live q s1
          ≡ started (sdk.provider_eq.beq q lp)
              (started (sdk.provider_eq.beq q mp) (started (sdk.provider_eq.beq q tp) x)) =
        laws.live_of_propagators q s' ∙ (i ∙ ap (started (sdk.provider_eq.beq q lp)) a) in
      laws.live_of_shutdown q lp s3
      ∙ (ap (ended (sdk.provider_eq.beq q lp)) (
            laws.live_of_shutdown q mp s2
            ∙ ap (ended (sdk.provider_eq.beq q mp))
                (laws.live_of_shutdown q tp s1 ∙ ap (ended (sdk.provider_eq.beq q tp)) up))
          ∙ ended-three (sdk.provider_eq.beq q tp) (sdk.provider_eq.beq q mp)
              (sdk.provider_eq.beq q lp) x f g (λ b. sym a ∙ j b))

  with_tracer-drained :
      (q tp : Provider) (cfg : Config) (res : Resource) (s : State) (x : Bool)
      (r : Result OtelError Provider × State)
      → live q s ≡ started (sdk.provider_eq.beq q tp) x
      → (sdk.provider_eq.beq q tp ≡ true → x ≡ false)
      → IsSetUp q s r
      → live q (drained (with_tracer sdk cfg res tp r)) ≡ x
  unfolding with_tracer drained noop_shutdown
  with_tracer-drained q tp cfg res s x (err e, s') a f (not_set_up i) =
      laws.live_of_shutdown q tp s'
      ∙ (ap (ended (sdk.provider_eq.beq q tp)) (i ∙ a) ∙ ended-one (sdk.provider_eq.beq q tp) x f)
  with_tracer-drained q tp cfg res s x (ok mp, s') a f (set_up i j) =
      with_meter-drained q tp mp s' x (setup_signal sdk logs cfg res s')
        (i ∙ ap (started (sdk.provider_eq.beq q mp)) a) f (λ b. sym a ∙ j b)
        (setup_signal-IsSetUp q logs cfg res s')

  with_resource-drained :
      (q : Provider) (cfg : Config) (res : Resource) (s : State)
      (r : Result OtelError Provider × State)
      → IsSetUp q s r
      → live q (drained (with_resource sdk cfg res r)) ≡ live q s
  unfolding with_resource drained noop_shutdown
  with_resource-drained q cfg res s (err e, s') (not_set_up i) = i
  with_resource-drained q cfg res s (ok tp, s') (set_up i j) =
      with_tracer-drained q tp cfg res s' (live q s) (setup_signal sdk metrics cfg res s') i j
        (setup_signal-IsSetUp q metrics cfg res s')

  described-drained :
      (q : Provider) (cfg : Config) (s : State) (r : Option Resource × State)
      → live q r.1 ≡ live q s
      → live q (drained (described sdk cfg r)) ≡ live q s
  unfolding drained noop_shutdown described
  described-drained q cfg s (none, s') e = e
  described-drained q cfg s (some res, s') e =
      with_resource-drained q cfg res s' (setup_signal sdk traces cfg res s')
        (setup_signal-IsSetUp q traces cfg res s')
      ∙ e

  -- Whatever `Setup` comes to, calling the shutdown function that it returns leaves exactly the
  -- providers running that ran before: it stops all three of them, and a `Setup` that fails half-way,
  -- whose function does nothing, has stopped those that it had started.
  pub setup-drained :
      (q : Provider) (cfg : Config) (s : State) → live q (drained (setup sdk cfg s)) ≡ live q s
  unfolding setup drained noop_shutdown described
  setup-drained q cfg s = elim (Bool-cases (cfg.service_name == "")) [
    | inl a ↦ rw (setup, a) refl
    | inr a ↦ elim (Bool-cases (cfg.otlp_endpoint == "")) [
      | inl b ↦ rw (setup, a, b) refl
      | inr b ↦
          rw (setup, a, b)
            (described-drained q cfg s (sdk.new_resource cfg.service_name cfg.service_version s)
              (laws.live_of_resource q cfg.service_name cfg.service_version s))
    ]
  ]

  with_meter-refused :
      (tp mp : Provider) (r : Result OtelError Provider × State) (e : OtelError)
      → (with_meter sdk tp mp r).1 ≡ some e
      → drained (with_meter sdk tp mp r) ≡ (with_meter sdk tp mp r).2
  unfolding with_meter drained noop_shutdown
  with_meter-refused tp mp (err x, s) e h = refl
  with_meter-refused tp mp (ok lp, s) e h = cc

  with_tracer-refused :
      (cfg : Config) (res : Resource) (tp : Provider) (r : Result OtelError Provider × State)
      (e : OtelError)
      → (with_tracer sdk cfg res tp r).1 ≡ some e
      → drained (with_tracer sdk cfg res tp r) ≡ (with_tracer sdk cfg res tp r).2
  unfolding with_tracer drained noop_shutdown
  with_tracer-refused cfg res tp (err x, s) e h = refl
  with_tracer-refused cfg res tp (ok mp, s) e h =
      with_meter-refused tp mp (setup_signal sdk logs cfg res s) e h

  with_resource-refused :
      (cfg : Config) (res : Resource) (r : Result OtelError Provider × State) (e : OtelError)
      → (with_resource sdk cfg res r).1 ≡ some e
      → drained (with_resource sdk cfg res r) ≡ (with_resource sdk cfg res r).2
  unfolding with_resource drained noop_shutdown
  with_resource-refused cfg res (err x, s) e h = refl
  with_resource-refused cfg res (ok tp, s) e h =
      with_tracer-refused cfg res tp (setup_signal sdk metrics cfg res s) e h

  described-refused :
      (cfg : Config) (r : Option Resource × State) (e : OtelError)
      → (described sdk cfg r).1 ≡ some e
      → drained (described sdk cfg r) ≡ (described sdk cfg r).2
  unfolding drained noop_shutdown described
  described-refused cfg (none, s) e h = refl
  described-refused cfg (some res, s) e h =
      with_resource-refused cfg res (setup_signal sdk traces cfg res s) e h

  -- The shutdown function that comes with an error does nothing.
  pub setup-refused :
      (cfg : Config) (s : State) (e : OtelError)
      → (setup sdk cfg s).1 ≡ some e
      → drained (setup sdk cfg s) ≡ (setup sdk cfg s).2
  unfolding setup drained noop_shutdown
  setup-refused cfg s e h = elim (Bool-cases (cfg.service_name == "")) [
    | inl a ↦ rw (setup, a) refl
    | inr a ↦ elim (Bool-cases (cfg.otlp_endpoint == "")) [
      | inl b ↦ rw (setup, a, b) refl
      | inr b ↦
          let made = sdk.new_resource cfg.service_name cfg.service_version s in
          rw (setup, a, b) (described-refused cfg made e (rw (setup, a, b) at h))
    ]
  ]
