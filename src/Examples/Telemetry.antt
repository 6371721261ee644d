-- ===== src/Examples/Telemetry.antt =====
-- An SDK whose state is the list of the providers that run, and what `Setup` leaves.
use seine.Prelude.{
  ℕ, suc, ◌+◌, ◌≤◌, String, ◌≡◌, refl, Bool, true, false, some, List, [], ◌∷◌, ◌||◌, member, nat_eq,
  nat_beq, arith, Bool-cases, inl, inr,
}
use seine.Otel.{Sdk, Config, setup}
use seine.Examples.Removal.{without, member-without}
use seine.Otel.Drained.{SdkLaws, started, drained, setup-drained}

abbrev total : List ℕ → ℕ
total [] = 0
total (x ∷ xs) = x + total xs

-- A new provider has a number that is larger than those that run.
abbrev pub sample_sdk : Sdk
sample_sdk = record {
  State = List ℕ;
  Resource = String;
  Exporter = String;
  Provider = ℕ;
  provider_eq = nat_eq;
  new_resource = λ name version s. (some name, s);
  new_exporter = λ signal endpoint insecure s. (some endpoint, s);
  new_provider = λ signal e r s. (suc (total s), suc (total s) ∷ s);
  set_provider = λ signal p s. s;
  set_propagators = λ s. s;
  shutdown = λ p s. (true, without nat_eq p s);
}

above_is_new : (n : ℕ) (s : List ℕ) → suc (total s) ≤ n → member nat_eq n s ≡ false
above_is_new n [] h = refl
above_is_new n (x ∷ xs) h = elim (Bool-cases (nat_beq n x)) [
  | inl e ↦ absurd (let same : n ≡ x = (nat_eq.beq_iff n x).0 e in omega (arith, same, h))
  | inr e ↦ rw e (above_is_new n xs (omega (arith, h)))
]

joined : (b m : Bool) → (b || m) ≡ started b m
joined true m = refl
joined false m = refl

pub sample_sdk_laws : SdkLaws sample_sdk
sample_sdk_laws = record {
  live = λ q s. member nat_eq q s;
  live_of_resource = λ q name version s. refl;
  live_of_exporter = λ q signal endpoint insecure s. refl;
  live_of_provider = λ q signal e r s. joined (nat_beq q (suc (total s))) (member nat_eq q s);
  fresh = λ signal e r s. above_is_new (suc (total s)) s (omega arith);
  live_of_set = λ q signal p s. refl;
  live_of_propagators = λ q s. refl;
  live_of_shutdown = λ q p s. member-without nat_eq q p s;
}

abbrev telemetry : Config
telemetry = record {
  service_name = "seine-agent";
  service_version = "dev";
  otlp_endpoint = "localhost:4317";
  insecure = true;
}

setup-drained_example :
    sample_sdk_laws.live 7
      (drained sample_sdk sample_sdk_laws (setup sample_sdk telemetry (3 ∷ [])))
    ≡ sample_sdk_laws.live 7 (3 ∷ [])
setup-drained_example = setup-drained sample_sdk sample_sdk_laws 7 telemetry (3 ∷ [])
