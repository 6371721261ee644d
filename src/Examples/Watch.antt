-- ===== src/Examples/Watch.antt =====
-- The watcher's theorems: a pull that fails, one that parses and one that does not.
use seine.Prelude.{
  String, ◌≡◌, refl, ◌⊎◌, ◌↔◌, none, some, List, [], ◌∷◌, arith, ◌==◌, All, if◌then◌else◌,
}
use seine.Prelude.Int.{ℤ, pos}
use seine.Prelude.Result.{ok}
use seine.Api.{Time}
use seine.Spec.Parse.{Decoded, decoded, failed}
use seine.SpecSource.{Config, Round, pull_error, pulled, new_watcher, current, run}
use seine.SpecSource.Cache.{last_good, current-run}
use seine.SpecSource.Backoff.{HasBounds, Between, run_delays}
use seine.Examples.Sample.{sample_net, sample_doc}

abbrev pub decode : String → Decoded
decode text = if text == "good" then decoded sample_doc else failed

abbrev pub at : ℤ → Time
at s = record { unix = s; nanos = 0 }

abbrev rounds : List Round
rounds =
    (at (pos 1), pull_error)
    ∷ (at (pos 2), pulled "c1" "good")
    ∷ (at (pos 3), pulled "c2" "bad")
    ∷ []

abbrev pub cfg : Config
cfg = record {
  interval = pos 30_000_000_000;
  min_backoff = pos 2_000_000_000;
  max_backoff = pos 60_000_000_000;
}

cfg_bounds : HasBounds cfg 2_000_000_000 60_000_000_000
cfg_bounds = record { min = refl; max = refl; ordered = omega arith; short = omega arith }

current-run_example :
    (current (run sample_net decode cfg new_watcher rounds).1 ≡ ok (sample_doc, "c1"))
    ↔ (last_good sample_net decode none rounds ≡ some (sample_doc, "c1"))
current-run_example = current-run sample_net decode cfg rounds (sample_doc, "c1")

run_delays_example :
    All
      (λ delay. (delay ≡ cfg.interval) ⊎ Between 2_000_000_000 60_000_000_000 delay)
      (run sample_net decode cfg new_watcher rounds).0
run_delays_example =
    run_delays sample_net decode cfg 2_000_000_000 60_000_000_000 new_watcher rounds cfg_bounds
