-- ===== src/SpecSource/Backoff.antt =====
-- internal/specsource/watcher.go: how long the loop waits between pulls.
use seine.Prelude.{
  ℕ, ◌^◌, ◌≤◌, ◌<◌, String, ◌≡◌, ◌⊎◌, Option, none, some, List, [], ◌∷◌, arith, All,
}
use seine.Prelude.Int.{pos, negsuc}
use seine.External.{Net}
use seine.Spec.Types.{Duration}
use seine.Spec.Parse.{Decoded}
use seine.SpecSource.{Config, Watcher, WatchError, Round, schedule, run_from, run, pull_once}

-- A duration between two bounds.
abbrev pub Between : ℕ → ℕ → Duration → Type 0
Between low high (pos d) = (low ≤ d) × (d ≤ high)
Between low high (negsuc d) = ⊥

-- The configured bounds, in nanoseconds; the last is 146 years.
pub record HasBounds (cfg : Config) (low high : ℕ) : Type 0 where
  pub min : cfg.min_backoff ≡ pos low
  pub max : cfg.max_backoff ≡ pos high
  pub ordered : low ≤ high
  pub short : high < 2 ^ 62

schedule-Between :
    (cfg : Config) (low high : ℕ) (e : Option WatchError) (backoff : Duration)
    → HasBounds cfg low high
    → Between low high backoff
    → ((e ≡ none) × ((schedule cfg e backoff).0 ≡ cfg.interval)
        ⊎ Between low high (schedule cfg e backoff).0)
      × Between low high (schedule cfg e backoff).1
unfolding schedule
schedule-Between cfg low high none (pos b) h within = ground arith
schedule-Between cfg low high (some e) (pos b) h within = ground arith
schedule-Between cfg low high e (negsuc b) h within = absurd within

abbrev Fits : Config → ℕ → ℕ → Duration → Type 0
Fits cfg low high delay = (delay ≡ cfg.interval) ⊎ Between low high delay

module _ (net : Net) (decode : String → Decoded) (cfg : Config) (low high : ℕ) where
  run_from-Between :
      (backoff : Duration) (w : Watcher) (rounds : List Round)
      → HasBounds cfg low high
      → Between low high backoff
      → All (Fits cfg low high) (run_from net decode cfg backoff w rounds).0
  unfolding run_from
  run_from-Between backoff w [] h within = tt
  run_from-Between backoff w ((now, pull) ∷ rounds) h within =
      let done = pull_once net decode now pull w in
      let (delay, next) = schedule-Between cfg low high done.0 backoff h within in
      (ground arith, run_from-Between (schedule cfg done.0 backoff).1 done.1 rounds h next)

  -- Whatever is pulled, every delay of the loop is the interval or lies between the two backoffs, if
  -- these are in order and below 2^62 nanoseconds: doubling never passes the cap and never wraps.
  pub run_delays :
      (w : Watcher) (rounds : List Round)
      → HasBounds cfg low high
      → All
          (λ delay. (delay ≡ cfg.interval) ⊎ Between low high delay)
          (run net decode cfg w rounds).0
  unfolding run
  run_delays w rounds h =
      run_from-Between cfg.min_backoff w rounds h (let o = h.ordered in rw h.min (omega arith))
