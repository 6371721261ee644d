-- ===== src/SpecSource/Cache.antt =====
-- internal/specsource/watcher.go: what `Current` returns after any rounds of the loop.
use seine.Prelude.{
  String, ◌≡◌, refl, ◌↔◌, inl, inr, Option, none, some, List, [], ◌∷◌, arith, Option-cases,
}
use seine.Prelude.Result.{ok, err}
use seine.External.{Net}
use seine.Api.{Time}
use seine.Spec.Types.{Document, Duration}
use seine.Spec.Parse.{Decoded, parse}
use seine.SpecSource.{
  Config, Snapshot, Watcher, Pull, Round, pull_error, pulled, pull_once, run_from, run, new_watcher,
  current, schedule,
}

module _ (net : Net) (decode : String → Decoded) where
  -- The document and the commit of a round that pulled a file which parses.
  good : Pull → Option (Document × String)
  good pull_error = none
  good (pulled commit text) = elim (parse net decode text) [
    | err e ↦ none
    | ok doc ↦ some (doc, commit)
  ]

  -- The last of them.
  pub last_good : Option (Document × String) → List Round → Option (Document × String)
  last_good held [] = held
  last_good held ((now, pull) ∷ rounds) =
      last_good (elim (good pull) [ none ↦ held | some found ↦ some found ]) rounds

  held_by : Option Snapshot → Option (Document × String)
  held_by none = none
  held_by (some s) = some (s.doc, s.commit)

  pull_once-held :
      (now : Time) (pull : Pull) (w : Watcher)
      → held_by (pull_once net decode now pull w).1.state
        ≡ elim (good pull) [ none ↦ held_by w.state | some found ↦ some found ]
  unfolding pull_once good held_by
  pull_once-held now pull_error w = refl
  pull_once-held now (pulled commit text) w = ground arith

  run_from-held :
      (cfg : Config) (backoff : Duration) (w : Watcher) (rounds : List Round)
      → held_by (run_from net decode cfg backoff w rounds).1.state
        ≡ last_good (held_by w.state) rounds
  unfolding run_from last_good
  run_from-held cfg backoff w [] = refl
  run_from-held cfg backoff w ((now, pull) ∷ rounds) =
      let done = pull_once net decode now pull w in
      rw (← pull_once-held now pull w)
        (run_from-held cfg (schedule cfg done.0 backoff).1 done.1 rounds)

  current-held :
      (w : Watcher) (found : Document × String)
      → (current w ≡ ok found) ↔ (held_by w.state ≡ some found)
  unfolding current held_by
  current-held w found = elim (Option-cases w.state) [
    | inl e ↦ ground arith
    | inr (s, e) ↦ ground arith
  ]

  -- After any rounds, successful or not, `Current` returns the document and the commit of the last
  -- pull whose file parsed, and an error exactly if there was none: failures keep the cached version.
  pub current-run :
      (cfg : Config) (rounds : List Round) (found : Document × String)
      → (current (run net decode cfg new_watcher rounds).1 ≡ ok found)
        ↔ (last_good none rounds ≡ some found)
  unfolding run held_by
  current-run cfg rounds found =
      rw (← run_from-held cfg cfg.min_backoff new_watcher rounds)
        (current-held (run_from net decode cfg cfg.min_backoff new_watcher rounds).1 found)
