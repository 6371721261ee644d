-- ===== src/SpecSource/Follow.antt =====
-- internal/specsource/watcher.go with internal/gitsource: the watcher over its Git source.
use seine.Prelude.{String, ◌≡◌, refl, ◌⊎◌, inl, inr, Bool, Option, none, some}
use seine.Prelude.Result.{Result, ok, err, Result-cases}
use seine.External.{Net}
use seine.Api.{Time}
use seine.Spec.Types.{Document}
use seine.Spec.Parse.{Decoded, parse}
use seine.GitSource.{Source, OpenError, PullError, open_source, close, pull}
use seine.GitSource.Transport.{Client}
use seine.GitSource.Tip.{GitLaws, Follows, pull-Follows}
use seine.SpecSource.{
  Config, Watcher, WatchError, Pull, pull_error, pulled, pull_failed, parse_failed, pull_once,
  record_error, publish, with_defaults, new_watcher, current,
}

-- A watcher with its `cfg` and its `src`, which is nil once it is closed.
pub record Tracker : Type 0 where
  pub cfg : Config
  pub src : Source
  pub watcher : Watcher

-- What a pull hands to `pullOnce`.
abbrev pub observed : Result PullError seine.GitSource.Snapshot → Pull
observed (err e) = pull_error
observed (ok snap) = pulled snap.commit_sha snap.contents

module _ (git : Client) where
  open git use {State}

  abbrev tracker : Config → Result OpenError Source × State → Result OpenError Tracker × State
  tracker cfg (err e, s) = (err e, s)
  tracker cfg (ok src, s) =
      (ok (record { cfg = with_defaults cfg; src = src; watcher = new_watcher }), s)

  -- `New`
  unfoldable pub new : Config → seine.GitSource.Config → State → Result OpenError Tracker × State
  unfolding open_source
  new cfg source s = tracker cfg (open_source git source s)

  abbrev with_source : Tracker → Option Source → Tracker
  with_source w none = w
  with_source w (some src) = record w { src = src }

  -- `Close`
  unfoldable pub close_source : Tracker → State → Bool × Tracker × State
  unfolding close
  close_source w s = let done = close git (some w.src) s in (done.0, with_source w done.1, done.2)

  module _ (net : Net) (decode : String → Decoded) where
    -- `pullOnce`, with the pull of its source
    unfoldable pub sync : Time → Tracker → State → Option WatchError × Tracker × State
    unfolding pull pull_once
    sync now w s =
        let got = pull git w.src s in
        let done = pull_once net decode now (observed got.0) w.watcher in
        (done.0, record w { watcher = done.1 }, got.1)

    module _ (laws : GitLaws git) where
      -- A watcher whose `Current` is the file at the tip of the branch, parsed.
      pub record IsCurrent (w : Tracker) (s : State) (after : Watcher) : Type 0 where
        snap : seine.GitSource.Snapshot
        doc : Document
        follows : Follows git laws w.src s snap
        parses : parse net decode snap.contents ≡ ok doc
        returned : current after ≡ ok (doc, snap.commit_sha)

      -- `pullOnce` either reports no error, and then `Current` returns the document parsed from the
      -- configured file at the tip of the configured branch, as the remote had it, and its commit; or
      -- it reports an error, and then `Current` still returns whatever document it returned before.
      pub sync-IsCurrent :
          (now : Time) (w : Tracker) (s : State)
          → let done = sync now w s in
            (done.0 ≡ none) × IsCurrent w s done.1.watcher
            ⊎ ((e : WatchError) × (done.0 ≡ some e) × (done.1.watcher.state ≡ w.watcher.state))
      unfolding sync pull_once current record_error publish
      sync-IsCurrent now w s = elim (Result-cases (pull git w.src s).0) [
        | inl (e, p) ↦ rw (sync, p) (inr (pull_failed, refl, refl))
        | inr (snap, p) ↦ elim (Result-cases (parse net decode snap.contents)) [
          | inl (e, q) ↦ rw (sync, pull_once, p, q) (inr (parse_failed e, refl, refl))
          | inr (doc, q) ↦
              rw (sync, pull_once, p, q)
                (inl (
                  refl,
                  record {
                    snap = snap;
                    doc = doc;
                    follows = pull-Follows git laws w.src s snap p;
                    parses = q;
                    returned = refl;
                  },
                ))
        ]
      ]
