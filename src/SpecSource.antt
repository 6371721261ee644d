-- ===== src/SpecSource.antt =====
-- internal/specsource/watcher.go: the cache of the last document that was pulled and parsed. A pull
-- of the Git source is an input: its error, or the commit and the file's text.
pub mod Cache
pub mod Backoff
pub mod Follow
use seine.Prelude.{
  String, Bool, true, false, Option, none, some, List, [], ◌∷◌, ◌==◌, if◌then◌else◌,
}
use seine.Prelude.Int.{pos, ltb_ℤ, double_int64, or_positive}
use seine.Prelude.Result.{Result, ok, err}
use seine.External.{Net}
use seine.Api.{Time}
use seine.Spec.Types.{Document, Duration}
use seine.Spec.Parse.{Decoded, ParseError, parse}

pub record Config : Type 0 where
  pub interval : Duration
  pub min_backoff : Duration
  pub max_backoff : Duration

-- the defaults that `New` fills in
unfoldable pub with_defaults : Config → Config
with_defaults cfg = record {
  interval = or_positive cfg.interval (pos 30_000_000_000);
  min_backoff = or_positive cfg.min_backoff (pos 2_000_000_000);
  max_backoff = or_positive cfg.max_backoff (pos 60_000_000_000);
}

pub record Snapshot : Type 0 where
  pub doc : Document
  pub commit : String
  pub at : Time

pub data WatchError : Type 0 where
  not_loaded pull_failed : WatchError
  parse_failed : ParseError → WatchError

-- `state`, `last`, and whether the one slot of `updates` is filled.
pub record Watcher : Type 0 where
  pub state : Option Snapshot
  pub last : Option WatchError
  pub updates : Bool

abbrev pub new_watcher : Watcher
new_watcher = record { state = none; last = some not_loaded; updates = false }

-- What `src.Pull` returns.
pub data Pull : Type 0 where
  pull_error : Pull
  pulled : String → String → Pull

-- Its error is `last`, which is nil only when a state is there.
unfoldable pub current : Watcher → Result (Option WatchError) (Document × String)
current w = elim w.state [ none ↦ err w.last | some s ↦ ok (s.doc, s.commit) ]

unfoldable pub record_error : WatchError → Watcher → Watcher
record_error e w = record w { last = some e }

abbrev commit_of : Option Snapshot → String
commit_of none = ""
commit_of (some s) = s.commit

-- the part under the lock and the signal after it
unfoldable pub publish : Time → String → Document → Watcher → Watcher
publish now commit doc w = record {
  state = some (record { doc = doc; commit = commit; at = now });
  last = none;
  updates = if commit_of w.state == commit then w.updates else true;
}

-- A receive from `Updates()` empties the slot.
unfoldable pub drain_updates : Watcher → Bool × Watcher
drain_updates w = (w.updates, record w { updates = false })

module _ (net : Net) (decode : String → Decoded) where
  unfoldable pub pull_once : Time → Pull → Watcher → Option WatchError × Watcher
  unfolding record_error publish
  pull_once now pull_error w = (some pull_failed, record_error pull_failed w)
  pull_once now (pulled commit text) w = elim (parse net decode text) [
    | err e ↦ (some (parse_failed e), record_error (parse_failed e) w)
    | ok doc ↦ (none, publish now commit doc w)
  ]

-- How long the loop of `Run` waits after a round, and the backoff of the next.
unfoldable pub schedule : Config → Option WatchError → Duration → Duration × Duration
schedule cfg none backoff = (cfg.interval, cfg.min_backoff)
schedule cfg (some e) backoff =
    let doubled = double_int64 backoff in
    (backoff, if ltb_ℤ cfg.max_backoff doubled then cfg.max_backoff else doubled)

-- One round of the loop: the instant and the outcome of its pull.
abbrev pub Round : Type 0
Round = Time × Pull

module _ (net : Net) (decode : String → Decoded) (cfg : Config) where
  -- The rounds until the context is cancelled, with the delays that the loop waited.
  unfoldable pub run_from : Duration → Watcher → List Round → List Duration × Watcher
  unfolding pull_once schedule
  run_from backoff w [] = ([], w)
  run_from backoff w ((now, pull) ∷ rounds) =
      let pulled_once = pull_once net decode now pull w in
      let planned = schedule cfg pulled_once.0 backoff in
      let others = run_from planned.1 pulled_once.1 rounds in (planned.0 ∷ others.0, others.1)

  unfoldable pub run : Watcher → List Round → List Duration × Watcher
  unfolding run_from
  run w rounds = run_from cfg.min_backoff w rounds
