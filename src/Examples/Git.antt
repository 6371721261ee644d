-- ===== src/Examples/Git.antt =====
-- A git with one working copy, and the theorems on the Git source and its watcher at it.
use seine.Prelude.{
  String, ◌≡◌, refl, true, false, Option, none, some, ◌==◌, ◌&&◌, ◌⊎◌, if◌then◌else◌, ◌<>◌, ℕ,
}
use seine.Prelude.Int.{pos}
use seine.Prelude.Result.{ok}
use seine.GitSource.{
  Source, Snapshot, remote_ref, pull, read_tip, fetch_branch, open_or_clone, refresh,
}
use seine.GitSource.Credentials.{token_auth, resolve_auth, build}
use seine.GitSource.Transport.{Client, Stat, there, absent, updated}
use seine.GitSource.Tip.{GitLaws, Follows, pull-Follows}
use seine.SpecSource.{WatchError, new_watcher}
use seine.SpecSource.Follow.{Tracker, IsCurrent, sync, sync-IsCurrent}
use seine.Examples.Sample.{sample_net}
use seine.Examples.Watch.{decode, cfg, at}

-- The remote of the working copy, if there is one, and its remote-tracking branches.
pub record Disk : Type 0 where
  pub origin : Option String
  pub refs : String → Option ℕ

-- The remotes: one, with one branch.
abbrev table : String → String → Option ℕ
table url name =
    if (url == "https://git.example/net.git") && (name == "refs/remotes/origin/main")
    then some 7
    else none

abbrev blob_at : ℕ → String → Option String
blob_at h path = if path == "network.yaml" then some "good" else none

abbrev presence : Option String → Stat
presence none = absent
presence (some url) = there

abbrev pub local_git : Client
local_git = record {
  State = Disk;
  Keys = ℕ;
  Repo = String;
  Hash = ℕ;
  Commit = ℕ;
  Tree = ℕ;
  File = String;
  join = λ dir name. dir <> ("/" <> name);
  stat = λ path s. presence s.origin;
  mkdir_temp = λ prefix s. (some "/tmp/seine-git-1", s);
  mkdir_all = λ dir s. (true, s);
  remove_all = λ dir s. (true, record { origin = none; refs = λ name. none });
  keys_from_file = λ user path phrase s. none;
  plain_open = λ dir s. s.origin;
  plain_clone = λ dir o s. (some o.url, record { origin = some o.url; refs = λ name. none });
  fetch = λ repo o s. (updated, record s { refs = table repo });
  reference = λ repo name s. s.refs name;
  commit_object = λ repo h s. some h;
  commit_tree = λ c s. some c;
  tree_file = λ t path s. blob_at t path;
  file_contents = λ f s. some f;
  hash_string = λ h. "c7";
}

laws : GitLaws local_git
laws = record {
  origin = λ repo s. repo;
  head = λ url branch s. table url (remote_ref branch);
  blob = blob_at;
  origin_of_clone = λ dir o s e. cc;
  head_of_clone = λ dir o s url branch. refl;
  reference_of_fetch = λ repo branch o s r specs f done. refl;
  blob_of_file = λ repo h path s c t f. cc;
}

abbrev source : Source
source = record {
  cfg = record {
    url = "https://git.example/net.git";
    branch = "main";
    path = "network.yaml";
    workdir = "/var/lib/seine/git";
    auth = some (token_auth (record { username = ""; token = "secret" }));
  };
  workdir = "/var/lib/seine/git";
  owned = false;
}

abbrev pub empty_disk : Disk
empty_disk = record { origin = none; refs = λ name. none }

abbrev snapshot : Snapshot
snapshot = record { commit_sha = "c7"; branch = "main"; path = "network.yaml"; contents = "good" }

pulls : (pull local_git source empty_disk).0 ≡ ok snapshot
unfolding pull resolve_auth build open_or_clone refresh fetch_branch read_tip
pulls = refl

pull-Follows_example : Follows local_git laws source empty_disk snapshot
pull-Follows_example = pull-Follows local_git laws source empty_disk snapshot pulls

abbrev tracker : Tracker
tracker = record { cfg = cfg; src = source; watcher = new_watcher }

sync-IsCurrent_example :
    let done = sync local_git sample_net decode (at (pos 1)) tracker empty_disk in
    (done.0 ≡ none) × IsCurrent local_git sample_net decode laws tracker empty_disk done.1.watcher
    ⊎ ((e : WatchError) × (done.0 ≡ some e) × (done.1.watcher.state ≡ none))
sync-IsCurrent_example =
    sync-IsCurrent local_git sample_net decode laws (at (pos 1)) tracker empty_disk
