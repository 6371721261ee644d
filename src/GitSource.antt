-- ===== src/GitSource.antt =====
-- internal/gitsource/source.go: a Git remote that yields one file at the tip of one branch.
pub mod Transport
pub mod Credentials
pub mod Tip
use seine.Prelude.{
  String, ◌<>◌, Bool, true, false, not, Option, none, some, List, [], ◌∷◌, ◌==◌, ◌||◌,
  if◌then◌else◌,
}
use seine.Prelude.Result.{Result, ok, err, ◌>>=◌, or_error, wrap}
use Transport.{
  Client, Method, CloneOptions, FetchOptions, there, absent, stat_failed, updated, up_to_date,
  fetch_failed,
}
use Credentials.{Auth, AuthError, resolve_auth}

pub record Config : Type 0 where
  pub url : String
  pub branch : String
  pub path : String
  pub workdir : String
  pub auth : Option Auth

pub record Source : Type 0 where
  pub cfg : Config
  pub workdir : String
  pub owned : Bool

pub record Snapshot : Type 0 where
  pub commit_sha : String
  pub branch : String
  pub path : String
  pub contents : String

pub data OpenError : Type 0 where
  url_required branch_required path_required mktemp mkdir : OpenError

pub data PullError : Type 0 where
  auth : AuthError → PullError
  open_existing stat_workdir clone fetch resolve load_commit tree file read : PullError

abbrev pub ref_spec : String → String
ref_spec branch = "+refs/heads/" <> (branch <> (":refs/remotes/origin/" <> branch))

abbrev pub remote_ref : String → String
remote_ref branch = "refs/remotes/origin/" <> branch

module _ (git : Client) where
  open git use {State, Keys, Repo, Hash}

  abbrev temporary : Config → Option String × State → Result OpenError Source × State
  temporary cfg (none, s) = (err mktemp, s)
  temporary cfg (some dir, s) = (ok (record { cfg = cfg; workdir = dir; owned = true }), s)

  abbrev given : Config → Bool × State → Result OpenError Source × State
  given cfg (true, s) = (ok (record { cfg = cfg; workdir = cfg.workdir; owned = false }), s)
  given cfg (false, s) = (err mkdir, s)

  -- `Open`
  unfoldable pub open_source : Config → State → Result OpenError Source × State
  open_source cfg s =
      if cfg.url == ""
      then (err url_required, s)
      else if cfg.branch == ""
      then (err branch_required, s)
      else if cfg.path == ""
      then (err path_required, s)
      else if cfg.workdir == ""
      then temporary cfg (git.mkdir_temp "seine-git-" s)
      else given cfg (git.mkdir_all cfg.workdir s)

  -- `Close`; a nil receiver is `none`. The flag says that there was no error.
  unfoldable pub close : Option Source → State → Bool × Option Source × State
  close none s = (true, none, s)
  close (some src) s =
      if not src.owned || src.workdir == ""
      then (true, some src, s)
      else (let removed = git.remove_all src.workdir s in
          (removed.0, some (record src { workdir = ""; owned = false }), removed.1))

  abbrev cloned : Option Repo × State → Result PullError Repo × State
  cloned (none, s) = (err clone, s)
  cloned (some repo, s) = (ok repo, s)

  abbrev pub clone_options : Config → Option (Method Keys) → CloneOptions Keys
  clone_options cfg method = record {
    url = cfg.url;
    method = method;
    reference_name = "refs/heads/" <> cfg.branch;
    single_branch = true;
    depth = 1;
  }

  unfoldable pub open_or_clone :
      Source → Option (Method Keys) → State → Result PullError Repo × State
  open_or_clone src method s = elim (git.stat (git.join src.workdir ".git") s) [
    | there ↦ (or_error (git.plain_open src.workdir s) open_existing, s)
    | stat_failed ↦ (err stat_workdir, s)
    | absent ↦ cloned (git.plain_clone src.workdir (clone_options src.cfg method) s)
  ]

  abbrev pub fetch_options : Config → Option (Method Keys) → FetchOptions Keys
  fetch_options cfg method = record {
    remote_name = "origin";
    method = method;
    ref_specs = ref_spec cfg.branch ∷ [];
    force = true;
  }

  -- `fetch`: whether it succeeded
  unfoldable pub fetch_branch : Source → Repo → Option (Method Keys) → State → Bool × State
  fetch_branch src repo method s =
      let fetched = git.fetch repo (fetch_options src.cfg method) s in
      elim (fetched.0) [
        | updated ↦ (true, fetched.1)
        | up_to_date ↦ (true, fetched.1)
        | fetch_failed ↦ (false, fetched.1)
      ]

  -- the file at the tip of the remote branch, as the repository has it
  unfoldable pub read_tip : Source → Repo → State → Result PullError Snapshot
  read_tip src repo s =
      or_error (git.reference repo (remote_ref src.cfg.branch) s) resolve >>= λ hash.
      or_error (git.commit_object repo hash s) load_commit >>= λ commit.
      or_error (git.commit_tree commit s) tree >>= λ t.
      or_error (git.tree_file t src.cfg.path s) file >>= λ f.
      or_error (git.file_contents f s) read >>= λ contents. ok (record {
        commit_sha = git.hash_string hash;
        branch = src.cfg.branch;
        path = src.cfg.path;
        contents = contents;
      })

  -- the part of `Pull` with a repository
  unfoldable pub refresh :
      Source
      → Option (Method Keys)
      → Result PullError Repo × State
      → Result PullError Snapshot × State
  unfolding fetch_branch read_tip
  refresh src method (err e, s) = (err e, s)
  refresh src method (ok repo, s) =
      let fetched = fetch_branch src repo method s in
      if fetched.0
      then (read_tip src repo fetched.1, fetched.1)
      else (err PullError.fetch, fetched.1)

  unfoldable pub pull : Source → State → Result PullError Snapshot × State
  unfolding resolve_auth open_or_clone refresh
  pull src s = elim (resolve_auth git src.cfg.auth s) [
    | err e ↦ (err (PullError.auth e), s)
    | ok method ↦ refresh src method (open_or_clone src method s)
  ]
