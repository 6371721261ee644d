-- ===== src/GitSource/Transport.antt =====
-- What internal/gitsource takes from go-git and from Go's `os` and `path/filepath`, as a parameter over
-- one state: the local directories and the remotes.
use seine.Prelude.{String, ℕ, Bool, Option, List}

-- What `os.Stat` returns.
pub data Stat : Type 0 where
  there absent stat_failed : Stat

-- What `FetchContext` returns: nil, `NoErrAlreadyUpToDate`, or another error.
pub data Fetched : Type 0 where
  updated up_to_date fetch_failed : Fetched

-- `transport.AuthMethod`: `*http.BasicAuth`, or the public keys that go-git read from a file.
pub data Method (Keys : Type 0) : Type 0 where
  basic : String → String → Method Keys
  public_keys : Keys → Method Keys

-- `git.CloneOptions`.
pub record CloneOptions (Keys : Type 0) : Type 0 where
  pub url : String
  pub method : Option (Method Keys)
  pub reference_name : String
  pub single_branch : Bool
  pub depth : ℕ

-- `git.FetchOptions`.
pub record FetchOptions (Keys : Type 0) : Type 0 where
  pub remote_name : String
  pub method : Option (Method Keys)
  pub ref_specs : List String
  pub force : Bool

-- `none` and `false` are errors.
pub record Client : Type 1 where
  pub State : Type 0
  pub Keys : Type 0
  pub Repo : Type 0
  pub Hash : Type 0
  pub Commit : Type 0
  pub Tree : Type 0
  pub File : Type 0
  pub join : String → String → String
  pub stat : String → State → Stat
  pub mkdir_temp : String → State → Option String × State
  pub mkdir_all : String → State → Bool × State
  pub remove_all : String → State → Bool × State
  pub keys_from_file : String → String → String → State → Option Keys
  pub plain_open : String → State → Option Repo
  pub plain_clone : String → CloneOptions Keys → State → Option Repo × State
  pub fetch : Repo → FetchOptions Keys → State → Fetched × State
  pub reference : Repo → String → State → Option Hash
  pub commit_object : Repo → Hash → State → Option Commit
  pub commit_tree : Commit → State → Option Tree
  pub tree_file : Tree → String → State → Option File
  pub file_contents : File → State → Option String
  pub hash_string : Hash → String
