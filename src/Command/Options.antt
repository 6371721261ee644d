-- ===== src/Command/Options.antt =====
-- cmd/seine-agent/main.go and cmd/seine-server/main.go: what both take from the environment and from
-- the flags.
use seine.Prelude.{String, Bool, Option, none, some, List, [], ◌∷◌, ◌==◌, if◌then◌else◌}
use seine.Spec.Types.{Duration}
use seine.GitSource.Credentials.{Auth, no_auth, token_auth, ssh_key_auth}
use seine.Command.Flags.{Setting, parse_bool}

-- `os.LookupEnv`
abbrev pub Environment : Type 0
Environment = String → Option String

-- `os.Getenv`
abbrev pub getenv : Environment → String → String
getenv env key = elim (env key) [ none ↦ "" | some v ↦ v ]

unfoldable pub env_or : Environment → String → String → String
env_or env key fallback = elim (env key) [ none ↦ fallback | some v ↦ v ]

-- `gitUsername`, `gitToken` and `gitSSHKey`; the error of `buildGitAuth` is always nil.
unfoldable pub build_git_auth : String → String → String → Auth
build_git_auth username token ssh_key =
    if token == ""
    then if ssh_key == ""
      then no_auth
      else ssh_key_auth (record { user = "git"; private_key_path = ssh_key; passphrase = "" })
    else token_auth (record { username = username; token = token })

abbrev bool_or : Option Bool → Bool → Bool
bool_or none default = default
bool_or (some b) default = b

-- The last setting of a boolean flag, or its default.
unfoldable pub given_bool : List Setting → String → Bool → Bool
unfolding parse_bool
given_bool [] name default = default
given_bool ((n, s) ∷ rest) name default =
    given_bool rest name (if n == name then bool_or (parse_bool s) default else default)

module _ (parse_duration : String → Option Duration) where
  abbrev pub duration_or : Option String → Duration → Duration
  duration_or none fallback = fallback
  duration_or (some v) fallback = elim (parse_duration v) [ none ↦ fallback | some d ↦ d ]

  unfoldable pub duration_env : Environment → String → Duration → Duration
  duration_env env key fallback = duration_or (env key) fallback

  -- The same of a duration flag.
  unfoldable pub given_duration : List Setting → String → Duration → Duration
  given_duration [] name default = default
  given_duration ((n, s) ∷ rest) name default =
      given_duration rest name (if n == name then duration_or (some s) default else default)
