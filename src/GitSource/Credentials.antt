-- ===== src/GitSource/Credentials.antt =====
-- internal/gitsource/auth.go: the authentication methods.
use seine.Prelude.{String, Option, none, some, ◌==◌, if◌then◌else◌}
use seine.Prelude.Result.{Result, ok, err}
use seine.GitSource.Transport.{Client, Method, basic, public_keys, there, absent, stat_failed}

pub record TokenAuth : Type 0 where
  pub username : String
  pub token : String

pub record SshKeyAuth : Type 0 where
  pub user : String
  pub private_key_path : String
  pub passphrase : String

-- The values of the interface `Auth` that have a `build`; a nil one is `none`.
pub data Auth : Type 0 where
  no_auth : Auth
  token_auth : TokenAuth → Auth
  ssh_key_auth : SshKeyAuth → Auth

pub data AuthError : Type 0 where
  empty_token empty_key_path key_stat read_keys : AuthError

abbrev user_or_git : String → String
user_or_git user = if user == "" then "git" else user

module _ (git : Client) where
  open git use {Keys, State, stat, keys_from_file}

  -- the part of `SSHKeyAuth.build` after the checks of its fields
  unfoldable pub read_key_file : SshKeyAuth → State → Result AuthError (Option (Method Keys))
  read_key_file a s = elim (stat a.private_key_path s) [
    | there ↦ elim (keys_from_file (user_or_git a.user) a.private_key_path a.passphrase s) [
      | none ↦ err read_keys
      | some keys ↦ ok (some (public_keys keys))
    ]
    | absent ↦ err key_stat
    | stat_failed ↦ err key_stat
  ]

  unfoldable pub build : Auth → State → Result AuthError (Option (Method Keys))
  unfolding read_key_file
  build no_auth s = ok none
  build (token_auth a) s =
      if a.token == "" then err empty_token else ok (some (basic (user_or_git a.username) a.token))
  build (ssh_key_auth a) s =
      if a.private_key_path == "" then err empty_key_path else read_key_file a s

  unfoldable pub resolve_auth : Option Auth → State → Result AuthError (Option (Method Keys))
  unfolding build
  resolve_auth none s = ok none
  resolve_auth (some a) s = build a s
