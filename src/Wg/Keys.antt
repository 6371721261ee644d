-- ===== src/Wg/Keys.antt =====
-- internal/wg/keys.go: loading or generating the agent's key. The file system's and the generator's
-- answers are arguments.
use Prim.Native.Char.{Char, code}
use Prim.Native.String.{String}
use seine.Prelude.{Bool, ◌&&◌, ◌||◌, Option, none, some, nat_beq, if◌then◌else◌, ◌==◌}
use seine.Prelude.Result.{Result, ok, err}
use seine.External

pub record Keypair (keys : External.Keys) : Type 0 where
  pub private : keys.Key
  pub public : keys.Key

-- What `os.ReadFile` returns.
pub data ReadFile : Type 0 where
  content : String → ReadFile
  not_exist failed : ReadFile

pub data KeyError : Type 0 where
  generate parse read mkdir write : KeyError

abbrev pub is_space : Char → Bool
is_space c =
    nat_beq (code c) 32 || (nat_beq (code c) 9 || (nat_beq (code c) 10 || nat_beq (code c) 13))

-- the first loop of `trim`
unfoldable pub trim_left : String → String
trim_left String.[] = String.[]
trim_left (String.◌∷◌ c s) = let rest = trim_left s in if is_space c then rest else String.◌∷◌ c s

-- the second loop of `trim`, which takes white space off the end
unfoldable pub trim_right : String → String
trim_right String.[] = String.[]
trim_right (String.◌∷◌ c s) =
    let rest = trim_right s in if is_space c && rest == "" then String.[] else String.◌∷◌ c rest

unfoldable pub trim : String → String
unfolding trim_left trim_right
trim s = trim_right (trim_left s)

-- `s + "\n"`
unfoldable pub with_newline : String → String
with_newline String.[] = "\n"
with_newline (String.◌∷◌ c s) = String.◌∷◌ c (with_newline s)

module _ (keys : External.Keys) where
  open keys use {Key, key_string, public_key}

  unfoldable pub parse_key : String → Option Key
  unfolding trim
  parse_key s = keys.parse_key (trim s)

  -- The argument is what `wgtypes.GeneratePrivateKey` returns.
  unfoldable pub generate_keypair : Option Key → Result KeyError (Keypair keys)
  generate_keypair none = err generate
  generate_keypair (some priv) = ok (record { private = priv; public = public_key priv })

  -- the second half: the new key is written if the directory and the file can be made; the second
  -- result is the text that the file then holds
  unfoldable pub store_keypair :
      Bool → Bool → Keypair keys → Result KeyError (Keypair keys) × Option String
  store_keypair mkdir_ok write_ok kp =
      if mkdir_ok
      then (if write_ok
          then (ok kp, some (with_newline (key_string kp.private)))
          else (err write, none))
      else (err mkdir, none)

  unfoldable pub load_or_generate :
      ReadFile → Option Key → Bool → Bool → Result KeyError (Keypair keys) × Option String
  unfolding parse_key generate_keypair store_keypair
  load_or_generate (content text) fresh mkdir_ok write_ok = elim (parse_key text) [
    | none ↦ (err parse, none)
    | some key ↦ (ok (record { private = key; public = public_key key }), none)
  ]
  load_or_generate not_exist fresh mkdir_ok write_ok = elim (generate_keypair fresh) [
    | err e ↦ (err e, none)
    | ok kp ↦ store_keypair mkdir_ok write_ok kp
  ]
  load_or_generate failed fresh mkdir_ok write_ok = (err read, none)
