-- ===== src/Wg/Identity.antt =====
-- internal/wg/keys.go: an agent that restarts keeps its key.
use Prim.Native.String.{String}
use seine.Prelude.{◌≡◌, refl, Bool, true, false, Option, none, some, arith}
use seine.Prelude.Result.{ok}
use seine.External
use seine.Wg.Keys.{
  Keypair, content, not_exist, is_space, trim_left, trim_right, trim, with_newline, parse_key,
  load_or_generate, store_keypair, generate_keypair,
}

-- A text that holds no white space.
abbrev pub Solid : String → Type 0
Solid String.[] = Unit
Solid (String.◌∷◌ c s) = (is_space c ≡ false) × Solid s

trim_right-with_newline : (s : String) → Solid s → trim_right (with_newline s) ≡ s
unfolding trim_right with_newline
trim_right-with_newline String.[] h = refl
trim_right-with_newline (String.◌∷◌ c s) h =
    let ih = trim_right-with_newline s h.1 in rw (ih, h.0) refl

trim-with_newline : (s : String) → Solid s → trim (with_newline s) ≡ s
unfolding trim trim_left trim_right with_newline
trim-with_newline String.[] h = refl
trim-with_newline (String.◌∷◌ c s) h =
    let ih = trim_right-with_newline s h.1 in rw (h.0) (rw (h.0) (rw ih refl))

-- The texts of keys hold no white space and read back, as base64 does.
pub record KeyLaws (keys : External.Keys) : Type 0 where
  pub solid : (k : keys.Key) → Solid (keys.key_string k)
  pub reads_back : (k : keys.Key) → keys.parse_key (keys.key_string k) ≡ some k

module _ (keys : External.Keys) (laws : KeyLaws keys) where
  -- A first start that generates a key and stores it: a later start that reads the file that was
  -- written returns the same keypair, whatever the generator would return, and writes nothing.
  pub load_or_generate_restart :
      (fresh other : Option keys.Key) (mkdir_ok write_ok mkdir_ok' write_ok' : Bool)
      (kp : Keypair keys) (text : String)
      → load_or_generate keys not_exist fresh mkdir_ok write_ok ≡ (ok kp, some text)
      → load_or_generate keys (content text) other mkdir_ok' write_ok' ≡ (ok kp, none)
  unfolding load_or_generate store_keypair generate_keypair parse_key
  load_or_generate_restart none other mkdir_ok write_ok m w kp text h = absurd (ground arith)
  load_or_generate_restart (some k) other false write_ok m w kp text h = absurd (ground arith)
  load_or_generate_restart (some k) other true false m w kp text h = absurd (ground arith)
  load_or_generate_restart (some k) other true true m w kp text h =
      let written : with_newline (keys.key_string k) ≡ text = ground arith in
      let pair : record { private = k; public = keys.public_key k } ≡ kp = ground arith in
      rw (← written, ← pair)
        (rw
          (
            load_or_generate,
            parse_key,
            trim-with_newline (keys.key_string k) (laws.solid k),
            laws.reads_back k,
          )
          refl)
