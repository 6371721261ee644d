-- ===== src/Buildinfo.antt =====
-- internal/buildinfo/buildinfo.go: the version texts. Those that the linker stamps in are ASCII, so that
-- a character is a byte.
use seine.Prelude.{ℕ, zero, suc, String, Option, none, some, ◌<>◌}

unfoldable pub first_chars : ℕ → String → String
first_chars zero s = ""
first_chars (suc n) String.[] = ""
first_chars (suc n) (String.◌∷◌ c s) = let rest = first_chars n s in String.◌∷◌ c rest

-- `Short`, of `Version` and `Commit`; a commit of at most 7 characters is its own beginning.
unfoldable pub short : String → String → String
unfolding first_chars
short version commit = version <> (" (" <> (first_chars 7 commit <> ")"))

-- The argument is the main module's path, `none` where `ReadBuildInfo` has nothing.
unfoldable pub go_module : Option String → String
go_module none = ""
go_module (some path) = path
