-- ===== src/Programs/Version.antt =====
-- The version (internal/version/version.go). The variables that the linker sets are an argument.
use Prim.Native.String.{String, ◌++◌ as ◌<>◌}

pub record Info : Type 0 where
  pub version : String
  pub git_commit : String
  pub build_date : String

-- What the variables are if the linker does not set them.
abbrev pub unset : Info
unset = record { version = "dev"; git_commit = "unknown"; build_date = "unknown" }

unfoldable pub get : Info → Info
get vars = record {
  version = vars.version;
  git_commit = vars.git_commit;
  build_date = vars.build_date;
}

-- `Info.String`
unfoldable pub info_text : Info → String
info_text i =
    "goshield " <> i.version <> " (commit: " <> i.git_commit <> ", built: " <> i.build_date <> ")"
