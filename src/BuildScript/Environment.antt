-- ===== src/BuildScript/Environment.antt =====
-- What `main` of build.rs prints for Cargo, and the variables that the crate is compiled with.
use terracotta_ffi.Base.{
  ◌≡◌, refl, Bool, true, false, ◌||◌, List, [], ◌∷◌, ◌++◌, Option, none, some, map, All, Text,
  codes, text_eq,
}

-- `env::var("CARGO_PKG_VERSION")`, or a snapshot.
abbrev package_version : Option Text → Text
package_version none = codes "snapshot"
package_version (some version) = version

-- The variables that `set_environment` sets.
unfoldable pub version_variables : Option Text → Text → List (Text × Text)
version_variables version easytier_version =
    (codes "TERRACOTTA_VERSION", package_version version)
    ∷ (codes "TERRACOTTA_ET_VERSION", easytier_version)
    ∷ []

-- The variables that `download_easytier` sets, with the paths of its three files.
unfoldable pub easytier_variables : Text → Text → Text → List (Text × Text)
easytier_variables entry_conf cli_conf entry_archive =
    (codes "TERRACOTTA_ET_ENTRY_CONF", entry_conf)
    ∷ (codes "TERRACOTTA_ET_CLI_CONF", cli_conf)
    ∷ (codes "TERRACOTTA_ET_ARCHIVE", entry_archive)
    ∷ []

unfoldable pub variable_line : Text × Text → Text
variable_line (name, value) = codes "cargo::rustc-env=" ++ (name ++ b'=' ∷ value)

-- The lines of a build that does not panic.
unfoldable pub main_lines : Option Text → Text → Text → Text → Text → List Text
main_lines version easytier_version entry_conf cli_conf entry_archive =
    codes "cargo::rerun-if-changed=Cargo.toml"
    ∷ codes "cargo::rerun-if-changed=.easytier"
    ∷ (map variable_line (easytier_variables entry_conf cli_conf entry_archive)
        ++ map variable_line (version_variables version easytier_version))

-- The variables that `env!` reads in src/lib.rs and src/easytier/process.rs.
abbrev pub read_variables : List Text
read_variables =
    codes "TERRACOTTA_VERSION"
    ∷ codes "TERRACOTTA_ET_VERSION"
    ∷ codes "TERRACOTTA_ET_ENTRY_CONF"
    ∷ codes "TERRACOTTA_ET_CLI_CONF"
    ∷ codes "TERRACOTTA_ET_ARCHIVE"
    ∷ []

abbrev sets : Text → List (Text × Text) → Bool
sets name [] = false
sets name (x ∷ xs) = text_eq name x.0 || sets name xs

-- Every variable that the crate reads is one that the build script sets.
pub main_lines-read :
    (version : Option Text) (easytier_version entry_conf cli_conf entry_archive : Text)
    → All
        (λ name.
          sets name (
            easytier_variables entry_conf cli_conf entry_archive
            ++ version_variables version easytier_version)
          ≡ true)
        read_variables
unfolding easytier_variables version_variables
main_lines-read version easytier_version entry_conf cli_conf entry_archive =
    (refl, (refl, (refl, (refl, (refl, tt)))))
