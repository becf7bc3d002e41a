-- ===== src/Main/Options.antt =====
-- The option loop of main in src/main.c, over the arguments behind argv[0].
pub mod Words
pub mod Classes
pub mod Meaning
use antenna_guardian_pi_lite.Common.{
  ℕ, Bool, true, false, ◌||◌, List, [], ◌∷◌, Option, none, some, if◌then◌else◌,
}
use antenna_guardian_pi_lite.CString.{Text, codes, strcmp_eq}

abbrev pub default_config : Text
default_config = codes "/etc/antennaguardian-pilite/config.json"

pub record Options : Type 0 where
  pub config_path : Text
  pub check_config : Bool
  pub observe_only : Bool
  pub once : Bool
  pub verbose : Bool

abbrev pub default_options : Options
default_options = record {
  config_path = default_config;
  check_config = false;
  observe_only = false;
  once = false;
  verbose = false;
}

-- The end of the loop, or a return from main within it.
pub data OptionsResult : Type 0 where
  read : Options → OptionsResult
  returns : ℕ → OptionsResult

unfoldable pub takes_path : Text → Bool
takes_path arg = strcmp_eq arg (codes "-c") || strcmp_eq arg (codes "--config")

-- The options without a value that let the loop go on.
unfoldable pub flag_option : Text → Options → Option Options
flag_option arg o =
    if strcmp_eq arg (codes "--check-config")
    then some (record o { check_config = true })
    else if strcmp_eq arg (codes "--observe")
    then some (record o { observe_only = true })
    else if strcmp_eq arg (codes "--once")
    then some (record o { once = true })
    else if strcmp_eq arg (codes "-v") || strcmp_eq arg (codes "--verbose")
    then some (record o { verbose = true })
    else none

-- The value that main returns for any other argument.
unfoldable pub other_option : Text → ℕ
other_option arg =
    if strcmp_eq arg (codes "--version")
    then 0
    else if strcmp_eq arg (codes "-h") || strcmp_eq arg (codes "--help")
    then 0
    else 2

unfoldable pub read_options : Options → List Text → OptionsResult
unfolding takes_path flag_option other_option
read_options o [] = read o
read_options o (arg ∷ []) = elim (flag_option arg o) [
  | none ↦ returns (other_option arg)
  | some o' ↦ read o'
]
read_options o (arg ∷ value ∷ args) =
    let with_path = read_options (record o { config_path = value }) args in
    if takes_path arg then with_path else elim (flag_option arg o) [
      | none ↦ returns (other_option arg)
      | some o' ↦ read_options o' (value ∷ args)
    ]
