-- ===== src/Main/Options/Words.antt =====
-- A description of the command lines of src/main.c: the settings, and what a command line means.
use antenna_guardian_pi_lite.Common.{Bool, true, false, ◌||◌, List, [], ◌∷◌, ◌++◌, ◌≢◌, All}
use antenna_guardian_pi_lite.CString.{Text, codes}
use antenna_guardian_pi_lite.Main.Options.{Options, OptionsResult, read, returns}

-- What a user can set.
pub data Setting : Type 0 where
  file : Text → Setting
  check observe once verbose : Setting

-- The settings in their order, and the arguments that write them.
pub data Writes : List Setting → List Text → Type 0 where
  nothing : Writes [] []
  short_file :
      {path : Text} {settings : List Setting} {args : List Text}
      → Writes settings args
      → Writes (file path ∷ settings) (codes "-c" ∷ path ∷ args)
  long_file :
      {path : Text} {settings : List Setting} {args : List Text}
      → Writes settings args
      → Writes (file path ∷ settings) (codes "--config" ∷ path ∷ args)
  check_flag :
      {settings : List Setting} {args : List Text}
      → Writes settings args
      → Writes (check ∷ settings) (codes "--check-config" ∷ args)
  observe_flag :
      {settings : List Setting} {args : List Text}
      → Writes settings args
      → Writes (observe ∷ settings) (codes "--observe" ∷ args)
  once_flag :
      {settings : List Setting} {args : List Text}
      → Writes settings args
      → Writes (once ∷ settings) (codes "--once" ∷ args)
  short_verbose :
      {settings : List Setting} {args : List Text}
      → Writes settings args
      → Writes (verbose ∷ settings) (codes "-v" ∷ args)
  long_verbose :
      {settings : List Setting} {args : List Text}
      → Writes settings args
      → Writes (verbose ∷ settings) (codes "--verbose" ∷ args)

-- The last file that is set, or `path`.
abbrev pub last_file : Text → List Setting → Text
last_file path [] = path
last_file path (file other ∷ settings) = last_file other settings
last_file path (_ ∷ settings) = last_file path settings

abbrev pub asks : (Setting → Bool) → Bool → List Setting → Bool
asks test before [] = before
asks test before (s ∷ settings) = test s || asks test before settings

abbrev pub is_check : Setting → Bool
is_check check = true
is_check _ = false

abbrev pub is_observe : Setting → Bool
is_observe observe = true
is_observe _ = false

abbrev pub is_once : Setting → Bool
is_once once = true
is_once _ = false

abbrev pub is_verbose : Setting → Bool
is_verbose verbose = true
is_verbose _ = false

-- What is set from the options o on: each flag where it is asked for or was set before.
abbrev pub options_of : Options → List Setting → Options
options_of o settings = record {
  config_path = last_file o.config_path settings;
  check_config = asks is_check o.check_config settings;
  observe_only = asks is_observe o.observe_only settings;
  once = asks is_once o.once settings;
  verbose = asks is_verbose o.verbose settings;
}

-- The words that end the loop with success, and all words that main knows.
abbrev pub asks_for_text : List Text
asks_for_text = codes "--version" ∷ codes "-h" ∷ codes "--help" ∷ []

abbrev pub takes_file : List Text
takes_file = codes "-c" ∷ codes "--config" ∷ []

abbrev pub known : List Text
known =
    codes "--version"
    ∷ codes "-h"
    ∷ codes "--help"
    ∷ codes "-c"
    ∷ codes "--config"
    ∷ codes "--check-config"
    ∷ codes "--observe"
    ∷ codes "--once"
    ∷ codes "-v"
    ∷ codes "--verbose"
    ∷ []

pub data IsOneOf (word : Text) : List Text → Type 0 where
  first_one : {words : List Text} → IsOneOf word (word ∷ words)
  later_one : {other : Text} {words : List Text} → IsOneOf word words → IsOneOf word (other ∷ words)

-- What a command line means from the options o on: it only writes settings, or what follows its
-- settings is a word that asks for a text, an unknown word, or a word without its file.
pub data Means (o : Options) : List Text → OptionsResult → Type 0 where
  all_settings :
      (settings : List Setting) (args : List Text)
      → Writes settings args
      → Means o args (read (options_of o settings))
  text_asked :
      (settings : List Setting) (args : List Text) (word : Text) (behind : List Text)
      → Writes settings args
      → IsOneOf word asks_for_text
      → Means o (args ++ word ∷ behind) (returns 0)
  unknown_word :
      (settings : List Setting) (args : List Text) (word : Text) (behind : List Text)
      → Writes settings args
      → All (λ k. word ≢ k) known
      → Means o (args ++ word ∷ behind) (returns 2)
  file_missing :
      (settings : List Setting) (args : List Text) (word : Text)
      → Writes settings args
      → IsOneOf word takes_file
      → Means o (args ++ word ∷ []) (returns 2)
