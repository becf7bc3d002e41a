-- ===== src/Main/Options/Meaning.antt =====
-- The option loop of main in src/main.c, against the description of its command lines.
use antenna_guardian_pi_lite.Common.{List, [], ◌∷◌, ◌++◌, ◌≡◌, refl, sym, subst}
use mathlib.Core.List.{append_assoc}
use antenna_guardian_pi_lite.CString.{Text}
use antenna_guardian_pi_lite.Main.Options.{Options, OptionsResult, read, returns, read_options}
use antenna_guardian_pi_lite.Main.Options.Words.{
  Setting, file, Writes, nothing, short_file, long_file, options_of, takes_file, IsOneOf, first_one,
  later_one, Means, all_settings, text_asked, unknown_word, file_missing,
}
use antenna_guardian_pi_lite.Main.Options.Classes.{a_file, a_flag, a_text, no_word, classify}

-- Settings in front of a command line, in the arguments `words`.
module _ (o o' : Options) (s : Setting) (words : List Text)
    (written : (settings : List Setting) (args : List Text)
      → Writes settings args
      → Writes (s ∷ settings) (words ++ args))
    (set : (settings : List Setting) → options_of o' settings ≡ options_of o (s ∷ settings)) where
  Means-cons :
      {args : List Text} {result : OptionsResult}
      → Means o' args result
      → Means o (words ++ args) result
  Means-cons (all_settings settings args w) =
      subst (λ p. Means o (words ++ args) (read p)) (sym (set settings))
        (all_settings (s ∷ settings) (words ++ args) (written settings args w))
  Means-cons (text_asked settings args word behind w h) =
      subst (λ t. Means o t (returns 0)) (append_assoc words args (word ∷ behind))
        (text_asked (s ∷ settings) (words ++ args) word behind (written settings args w) h)
  Means-cons (unknown_word settings args word behind w h) =
      subst (λ t. Means o t (returns 2)) (append_assoc words args (word ∷ behind))
        (unknown_word (s ∷ settings) (words ++ args) word behind (written settings args w) h)
  Means-cons (file_missing settings args word w h) =
      subst (λ t. Means o t (returns 2)) (append_assoc words args (word ∷ []))
        (file_missing (s ∷ settings) (words ++ args) word (written settings args w) h)

file_written :
    (path arg : Text)
    → IsOneOf arg takes_file
    → (settings : List Setting) (args : List Text) → Writes settings args
    → Writes (file path ∷ settings) (arg ∷ path ∷ args)
file_written path arg first_one settings args w = short_file w
file_written path arg (later_one first_one) settings args w = long_file w
file_written path arg (later_one (later_one nowhere)) settings args w = elim nowhere [ ]

-- For every command line, from any options on: what the option loop of main makes of it is what it
-- means. It reads the settings, the last file and every flag that is asked for; main returns 0 at the
-- first word that asks for a text, and 2 at a word that it does not know or a `-c` or `--config` with
-- nothing behind it.
pub read_options-Means : (o : Options) (args : List Text) → Means o args (read_options o args)
unfolding read_options
read_options-Means o [] = all_settings [] [] nothing
read_options-Means o (arg ∷ []) = elim (classify arg) [
  | a_file one path flag other ↦
      rw (read_options, flag o, other) (file_missing [] [] arg nothing one)
  | a_flag s set path flag written set_is ↦
      rw (read_options, flag o)
        (Means-cons o (set o) s (arg ∷ []) written (set_is o) (all_settings [] [] nothing))
  | a_text one path flag other ↦
      rw (read_options, flag o, other) (text_asked [] [] arg [] nothing one)
  | no_word none_of path flag other ↦
      rw (read_options, flag o, other) (unknown_word [] [] arg [] nothing none_of)
]
read_options-Means o (arg ∷ value ∷ args) = elim (classify arg) [
  | a_file one path flag other ↦
      rw (read_options, path)
        (Means-cons o (record o { config_path = value }) (file value) (arg ∷ value ∷ [])
          (file_written value arg one) (λ settings. refl)
          (read_options-Means (record o { config_path = value }) args))
  | a_flag s set path flag written set_is ↦
      rw (read_options, path, flag o)
        (Means-cons o (set o) s (arg ∷ []) written (set_is o)
          (read_options-Means (set o) (value ∷ args)))
  | a_text one path flag other ↦
      rw (read_options, path, flag o, other) (text_asked [] [] arg (value ∷ args) nothing one)
  | no_word none_of path flag other ↦
      rw (read_options, path, flag o, other) (unknown_word [] [] arg (value ∷ args) nothing none_of)
]
