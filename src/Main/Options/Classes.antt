-- ===== src/Main/Options/Classes.antt =====
-- One argument of the option loop of src/main.c by itself.
use antenna_guardian_pi_lite.Common.{
  Bool, true, false, List, [], ◌∷◌, none, some, ◌≡◌, ◌≢◌, refl, sym, subst, arith, inl, inr, All,
  Bool-cases,
}
use antenna_guardian_pi_lite.CString.{Text, codes, strcmp_eq}
use antenna_guardian_pi_lite.CString.Case.{strcmp_eq_iff}
use antenna_guardian_pi_lite.Main.Options.{Options, takes_path, flag_option, other_option}
use antenna_guardian_pi_lite.Main.Options.Words.{
  Setting, check, observe, once, verbose, Writes, check_flag, observe_flag, once_flag,
  short_verbose, long_verbose, asks, is_check, is_observe, is_once, is_verbose, options_of,
  asks_for_text, takes_file, known, IsOneOf, first_one, later_one,
}

asks-true : (test : Setting → Bool) (settings : List Setting) → asks test true settings ≡ true
asks-true test [] = refl
asks-true test (s ∷ settings) = ground (arith, asks-true test settings)

-- What is said of one argument by itself.
pub data Classified (arg : Text) : Type 0 where
  a_file :
      IsOneOf arg takes_file
      → takes_path arg ≡ true
      → ((o : Options) → flag_option arg o ≡ none)
      → other_option arg ≡ 2
      → Classified arg
  a_flag :
      (s : Setting) (set : Options → Options)
      → takes_path arg ≡ false
      → ((o : Options) → flag_option arg o ≡ some (set o))
      → ((settings : List Setting) (args : List Text)
          → Writes settings args
          → Writes (s ∷ settings) (arg ∷ args))
      → ((o : Options) (settings : List Setting)
          → options_of (set o) settings ≡ options_of o (s ∷ settings))
      → Classified arg
  a_text :
      IsOneOf arg asks_for_text
      → takes_path arg ≡ false
      → ((o : Options) → flag_option arg o ≡ none)
      → other_option arg ≡ 0
      → Classified arg
  no_word :
      All (λ k. arg ≢ k) known
      → takes_path arg ≡ false
      → ((o : Options) → flag_option arg o ≡ none)
      → other_option arg ≡ 2
      → Classified arg

or_else :
    (arg k : Text) → Classified k → (strcmp_eq arg k ≡ false → Classified arg) → Classified arg
or_else arg k c h = elim (Bool-cases (strcmp_eq arg k)) [
  | inl same ↦ subst Classified (sym ((strcmp_eq_iff arg k).0 same)) c
  | inr other ↦ h other
]

differs : (arg k : Text) → strcmp_eq arg k ≡ false → arg ≢ k
differs arg k h e = let same = (strcmp_eq_iff arg k).1 e in cc

a_check : Classified (codes "--check-config")
unfolding takes_path flag_option strcmp_eq
a_check =
    a_flag check (λ o. record o { check_config = true }) refl (λ o. refl)
      (λ settings args w. check_flag w) (λ o settings. rw (asks-true is_check settings) refl)

an_observe : Classified (codes "--observe")
unfolding takes_path flag_option strcmp_eq
an_observe =
    a_flag observe (λ o. record o { observe_only = true }) refl (λ o. refl)
      (λ settings args w. observe_flag w) (λ o settings. rw (asks-true is_observe settings) refl)

a_once : Classified (codes "--once")
unfolding takes_path flag_option strcmp_eq
a_once =
    a_flag once (λ o. record o { once = true }) refl (λ o. refl) (λ settings args w. once_flag w)
      (λ o settings. rw (asks-true is_once settings) refl)

a_verbose : Classified (codes "-v") × Classified (codes "--verbose")
unfolding takes_path flag_option strcmp_eq
a_verbose = (
  a_flag verbose (λ o. record o { verbose = true }) refl (λ o. refl)
      (λ settings args w. short_verbose w) (λ o settings. rw (asks-true is_verbose settings) refl),
  a_flag verbose (λ o. record o { verbose = true }) refl (λ o. refl)
      (λ settings args w. long_verbose w) (λ o settings. rw (asks-true is_verbose settings) refl),
)

with_file : Classified (codes "-c") × Classified (codes "--config")
unfolding takes_path flag_option other_option strcmp_eq
with_file =
    (a_file first_one refl (λ o. refl) refl, a_file (later_one first_one) refl (λ o. refl) refl)

for_text : Classified (codes "--version") × Classified (codes "-h") × Classified (codes "--help")
unfolding takes_path flag_option other_option strcmp_eq
for_text = (
  a_text first_one refl (λ o. refl) refl,
  a_text (later_one first_one) refl (λ o. refl) refl,
  a_text (later_one (later_one first_one)) refl (λ o. refl) refl,
)

pub classify : (arg : Text) → Classified arg
unfolding takes_path flag_option other_option
classify arg = or_else arg (codes "--version") for_text.0 (λ n1.
    or_else arg (codes "-h") for_text.1 (λ n2. or_else arg (codes "--help") for_text.2 (λ n3.
      or_else arg (codes "-c") with_file.0 (λ n4. or_else arg (codes "--config") with_file.1 (λ n5.
        or_else arg (codes "--check-config") a_check (λ n6.
          or_else arg (codes "--observe") an_observe (λ n7.
            or_else arg (codes "--once") a_once (λ n8. or_else arg (codes "-v") a_verbose.0 (λ n9.
              or_else arg (codes "--verbose") a_verbose.1 (λ n10.
                no_word
                  (
                    differs arg _ n1,
                    (
                      differs arg _ n2,
                      (
                        differs arg _ n3,
                        (
                          differs arg _ n4,
                          (
                            differs arg _ n5,
                            (
                              differs arg _ n6,
                              (
                                differs arg _ n7,
                                (differs arg _ n8, (differs arg _ n9, (differs arg _ n10, tt))),
                              ),
                            ),
                          ),
                        ),
                      ),
                    ),
                  )
                  (rw (n4, n5) refl) (λ o. rw (n6, n7, n8, n9, n10) refl)
                  (rw (n1, n2, n3) refl)))))))))))
