-- ===== src/CString/Case.antt =====
-- strcasecmp and strcmp: which strings they identify.
use antenna_guardian_pi_lite.Common.{true, [], ◌∷◌, ◌≡◌, refl, sym, ◌∙◌, ◌↔◌, map, arith, ==_iff}
use antenna_guardian_pi_lite.CString.{Text, strcmp_eq, tolower, strcasecmp_eq}

pub strcmp_eq_iff : (a b : Text) → (strcmp_eq a b ≡ true) ↔ (a ≡ b)
unfolding strcmp_eq
strcmp_eq_iff [] [] = ground arith
strcmp_eq_iff [] (y ∷ ys) = ground arith
strcmp_eq_iff (x ∷ xs) [] = ground arith
strcmp_eq_iff (x ∷ xs) (y ∷ ys) = ground (arith, strcmp_eq_iff xs ys)

-- strcasecmp identifies two strings exactly when they agree in lower case.
pub strcasecmp_eq_iff : (a b : Text) → (strcasecmp_eq a b ≡ true) ↔ (map tolower a ≡ map tolower b)
unfolding strcasecmp_eq
strcasecmp_eq_iff [] [] = ground arith
strcasecmp_eq_iff [] (y ∷ ys) = (λ h. cc, λ h. cc)
strcasecmp_eq_iff (x ∷ xs) [] = (λ h. cc, λ h. cc)
strcasecmp_eq_iff (x ∷ xs) (y ∷ ys) =
    ground (arith, strcasecmp_eq_iff xs ys, ==_iff (tolower x) (tolower y))

pub strcasecmp_eq_refl : (a : Text) → strcasecmp_eq a a ≡ true
strcasecmp_eq_refl a = (strcasecmp_eq_iff a a).1 refl

pub strcasecmp_eq_sym : (a b : Text) → strcasecmp_eq a b ≡ true → strcasecmp_eq b a ≡ true
strcasecmp_eq_sym a b h = (strcasecmp_eq_iff b a).1 (sym ((strcasecmp_eq_iff a b).0 h))

pub strcasecmp_eq_trans :
    (a b c : Text) → strcasecmp_eq a b ≡ true → strcasecmp_eq b c ≡ true → strcasecmp_eq a c ≡ true
strcasecmp_eq_trans a b c h k =
    (strcasecmp_eq_iff a c).1 ((strcasecmp_eq_iff a b).0 h ∙ (strcasecmp_eq_iff b c).0 k)

-- Strings that agree in lower case compare alike with every other string.
pub strcasecmp_eq_left :
    (a b c : Text) → strcasecmp_eq a b ≡ true → strcasecmp_eq c a ≡ strcasecmp_eq c b
strcasecmp_eq_left a b c h =
    ground (arith, strcasecmp_eq_trans c a b, strcasecmp_eq_trans c b a, strcasecmp_eq_sym a b)
