-- ===== src/CString.antt =====
-- C strings: a string is the list of its bytes up to the terminating NUL, which is not in the list.
-- The functions of <string.h>, <strings.h> and <ctype.h> that src/*.c calls, in the "C" locale, which
-- the program never leaves. A comparison is the Boolean "the C function returned 0".
pub mod Case
pub mod Numbers
pub mod Printed
use Prim.Native.Char.{code}
use Prim.Native.String.{String}
use antenna_guardian_pi_lite.Common.{
  ℕ, zero, suc, ◌+◌, Bool, true, false, ◌&&◌, ◌||◌, List, [], ◌∷◌, Option, none, some, leb, ◌==◌,
  if◌then◌else◌, length, take,
}

abbrev pub Text : Type 0
Text = List ℕ

-- The bytes of a string literal.
abbrev pub codes : String → Text
codes String.[] = []
codes (String.◌∷◌ c s) = code c ∷ codes s

abbrev pub strlen : Text → ℕ
strlen = length

-- s[0] == '\0'
abbrev pub is_empty : Text → Bool
is_empty [] = true
is_empty (c ∷ cs) = false

unfoldable pub strcmp_eq : Text → Text → Bool
strcmp_eq [] [] = true
strcmp_eq (x ∷ xs) (y ∷ ys) = x == y && strcmp_eq xs ys
strcmp_eq _ _ = false

abbrev pub within : ℕ → ℕ → ℕ → Bool
within lo hi c = leb lo c && leb c hi

unfoldable pub tolower : ℕ → ℕ
tolower c = if within b'A' b'Z' c then c + 32 else c

unfoldable pub strcasecmp_eq : Text → Text → Bool
unfolding tolower
strcasecmp_eq [] [] = true
strcasecmp_eq (x ∷ xs) (y ∷ ys) = tolower x == tolower y && strcasecmp_eq xs ys
strcasecmp_eq _ _ = false

unfoldable pub isalnum : ℕ → Bool
isalnum c = within b'0' b'9' c || within b'A' b'Z' c || within b'a' b'z' c

-- strncmp(s, prefix, strlen(prefix)) == 0
unfoldable pub starts_with : Text → Text → Bool
starts_with [] s = true
starts_with (p ∷ ps) [] = false
starts_with (p ∷ ps) (c ∷ cs) = p == c && starts_with ps cs

-- The part before the first byte `b`: its length is what memchr or strcspn finds.
unfoldable pub before : ℕ → Text → Text
before b [] = []
before b (c ∷ cs) = if c == b then [] else c ∷ before b cs

-- The part that starts at the first byte `b`: the pointer that strchr or memchr returns.
unfoldable pub strchr : ℕ → Text → Option Text
strchr b [] = none
strchr b (c ∷ cs) = if c == b then some (c ∷ cs) else strchr b cs

-- snprintf(buffer, size, "%s", s) stores at most size - 1 bytes.
abbrev pub bounded : ℕ → Text → Text
bounded zero s = []
bounded (suc n) s = take n s
