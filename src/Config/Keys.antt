-- ===== src/Config/Keys.antt =====
-- reject_unknown_keys of src/config.c: which objects it accepts.
use antenna_guardian_pi_lite.Common.{
  Bool, true, false, not, List, [], ◌∷◌, Option, none, some, ◌≡◌, refl, ◌↔◌, ◌⊎◌, arith, All,
}
use antenna_guardian_pi_lite.CString.{Text, strcmp_eq}
use antenna_guardian_pi_lite.CString.Case.{strcmp_eq_iff}
use antenna_guardian_pi_lite.Json.{Json}
use antenna_guardian_pi_lite.Config.Checks.{
  Section, ConfigError, unknown_key, duplicate_key, Loaded, failed, loaded, ◌>>=◌, ◌>>◌, reject_if,
  key_is_allowed, repeats, reject_items, reject_unknown_keys,
}

abbrev pub Among : Text → List Text → Type 0
Among key [] = ⊥
Among key (k ∷ keys) = (key ≡ k) ⊎ Among key keys

-- No key twice.
abbrev pub Distinct : List Text → Type 0
Distinct [] = Unit
Distinct (k ∷ keys) = (¬ Among k keys) × Distinct keys

key_is_allowed_iff :
    (key : Text) (allowed : List Text) → (key_is_allowed key allowed ≡ true) ↔ Among key allowed
unfolding key_is_allowed
key_is_allowed_iff key [] = (λ e. cc, λ e. elim e [ ])
key_is_allowed_iff key (a ∷ allowed) =
    ground (arith, strcmp_eq_iff key a, key_is_allowed_iff key allowed)

passed :
    {B : Type 0} (bad : Bool) (e : ConfigError) (f : Unit {0} → Loaded B) {b : B}
    → (reject_if bad e >>= f) ≡ loaded b
    → (bad ≡ false) × (f tt ≡ loaded b)
unfolding reject_if ◌>>=◌
passed true e f h = cc
passed false e f h = (refl, h)

module _ {J : Type 0} (json : Json J) where
  -- Every item has a name; these are the names.
  pub data Named : List J → List Text → Type 0 where
    no_items : Named [] []
    an_item :
        {item : J} {items : List J} {key : Text} {keys : List Text}
        → json.name item ≡ some key
        → Named items keys
        → Named (item ∷ items) (key ∷ keys)

  repeats_iff :
      (key : Text) {items : List J} {keys : List Text}
      → Named items keys
      → (repeats json strcmp_eq key items ≡ true) ↔ Among key keys
  unfolding repeats
  repeats_iff key no_items = (λ e. cc, λ e. elim e [ ])
  repeats_iff key (an_item {key = k} e n) =
      let later = repeats_iff key n in rw (repeats, e) (ground (arith, strcmp_eq_iff key k, later))

  -- The items are named by these allowed and distinct keys.
  pub record IsKeyed (allowed : List Text) (items : List J) : Type 0 where
    pub keys : List Text
    pub named : Named items keys
    pub are_allowed : All (λ key. Among key allowed) keys
    pub distinct : Distinct keys

  more :
      {allowed : List Text} {item : J} {items : List J} (key : Text)
      → json.name item ≡ some key
      → key_is_allowed key allowed ≡ true
      → repeats json strcmp_eq key items ≡ false
      → IsKeyed allowed items
      → IsKeyed allowed (item ∷ items)
  more {allowed} key e a r k = record {
    keys = key ∷ k.keys;
    named = an_item e k.named;
    are_allowed = ((key_is_allowed_iff key allowed).0 a, k.are_allowed);
    distinct =
        ((λ again. absurd (ground (arith, r, (repeats_iff key k.named).1 again))), k.distinct);
  }

  reject_items-IsKeyed :
      (section : Section) (allowed : List Text) (items : List J)
      → reject_items json section allowed items ≡ loaded tt
      → IsKeyed allowed items
  unfolding reject_items
  reject_items-IsKeyed section allowed [] h = record {
    keys = [];
    named = no_items;
    are_allowed = tt;
    distinct = tt;
  }
  reject_items-IsKeyed section allowed (item ∷ items) h =
      of_name (json.name item) refl (reject_items-IsKeyed section allowed items) h
    where
      of_name :
          (found : Option Text)
          → json.name item ≡ found
          → (reject_items json section allowed items ≡ loaded tt → IsKeyed allowed items)
          → (elim found [
            | none ↦ failed (unknown_key section none)
            | some key ↦ do
              reject_if (not (key_is_allowed key allowed)) (unknown_key section (some key))
              reject_if (repeats json strcmp_eq key items) (duplicate_key section key)
              reject_items json section allowed items
          ])
            ≡ loaded tt
          → IsKeyed allowed (item ∷ items)
      of_name none e later h = cc
      of_name (some key) e later h =
          let (a, h') = passed _ _ _ h in
          let (r, h'') = passed _ _ _ h' in more key e (ground (arith, a)) r (later h'')

  Named-loaded :
      (section : Section) (allowed : List Text) {items : List J} {keys : List Text}
      → Named items keys
      → All (λ key. Among key allowed) keys
      → Distinct keys
      → reject_items json section allowed items ≡ loaded tt
  unfolding reject_items reject_if ◌>>=◌
  Named-loaded section allowed no_items a d = refl
  Named-loaded section allowed (an_item {items = items} {key = key} e n) a d =
      let fine : key_is_allowed key allowed ≡ true = (key_is_allowed_iff key allowed).1 a.0 in
      let once : repeats json strcmp_eq key items ≡ false =
        ground (arith, d.0, (repeats_iff key n).0) in
      rw (reject_items, e, fine, once) (Named-loaded section allowed n a.1 d.1)

  -- reject_unknown_keys accepts an object exactly when all its items have names, each name is one of
  -- the allowed ones, and no two names are equal; names that differ in letter case are not.
  pub reject_unknown_keys_iff :
      (object : J) (section : Section) (allowed : List Text)
      → (reject_unknown_keys json object section allowed ≡ loaded tt)
        ↔ IsKeyed allowed (json.children object)
  unfolding reject_unknown_keys
  reject_unknown_keys_iff object section allowed = (
    reject_items-IsKeyed section allowed (json.children object),
    λ k. Named-loaded section allowed k.named k.are_allowed k.distinct,
  )
