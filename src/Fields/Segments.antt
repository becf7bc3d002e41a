-- ===== src/Fields/Segments.antt =====
-- The loop over a cursor finds the first segment between spaces that has the form `field=value`.
use antenna_guardian_pi_lite.Common.{
  ℕ, zero, suc, ◌-◌, ◌≤◌, ◌<◌, Bool, false, ◌&&◌, List, [], ◌∷◌, Option, none, some, ◌≡◌, refl, sym,
  ap, ◌∙◌, ◌⊎◌, inl, inr, arith, Bool-cases, ◌==◌, if◌then◌else◌, length, drop,
}
use antenna_guardian_pi_lite.CString.{Text, strlen, strcmp_eq, starts_with, before, strchr}
use antenna_guardian_pi_lite.Fields.{
  skip_spaces, token_end, names_field, store_at, field_loop, search_field,
}

-- Put a byte in front of the first segment.
abbrev pub onto_first : ℕ → List Text → List Text
onto_first c [] = (c ∷ []) ∷ []
onto_first c (w ∷ ws) = (c ∷ w) ∷ ws

-- The segments between spaces, empty ones among them.
unfoldable pub split_spaces : Text → List Text
split_spaces [] = [] ∷ []
split_spaces (c ∷ cs) = if c == b' ' then [] ∷ split_spaces cs else onto_first c (split_spaces cs)

-- A segment `field=...`, up to its first '='.
unfoldable pub has_key : Text → Option Text → Text → Bool
has_key field none w = false
has_key field (some equals) w = strcmp_eq (before b'=' w) field

-- The first segment with the key decides.
unfoldable pub find_segment : (Text → Option Text) → Text → List Text → Option Text
unfolding has_key
find_segment store field [] = none
find_segment store field (w ∷ ws) =
    if has_key field (strchr b'=' w) w
    then store_at store (strchr b'=' w)
    else find_segment store field ws

-- A field of the right length in front of the cursor is the text up to '='.
prefix_is_key :
    (b : ℕ) (s field : Text)
    → (length (before b s) == length field && starts_with field s) ≡ strcmp_eq (before b s) field
unfolding before starts_with strcmp_eq
prefix_is_key b [] [] = refl
prefix_is_key b [] (x ∷ xs) = ground arith
prefix_is_key b (c ∷ cs) [] = ground arith
prefix_is_key b (c ∷ cs) (x ∷ xs) = ground (arith, prefix_is_key b cs xs)

-- An '=' within the token is the first one from the cursor on.
before-token :
    (s : Text) {e : Text}
    → strchr b'=' (before b' ' s) ≡ some e
    → before b'=' (before b' ' s) ≡ before b'=' s
unfolding before strchr
before-token [] h = refl
before-token (c ∷ cs) {e} h = ground (arith, before-token cs {e = e})

names_field-has_key :
    (s field : Text) (found : Option Text)
    → strchr b'=' (before b' ' s) ≡ found
    → names_field s field found ≡ has_key field found (before b' ' s)
unfolding names_field has_key
names_field-has_key s field none h = refl
names_field-has_key s field (some e) h =
    prefix_is_key b'=' s field ∙ ap (λ w. strcmp_eq w field) (sym (before-token s h))

-- The segments behind the current token.
abbrev behind : Text → List Text
behind [] = []
behind (c ∷ cs) = split_spaces cs

split_spaces-token : (s : Text) → split_spaces s ≡ before b' ' s ∷ behind (token_end s)
unfolding split_spaces before token_end
split_spaces-token [] = refl
split_spaces-token (c ∷ cs) = ground (arith, split_spaces-token cs)

token_end-space : (s : Text) → (token_end s ≡ []) ⊎ ((cs : Text) × (token_end s ≡ b' ' ∷ cs))
unfolding token_end
token_end-space [] = inl refl
token_end-space (c ∷ cs) = elim (Bool-cases (c == b' ')) [
  | inl space ↦ inr (cs, ground (arith, space))
  | inr other ↦ rw other (token_end-space cs)
]

module _ (store : Text → Option Text) (field : Text) where
  find_segment-behind :
      (t : Text)
      → (t ≡ []) ⊎ ((cs : Text) × (t ≡ b' ' ∷ cs))
      → find_segment store field (behind t) ≡ find_segment store field (split_spaces t)
  unfolding find_segment split_spaces strchr
  find_segment-behind [] h = refl
  find_segment-behind (c ∷ cs) h = ground arith

  find_segment-skip :
      (s : Text)
      → find_segment store field (split_spaces (skip_spaces s))
        ≡ find_segment store field (split_spaces s)
  unfolding find_segment split_spaces strchr skip_spaces
  find_segment-skip [] = refl
  find_segment-skip (c ∷ cs) = elim (Bool-cases (c == b' ')) [
    | inl space ↦ rw space (find_segment-skip cs)
    | inr other ↦ rw other (rw other)
  ]

  -- One round of the loop, on the segments.
  find_segment-token :
      (s : Text)
      → find_segment store field (split_spaces s) ≡ (
          if names_field s field (strchr b'=' (before b' ' s))
          then store_at store (strchr b'=' (before b' ' s))
          else find_segment store field (split_spaces (token_end s)))
  unfolding find_segment
  find_segment-token s = ground (
    arith,
    split_spaces-token s,
    names_field-has_key s field (strchr b'=' (before b' ' s)) refl,
    find_segment-behind (token_end s) (token_end-space s),
  )

length-token_end : (s : Text) → length (token_end s) ≤ length s
unfolding token_end
length-token_end [] = omega arith
length-token_end (c ∷ cs) = ground (arith, length-token_end cs)

progress : (s : Text) → length (token_end (skip_spaces s)) ≤ length s - 1
unfolding token_end skip_spaces
progress [] = omega arith
progress (c ∷ cs) = ground (arith, progress cs, length-token_end cs)

field_loop-find_segment :
    (store : Text → Option Text) (fuel : ℕ) (s field : Text)
    → length s < fuel
    → field_loop store fuel s field ≡ find_segment store field (split_spaces s)
unfolding field_loop
field_loop-find_segment store zero s field h = elim h [ ]
field_loop-find_segment store (suc fuel) [] field h =
    unfold find_segment split_spaces strchr in refl
field_loop-find_segment store (suc fuel) (c ∷ cs) field h =
    let t = skip_spaces (c ∷ cs) in
    let rest =
      field_loop-find_segment store fuel (token_end t) field (omega (arith, progress (c ∷ cs))) in
    ground (arith, rest, find_segment-token store field t, find_segment-skip store field (c ∷ cs))

-- The search ends within its fuel, and its result is that of the first segment between spaces that
-- is the field's name, '=' and a value.
pub search_field-find_segment :
    (store : Text → Option Text) (payload field : Text)
    → search_field store payload field ≡ find_segment store field (split_spaces payload)
unfolding search_field
search_field-find_segment store payload field =
    field_loop-find_segment store (suc (strlen payload)) payload field (omega arith)

find_segment-stored :
    (store : Text → Option Text) (field : Text) (ws : List Text) {v : Text}
    → find_segment store field ws ≡ some v
    → (w : Text) × (store w ≡ some v)
unfolding find_segment
find_segment-stored store field [] h = cc
find_segment-stored store field (w ∷ ws) {v} h =
    elim (Bool-cases (has_key field (strchr b'=' w) w)) [
      | inl here ↦ stored (strchr b'=' w) (rw here at h)
      | inr later ↦ find_segment-stored store field ws (rw later at h)
    ]
  where
    stored : (found : Option Text) → store_at store found ≡ some v → (w : Text) × (store w ≡ some v)
    stored none e = unfold store_at in cc
    stored (some equals) e = (drop 1 equals, unfold store_at in e)

-- What the search returns is what `store` made of some value.
pub search_field-stored :
    (store : Text → Option Text) (payload field : Text) {v : Text}
    → search_field store payload field ≡ some v
    → (w : Text) × (store w ≡ some v)
search_field-stored store payload field h =
    find_segment-stored store field (split_spaces payload)
      (sym (search_field-find_segment store payload field) ∙ h)
