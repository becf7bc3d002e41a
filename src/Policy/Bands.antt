-- ===== src/Policy/Bands.antt =====
-- The band table: lookup by frequency and by name.
use mathlib.Core.Path.{subst}
use antenna_guardian_pi_lite.Common.{
  ℕ, zero, suc, ◌+◌, ◌≤◌, ◌<◌, true, false, List, [], ◌∷◌, none, some, ◌≡◌, refl, sym, ◌∙◌, ◌↔◌,
  inl, inr, arith, leb, some_eq, All, Bool-cases, Option-cases, get_elem?, leb→le, &&_split,
}
use antenna_guardian_pi_lite.CString.{Text, strcasecmp_eq}
use antenna_guardian_pi_lite.CString.Case.{strcasecmp_eq_sym, strcasecmp_eq_trans}
use antenna_guardian_pi_lite.Floats.{Floats}
use antenna_guardian_pi_lite.Policy.{
  Band, bands, in_band, band_from, band_for_frequency, ag_band_name, name_of, index_from,
  ag_band_index,
}

-- The bands follow one another without overlap, all of them above m and below 1000 MHz.
abbrev Ascends : ℕ → List Band → Type 0
Ascends m [] = Unit
Ascends m (b ∷ bs) =
    (m < b.lower_mhz)
    × (b.lower_mhz ≤ b.upper_mhz)
    × (b.upper_mhz ≤ 1000000)
    × Ascends b.upper_mhz bs

bands-Ascends : Ascends 0 bands
bands-Ascends = omega arith

Ascends-get_elem? :
    (m : ℕ) (bs : List Band) (j : ℕ) {b : Band}
    → Ascends m bs
    → get_elem? bs j ≡ some b
    → (m < b.lower_mhz) × (b.lower_mhz ≤ 1000000)
Ascends-get_elem? m [] j a e = cc
Ascends-get_elem? m (c ∷ bs) zero a e = ground arith
Ascends-get_elem? m (c ∷ bs) (suc j) a e = ground (arith, Ascends-get_elem? c.upper_mhz bs j a.3 e)

module _ {D : Type 0} ⦃fp : Floats D⦄ where
  in_band_exclusive :
      (b c : Band) (f : D)
      → b.upper_mhz ≤ 1000000
      → (b.upper_mhz < c.lower_mhz) × (c.lower_mhz ≤ 1000000)
      → in_band b f ≡ true
      → in_band c f ≡ true
      → ⊥
  unfolding in_band
  in_band_exclusive b c f small lt hb hc =
      let below : fp.le f (fp.milli b.upper_mhz) ≡ true = (&&_split hb).1 in
      let above : fp.le (fp.milli c.lower_mhz) f ≡ true = (&&_split hc).0 in
      let order : leb c.lower_mhz b.upper_mhz ≡ true =
        sym (fp.le-milli c.lower_mhz b.upper_mhz lt.1 small) ∙ fp.le_trans _ _ _ above below in
      absurd (omega (arith, lt.0, leb→le c.lower_mhz b.upper_mhz order))

  band_from_sound :
      (k : ℕ) (bs : List Band) (f : D) {i : ℕ} {b : Band}
      → band_from k bs f ≡ some (i, b)
      → (j : ℕ) × (i ≡ k + j) × (get_elem? bs j ≡ some b) × (in_band b f ≡ true)
  unfolding band_from
  band_from_sound k [] f e = cc
  band_from_sound k (c ∷ bs) f e = elim (Bool-cases (in_band c f)) [
    | inl here ↦
        let e' = rw here at e in (0, ground (arith, e'), ground (arith, e'), ground (arith, e'))
    | inr later ↦
        let (j, p, q, r) = band_from_sound (suc k) bs f (rw later at e) in
        (suc j, omega arith, q, r)
  ]

  band_from_complete :
      (m k : ℕ) (bs : List Band) (j : ℕ) (f : D) {b : Band}
      → Ascends m bs
      → get_elem? bs j ≡ some b
      → in_band b f ≡ true
      → band_from k bs f ≡ some (k + j, b)
  unfolding band_from
  band_from_complete m k [] j f a e h = cc
  band_from_complete m k (c ∷ bs) zero f a e h = ground arith
  band_from_complete m k (c ∷ bs) (suc j) f {b} a e h = elim (Bool-cases (in_band c f)) [
    | inl here ↦
        absurd (in_band_exclusive c b f a.2 (Ascends-get_elem? c.upper_mhz bs j a.3 e) here h)
    | inr later ↦
        rw later (ground (arith, band_from_complete c.upper_mhz (suc k) bs j f {b = b} a.3 e h))
  ]

  -- The lookup by frequency returns an entry of the table exactly when the frequency lies within
  -- its inclusive bounds: it misses no band, and no frequency lies in two.
  pub band_for_frequency_iff :
      (f : D) (i : ℕ) (b : Band)
      → (band_for_frequency f ≡ some (i, b)) ↔ ((get_elem? bands i ≡ some b) × (in_band b f ≡ true))
  unfolding band_for_frequency
  band_for_frequency_iff f i b = (
    λ e.
        let (j, p, q, r) = band_from_sound 0 bands f e in
        let same : i ≡ j = omega (arith, p) in (rw same q, r),
    λ h.
        let start : 0 + i ≡ i = omega arith in
        rw start at (band_from_complete 0 0 bands i f bands-Ascends h.0 h.1),
  )

-- Every name differs from the later ones, whatever the case of the letters.
abbrev Differs : Text → Band → Type 0
Differs name b = strcasecmp_eq name b.name ≡ false

abbrev Distinct : List Band → Type 0
Distinct [] = Unit
Distinct (b ∷ bs) = All (Differs b.name) bs × Distinct bs

bands-Distinct : Distinct bands
unfolding strcasecmp_eq
bands-Distinct = ground arith

All-get_elem? :
    (P : Band → Type 0) (bs : List Band) (j : ℕ) {b : Band}
    → All P bs
    → get_elem? bs j ≡ some b
    → P b
All-get_elem? P [] j a e = cc
All-get_elem? P (c ∷ bs) zero a e = subst P (some_eq e) a.0
All-get_elem? P (c ∷ bs) (suc j) a e = All-get_elem? P bs j a.1 e

index_from_sound :
    (k : ℕ) (bs : List Band) (name : Text) {i : ℕ}
    → index_from k bs name ≡ some i
    → (j : ℕ) × (b : Band) × (i ≡ k + j)
      × (get_elem? bs j ≡ some b)
      × (strcasecmp_eq name b.name ≡ true)
unfolding index_from
index_from_sound k [] name e = cc
index_from_sound k (c ∷ bs) name e = elim (Bool-cases (strcasecmp_eq name c.name)) [
  | inl here ↦ let e' = rw here at e in (0, c, ground (arith, e'), refl, here)
  | inr later ↦
      let (j, b, p, q, r) = index_from_sound (suc k) bs name (rw later at e) in
      (suc j, b, omega arith, q, r)
]

index_from_complete :
    (k : ℕ) (bs : List Band) (j : ℕ) (name : Text) {b : Band}
    → Distinct bs
    → get_elem? bs j ≡ some b
    → strcasecmp_eq name b.name ≡ true
    → index_from k bs name ≡ some (k + j)
unfolding index_from
index_from_complete k [] j name d e h = cc
index_from_complete k (c ∷ bs) zero name {b} d e h =
    let found : strcasecmp_eq name c.name ≡ true = rw (some_eq e) h in
    let start : k + 0 ≡ k = omega arith in rw (found, start)
index_from_complete k (c ∷ bs) (suc j) name {b} d e h =
    elim (Bool-cases (strcasecmp_eq name c.name)) [
      | inl here ↦
          let clash = All-get_elem? (Differs c.name) bs j d.0 e in
          let same =
            strcasecmp_eq_trans c.name name b.name (strcasecmp_eq_sym name c.name here) h in
          cc
      | inr later ↦
          let shift : k + suc j ≡ suc k + j = omega arith in
          rw (later, shift, index_from_complete (suc k) bs j name d.1 e h)
    ]

-- A name has an index exactly when it is, up to the case of its letters, the name of the entry at
-- that index.
pub ag_band_index_iff :
    (name : Text) (i : ℕ)
    → (ag_band_index name ≡ some i)
      ↔ ((b : Band) × (get_elem? bands i ≡ some b) × (strcasecmp_eq name b.name ≡ true))
unfolding ag_band_index
ag_band_index_iff name i = (
  λ e.
      let (j, b, p, q, r) = index_from_sound 0 bands name e in
      let same : i ≡ j = omega (arith, p) in (b, rw same q, r),
  λ h.
      let start : 0 + i ≡ i = omega arith in
      rw start at (index_from_complete 0 bands i name bands-Distinct h.1 h.2),
)

-- ag_band_index undoes ag_band_name, whatever the case of the letters in which the name comes.
pub ag_band_index-name :
    (i : ℕ) (name other : Text)
    → ag_band_name i ≡ some name
    → strcasecmp_eq other name ≡ true
    → ag_band_index other ≡ some i
unfolding ag_band_name
ag_band_index-name i name other e h = elim (Option-cases (get_elem? bands i)) [
  | inl missing ↦ let e' : name_of none ≡ some name = rw missing at e in cc
  | inr (b, found) ↦
      let e' : name_of (some b) ≡ some name = rw found at e in
      (ag_band_index_iff other i).1
        (b, found, subst (λ n. strcasecmp_eq other n ≡ true) (sym (some_eq e')) h)
]
