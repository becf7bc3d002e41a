-- ===== src/Policy/Decision.antt =====
-- ag_policy_evaluate: when it permits, and what each reason means.
use mathlib.Core.Path.{subst}
use antenna_guardian_pi_lite.Common.{
  ℕ, Bool, true, false, Option, none, some, ◌≡◌, refl, ◌↔◌, sym, inl, inr, arith, Bool-cases,
  Option-cases, get_elem?,
}
use antenna_guardian_pi_lite.CString.{Text}
use antenna_guardian_pi_lite.Config.{AntennaPolicy, Config}
use antenna_guardian_pi_lite.Floats.{Floats}
use antenna_guardian_pi_lite.Policy.{
  Band, bands, allowed, unknown_frequency, unknown_antenna, outside_known_bands, has_band,
  policy_allows, is_missing, find_policy, in_band, band_for_frequency, decide_in_band,
  ag_policy_evaluate,
}
use antenna_guardian_pi_lite.Policy.Bands.{band_for_frequency_iff}

module _ {D : Type 0} ⦃fp : Floats D⦄ where
  -- The frequency is known and lies in a band of the table, and the row of the known antenna has
  -- the bit of that band.
  pub record IsPermitted (config : Config) (known : Bool) (f : D) (antenna : Option Text)
      : Type 0 where
    pub frequency_known : known ≡ true
    pub antenna_known : is_missing antenna ≡ false
    pub index : ℕ
    pub band : Band
    pub policy : AntennaPolicy
    pub listed : get_elem? bands index ≡ some band
    pub inside : in_band band f ≡ true
    pub configured : find_policy config antenna ≡ some policy
    pub bit_set : has_band policy.allowed_bands index ≡ true

  decide_in_band-IsPermitted :
      (config : Config) (f : D) (antenna : Option Text)
      → is_missing antenna ≡ false
      → (decide_in_band config antenna (band_for_frequency f)).allowed ≡ true
      → IsPermitted config true f antenna
  unfolding decide_in_band policy_allows
  decide_in_band-IsPermitted config f antenna present h =
      elim (Option-cases (band_for_frequency f)) [
        | inl outside ↦ absurd (ground (arith, outside))
        | inr ((index, band), found) ↦ elim (Option-cases (find_policy config antenna)) [
          | inl unlisted ↦ absurd (ground (arith, found, unlisted))
          | inr (policy, listed) ↦
              let located = (band_for_frequency_iff f index band).0 found in
              record {
                frequency_known = refl;
                antenna_known = present;
                index = index;
                band = band;
                policy = policy;
                listed = located.0;
                inside = located.1;
                configured = listed;
                bit_set = ground (arith, found, listed);
              }
        ]
      ]

  -- The evaluation permits transmission exactly when the frequency and the antenna are known, the
  -- frequency lies in some band of the table, and the configured row of the antenna has the bit of
  -- that band.
  pub ag_policy_evaluate-allowed :
      (config : Config) (known : Bool) (f : D) (antenna : Option Text)
      → ((ag_policy_evaluate config known f antenna).allowed ≡ true)
        ↔ IsPermitted config known f antenna
  unfolding ag_policy_evaluate
  ag_policy_evaluate-allowed config known f antenna = (
    λ h. elim (Bool-cases known) [
      | inl k ↦ elim (Bool-cases (is_missing antenna)) [
        | inl absent ↦ absurd (ground (arith, k, absent))
        | inr present ↦
            subst (λ b. IsPermitted config b f antenna) (sym k)
              (decide_in_band-IsPermitted config f antenna present (ground (arith, k, present)))
      ]
      | inr k ↦ absurd (ground (arith, k))
    ],
    λ p.
        let found = (band_for_frequency_iff f p.index p.band).1 (p.listed, p.inside) in
        rw (p.frequency_known, p.antenna_known, found)
          (unfold decide_in_band policy_allows in rw (p.configured, p.bit_set)),
  )

  -- The reason tells the cases apart: it is `allowed` exactly when the decision permits, an unknown
  -- frequency comes before an unknown antenna, and that before a frequency that no band holds.
  pub ag_policy_evaluate-reason :
      (config : Config) (known : Bool) (f : D) (antenna : Option Text)
      → let d = ag_policy_evaluate config known f antenna in
        ((d.reason ≡ allowed) ↔ (d.allowed ≡ true))
        × ((d.reason ≡ unknown_frequency) ↔ (known ≡ false))
        × ((d.reason ≡ unknown_antenna) ↔ ((known ≡ true) × (is_missing antenna ≡ true)))
        × ((d.reason ≡ outside_known_bands)
            ↔ ((known ≡ true) × (is_missing antenna ≡ false) × (band_for_frequency f ≡ none)))
  unfolding ag_policy_evaluate decide_in_band
  ag_policy_evaluate-reason config known f antenna = ground arith
