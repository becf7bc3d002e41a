-- ===== src/Tests/Decisions.antt =====
-- Decisions and band lookups of the test station.
use antenna_guardian_pi_lite.Common.{ℕ, Bool, true, false, none, some, ◌≡◌, refl, ◌↔◌, get_elem?}
use antenna_guardian_pi_lite.CString.{codes, strcasecmp_eq}
use antenna_guardian_pi_lite.Config.{ag_config_find_antenna}
use antenna_guardian_pi_lite.Policy.{
  Band, bands, in_band, allowed, unknown_frequency, unknown_antenna, outside_known_bands,
  combination_blocked, is_missing, find_policy, policy_allows, band_for_frequency, ag_band_name,
  ag_band_index, ag_policy_evaluate,
}
use antenna_guardian_pi_lite.Policy.Bands.{
  band_for_frequency_iff, ag_band_index_iff, ag_band_index-name,
}
use antenna_guardian_pi_lite.Policy.Decision.{
  IsPermitted, ag_policy_evaluate-allowed, ag_policy_evaluate-reason,
}
use antenna_guardian_pi_lite.Tests.Setup.{milli_floats, station}

-- The checks of tests/test_core.c at the edges of 20m, and an antenna in other letter case.
edges :
    ((ag_policy_evaluate {D = ℕ} station true 14350 (some (codes "ant2"))).reason ≡ allowed)
    × ((ag_policy_evaluate {D = ℕ} station true 14351 (some (codes "ANT2"))).reason
        ≡ outside_known_bands)
    × ((ag_policy_evaluate {D = ℕ} station true 7074 (some (codes "ANT2"))).reason
        ≡ combination_blocked)
unfolding ag_policy_evaluate is_missing find_policy ag_config_find_antenna strcasecmp_eq
    policy_allows band_for_frequency
edges = (refl, refl, refl)

ag_policy_evaluate-allowed_example :
    ((ag_policy_evaluate {D = ℕ} station true 14074 (some (codes "ANT1"))).allowed ≡ true)
    ↔ IsPermitted {D = ℕ} station true 14074 (some (codes "ANT1"))
ag_policy_evaluate-allowed_example =
    ag_policy_evaluate-allowed station true 14074 (some (codes "ANT1"))

ag_policy_evaluate-reason_example :
    let d = ag_policy_evaluate {D = ℕ} station true 144200 (some (codes "ANT1")) in
    ((d.reason ≡ allowed) ↔ (d.allowed ≡ true))
    × ((d.reason ≡ unknown_frequency) ↔ (◌≡◌ {A = Bool} true false))
    × ((d.reason ≡ unknown_antenna)
        ↔ ((◌≡◌ {A = Bool} true true) × (is_missing (some (codes "ANT1")) ≡ true)))
    × ((d.reason ≡ outside_known_bands) ↔ (
        (◌≡◌ {A = Bool} true true)
        × (is_missing (some (codes "ANT1")) ≡ false)
        × (band_for_frequency {D = ℕ} 144200 ≡ none)))
ag_policy_evaluate-reason_example =
    ag_policy_evaluate-reason station true 144200 (some (codes "ANT1"))

abbrev band_30m : Band
band_30m = record { name = codes "30m"; lower_mhz = 10100; upper_mhz = 10150 }

band_for_frequency_iff_example :
    (band_for_frequency {D = ℕ} 10150 ≡ some (4, band_30m))
    ↔ ((get_elem? bands 4 ≡ some band_30m) × (in_band {D = ℕ} band_30m 10150 ≡ true))
band_for_frequency_iff_example = band_for_frequency_iff 10150 4 band_30m

ag_band_index_iff_example :
    (ag_band_index (codes "30M") ≡ some 4)
    ↔ ((b : Band) × (get_elem? bands 4 ≡ some b) × (strcasecmp_eq (codes "30M") b.name ≡ true))
ag_band_index_iff_example = ag_band_index_iff (codes "30M") 4

ag_band_index-name_example : ag_band_index (codes "30M") ≡ some 4
unfolding ag_band_name strcasecmp_eq
ag_band_index-name_example = ag_band_index-name 4 (codes "30m") (codes "30M") refl refl
