-- ===== src/Policy.antt =====
-- src/policy.c: the band table, the lookup of a band by name and by frequency, and the decision.
-- An index of -1 is none.
pub mod Bands
pub mod Decision
use Prim.Native.Nat.{bit_and}
use antenna_guardian_pi_lite.Common.{
  ℕ, suc, ◌%◌, ◌^◌, Bool, true, false, not, ◌&&◌, List, [], ◌∷◌, Option, none, some, ◌==◌,
  if◌then◌else◌, length, get_elem?,
}
use antenna_guardian_pi_lite.CString.{Text, codes, is_empty, strcasecmp_eq}
use antenna_guardian_pi_lite.Config.{AntennaPolicy, Config, ag_config_find_antenna}
use antenna_guardian_pi_lite.Floats.{Floats}

-- The bounds are the literals of the table, in thousandths.
pub record Band : Type 0 where
  pub name : Text
  pub lower_mhz : ℕ
  pub upper_mhz : ℕ

abbrev row : Text → ℕ → ℕ → Band
row name lower upper = record { name = name; lower_mhz = lower; upper_mhz = upper }

abbrev pub bands : List Band
bands =
    row (codes "160m") 1800 2000
    ∷ row (codes "80m") 3500 4000
    ∷ row (codes "60m") 5250 5450
    ∷ row (codes "40m") 7000 7300
    ∷ row (codes "30m") 10100 10150
    ∷ row (codes "20m") 14000 14350
    ∷ row (codes "17m") 18068 18168
    ∷ row (codes "15m") 21000 21450
    ∷ row (codes "12m") 24890 24990
    ∷ row (codes "10m") 28000 29700
    ∷ row (codes "6m") 50000 54000
    ∷ []

unfoldable pub ag_band_count : ℕ
ag_band_count = length bands

name_of : Option Band → Option Text
name_of none = none
name_of (some b) = some b.name

unfoldable pub ag_band_name : ℕ → Option Text
unfolding name_of
ag_band_name index = name_of (get_elem? bands index)

-- The loop of ag_band_index from `index` on.
unfoldable pub index_from : ℕ → List Band → Text → Option ℕ
index_from index [] name = none
index_from index (b ∷ bs) name =
    let later = index_from (suc index) bs name in
    if strcasecmp_eq name b.name then some index else later

unfoldable pub ag_band_index : Text → Option ℕ
unfolding index_from
ag_band_index name = index_from 0 bands name

pub data DecisionReason : Type 0 where
  allowed unknown_frequency unknown_antenna outside_known_bands combination_blocked : DecisionReason

pub record PolicyDecision : Type 0 where
  pub allowed : Bool
  pub reason : DecisionReason
  pub band : Text

abbrev pub blocked : DecisionReason → Text → PolicyDecision
blocked reason name = record { allowed = false; reason = reason; band = name }

-- (policy->allowed_bands & (uint16_t)(1u << index)) != 0u
unfoldable pub has_band : ℕ → ℕ → Bool
has_band allowed_bands index = not (bit_and allowed_bands (2 ^ index % 2 ^ 16) == 0)

unfoldable pub policy_allows : Option AntennaPolicy → ℕ → Bool
unfolding has_band
policy_allows none index = false
policy_allows (some policy) index = has_band policy.allowed_bands index

-- antenna == NULL || antenna[0] == '\0'
unfoldable pub is_missing : Option Text → Bool
is_missing none = true
is_missing (some antenna) = is_empty antenna

unfoldable pub find_policy : Config → Option Text → Option AntennaPolicy
find_policy config none = none
find_policy config (some antenna) = ag_config_find_antenna config antenna

-- What ag_policy_evaluate does once the band is looked up.
unfoldable pub decide_in_band : Config → Option Text → Option (ℕ × Band) → PolicyDecision
decide_in_band config antenna none = blocked outside_known_bands (codes "Unknown")
decide_in_band config antenna (some (index, b)) =
    if policy_allows (find_policy config antenna) index
    then record { allowed = true; reason = allowed; band = b.name }
    else blocked combination_blocked b.name

module _ {D : Type 0} ⦃fp : Floats D⦄ where
  unfoldable pub in_band : Band → D → Bool
  in_band b frequency_mhz =
      fp.le (fp.milli b.lower_mhz) frequency_mhz && fp.le frequency_mhz (fp.milli b.upper_mhz)

  -- The loop of band_for_frequency from `index` on; the band is passed on with its index.
  unfoldable pub band_from : ℕ → List Band → D → Option (ℕ × Band)
  unfolding in_band
  band_from index [] frequency_mhz = none
  band_from index (b ∷ bs) frequency_mhz =
      let later = band_from (suc index) bs frequency_mhz in
      if in_band b frequency_mhz then some (index, b) else later

  unfoldable pub band_for_frequency : D → Option (ℕ × Band)
  unfolding band_from
  band_for_frequency frequency_mhz = band_from 0 bands frequency_mhz

  unfoldable pub ag_policy_evaluate : Config → Bool → D → Option Text → PolicyDecision
  unfolding decide_in_band
  ag_policy_evaluate config has_frequency frequency_mhz antenna =
      if not has_frequency
      then blocked unknown_frequency (codes "Unknown")
      else if is_missing antenna
      then blocked unknown_antenna (codes "Unknown")
      else decide_in_band config antenna (band_for_frequency frequency_mhz)
