-- ===== src/Config/Antennas.antt =====
-- parse_antennas and parse_policy of src/config.c.
use Prim.Native.Nat.{bit_or}
use antenna_guardian_pi_lite.Common.{
  ℕ, ◌%◌, ◌^◌, Bool, true, false, not, ◌||◌, List, [], ◌∷◌, ◌++◌, Option, none, some, ltb,
  if◌then◌else◌,
}
use antenna_guardian_pi_lite.CString.{Text, codes, strcasecmp_eq}
use antenna_guardian_pi_lite.Config.{AntennaPolicy, Config, max_antennas, ag_config_find_antenna}
use antenna_guardian_pi_lite.Json.{Json, holds_of, is_null}
use antenna_guardian_pi_lite.Policy.{ag_band_index, has_band}
use antenna_guardian_pi_lite.Config.Checks.{
  interlock_section, interlock_not_object, bad_antenna_count, bad_antenna_id, duplicate_antenna,
  policy_not_object, unlisted_antenna, duplicate_policy, policy_not_array, unknown_band,
  duplicate_band, Loaded, failed, loaded, ◌>>=◌, ◌>>◌, reject_if, valid_antenna_id, object_of,
  repeats, reject_unknown_keys,
}

-- The loop over the antennas before this one.
unfoldable pub is_listed : List AntennaPolicy → Text → Bool
is_listed [] id = false
is_listed (a ∷ antennas) id =
    let later = is_listed antennas id in if strcasecmp_eq a.id id then true else later

-- antenna->allowed_bands |= flag, with flag = (uint16_t)(1u << index)
unfoldable pub add_band : ℕ → ℕ → ℕ
add_band allowed_bands index = bit_or allowed_bands (2 ^ index % 2 ^ 16)

abbrev pub some_children : {J : Type 0} → (J → List J) → Option J → List J
some_children children none = []
some_children children (some j) = children j

module _ {J : Type 0} (json : Json J) where
  -- The loop of parse_antennas; `antennas` are those before this item.
  unfoldable pub add_antennas : List AntennaPolicy → List J → Loaded (List AntennaPolicy)
  unfolding reject_if is_listed
  add_antennas antennas [] = loaded antennas
  add_antennas antennas (item ∷ items) = do
    let id = json.valuestring item
    let rest = add_antennas (antennas ++ record { id = id; allowed_bands = 0 } ∷ []) items
    reject_if (not (json.is_string item) || not (valid_antenna_id id)) bad_antenna_id
    reject_if (is_listed antennas id) (duplicate_antenna id)
    rest

  unfoldable pub parse_antennas : J → Config → Loaded Config
  unfolding object_of reject_unknown_keys add_antennas
  parse_antennas root config = do
    interlock ←
        object_of json interlock_not_object (json.get_item_case_sensitive root (codes "interlock"))
    reject_unknown_keys json interlock interlock_section (codes "antennas" ∷ [])
    let antennas = json.get_item_case_sensitive interlock (codes "antennas")
    let size = json.array_size antennas
    reject_if (not (holds_of json.is_array antennas) || (ltb size 1 || ltb max_antennas size))
        bad_antenna_count
    listed ← add_antennas config.antennas (some_children json.children antennas)
    loaded (record config { antennas = listed })

  -- The first loop of parse_policy, over the entries.
  unfoldable pub check_entries : Config → List J → Loaded (Unit {0})
  unfolding reject_if repeats ag_config_find_antenna
  check_entries config [] = loaded tt
  check_entries config (entry ∷ entries) =
      let rest = check_entries config entries in
      elim (json.name entry) [
        | none ↦ failed (unlisted_antenna none)
        | some id ↦ do
          reject_if (is_null (ag_config_find_antenna config id)) (unlisted_antenna (some id))
          reject_if (repeats json strcasecmp_eq id entries) (duplicate_policy id)
          rest
      ]

  -- ag_band_index of an item, which must be a string.
  unfoldable pub band_of : J → Option ℕ
  unfolding ag_band_index
  band_of item = if json.is_string item then ag_band_index (json.valuestring item) else none

  -- The loop over the bands of one antenna.
  unfoldable pub add_bands : AntennaPolicy → List J → Loaded AntennaPolicy
  unfolding band_of has_band add_band reject_if
  add_bands antenna [] = loaded antenna
  add_bands antenna (item ∷ items) = elim (band_of item) [
    | none ↦ failed (unknown_band antenna.id)
    | some index ↦ do
      reject_if (has_band antenna.allowed_bands index)
          (duplicate_band antenna.id (json.valuestring item))
      add_bands (record antenna { allowed_bands = add_band antenna.allowed_bands index }) items
  ]

  unfoldable pub antenna_bands : J → AntennaPolicy → Loaded AntennaPolicy
  unfolding reject_if add_bands
  antenna_bands policy antenna = do
    let entry = json.get_item policy antenna.id
    reject_if (not (holds_of json.is_array entry)) (policy_not_array antenna.id)
    add_bands antenna (some_children json.children entry)

  -- The second loop of parse_policy, over the antennas.
  unfoldable pub all_bands : J → List AntennaPolicy → Loaded (List AntennaPolicy)
  unfolding antenna_bands
  all_bands policy [] = loaded []
  all_bands policy (antenna ∷ antennas) = do
    done ← antenna_bands policy antenna
    rest ← all_bands policy antennas
    loaded (done ∷ rest)

  unfoldable pub parse_policy : J → Config → Loaded Config
  unfolding object_of check_entries all_bands
  parse_policy root config = do
    policy ← object_of json policy_not_object (json.get_item_case_sensitive root (codes "policy"))
    check_entries config (json.children policy)
    antennas ← all_bands policy config.antennas
    loaded (record config { antennas = antennas })
