-- ===== src/Config/Granted.antt =====
-- parse_policy: the bits of an antenna are the bands that its entry lists.
use antenna_guardian_pi_lite.Common.{
  ℕ, zero, suc, ◌<◌, Bool, true, false, ◌||◌, List, [], ◌∷◌, Option, none, some, ◌≡◌, refl, ◌∙◌,
  inl, inr, arith, Bool-cases, ◌==◌, length, get_elem?, All,
}
use antenna_guardian_pi_lite.CString.{Text, codes}
use antenna_guardian_pi_lite.Config.{AntennaPolicy, Config}
use antenna_guardian_pi_lite.Json.{Json, holds_of}
use antenna_guardian_pi_lite.Policy.{bands, has_band}
use antenna_guardian_pi_lite.Policy.Bands.{ag_band_index_iff}
use antenna_guardian_pi_lite.Config.Checks.{failed, ◌>>◌, reject_if, unknown_band, duplicate_band}
use antenna_guardian_pi_lite.Config.Antennas.{
  add_band, some_children, band_of, add_bands, antenna_bands, all_bands, parse_policy,
}
use antenna_guardian_pi_lite.Config.Bands.{has_band-add_band, has_band-zero}
use antenna_guardian_pi_lite.Config.Yields.{
  Yields, any-Yields, object_of-Yields, failed-Yields, loaded-Yields, bind-Yields, guard-Yields,
}
use antenna_guardian_pi_lite.Config.Listed.{ids_of}

pub get_elem?-lt :
    {A : Type 0} (xs : List A) (i : ℕ) {a : A} → get_elem? xs i ≡ some a → i < length xs
get_elem?-lt [] i h = cc
get_elem?-lt (x ∷ xs) zero h = omega arith
get_elem?-lt (x ∷ xs) (suc i) h = omega (arith, get_elem?-lt xs i h)

abbrev names_band : Option ℕ → ℕ → Bool
names_band none j = false
names_band (some i) j = i == j

module _ {J : Type 0} (json : Json J) where
  -- Some item is the name of the band at index j.
  unfoldable pub lists_band : List J → ℕ → Bool
  lists_band [] j = false
  lists_band (item ∷ items) j = names_band (band_of json item) j || lists_band items j

  band_of-lt : (item : J) {i : ℕ} → band_of json item ≡ some i → i < 16
  unfolding band_of
  band_of-lt item {i} h = elim (Bool-cases (json.is_string item)) [
    | inl text ↦
        let named = (ag_band_index_iff (json.valuestring item) i).0 (rw text at h) in
        omega (arith, get_elem?-lt bands i named.1)
    | inr other ↦ absurd (ground (arith, other))
  ]

  -- The antenna keeps its id, and has the bits it had and those of the items.
  abbrev Adds : AntennaPolicy → List J → AntennaPolicy → Type 0
  Adds antenna items r =
      (r.id ≡ antenna.id)
      × ((j : ℕ)
          → j < 16
          → has_band r.allowed_bands j ≡ (has_band antenna.allowed_bands j || lists_band items j))

  add_bands-Yields :
      (antenna : AntennaPolicy) (items : List J)
      → Yields (add_bands json antenna items) (Adds antenna items)
  unfolding add_bands lists_band
  add_bands-Yields antenna [] = loaded-Yields (refl, (λ j h. ground arith))
  add_bands-Yields antenna (item ∷ items) = with_band (band_of json item) refl (λ i.
      add_bands-Yields (record antenna { allowed_bands = add_band antenna.allowed_bands i }) items)
    where
      with_band :
          (found : Option ℕ)
          → band_of json item ≡ found
          → ((i : ℕ)
              → let after = record antenna { allowed_bands = add_band antenna.allowed_bands i } in
                Yields (add_bands json after items) (Adds after items))
          → Yields
              (elim found [
                | none ↦ failed (unknown_band antenna.id)
                | some index ↦
                    reject_if
                      (has_band antenna.allowed_bands index)
                      (duplicate_band antenna.id (json.valuestring item))
                    >> add_bands json
                        (record antenna { allowed_bands = add_band antenna.allowed_bands index })
                        items
              ])
              (Adds antenna (item ∷ items))
      with_band none e rest = failed-Yields _ _
      with_band (some i) e rest = guard-Yields _ _ _ (λ new. record {
        holds = λ r h.
            let (same, bits) = (rest i).holds r h in
            (
              same,
              (λ j k.
                  rw
                    (bits j k, has_band-add_band antenna.allowed_bands i j (band_of-lt item e) k, e)
                    (ground arith)),
            );
      })

  -- The entry of the policy for an antenna, as cJSON_GetObjectItem finds it, lists the band.
  unfoldable pub grants : J → Text → ℕ → Bool
  unfolding lists_band
  grants policy id j = lists_band (some_children json.children (json.get_item policy id)) j

  -- The bits of an antenna are the bands that the policy grants to it.
  pub record IsGranted (policy : J) (a : AntennaPolicy) : Type 0 where
    pub has_entry : holds_of json.is_array (json.get_item policy a.id) ≡ true
    pub bits : (j : ℕ) → j < 16 → has_band a.allowed_bands j ≡ grants policy a.id j

  antenna_bands-Yields :
      (policy : J) (antenna : AntennaPolicy)
      → antenna.allowed_bands ≡ 0
      → Yields (antenna_bands json policy antenna) (λ r. (r.id ≡ antenna.id) × IsGranted policy r)
  unfolding antenna_bands grants
  antenna_bands-Yields policy antenna fresh =
      let entry = json.get_item policy antenna.id in
      guard-Yields _ _ _ (λ listed.
        let y = add_bands-Yields antenna (some_children json.children entry) in
        record {
          holds = λ r h.
              let (same, bits) = y.holds r h in
              (
                same,
                record {
                  has_entry = rw same (ground (arith, listed));
                  bits = λ j k. rw same (bits j k ∙ rw (fresh, has_band-zero j k) refl);
                },
              );
        })

  all_bands-Yields :
      (policy : J) (antennas : List AntennaPolicy)
      → All (λ a. a.allowed_bands ≡ 0) antennas
      → Yields
          (all_bands json policy antennas)
          (λ r. (ids_of r ≡ ids_of antennas) × All (IsGranted policy) r)
  unfolding all_bands
  all_bands-Yields policy [] fresh = loaded-Yields (refl, tt)
  all_bands-Yields policy (a ∷ antennas) fresh =
      bind-Yields _ _ (antenna_bands-Yields policy a fresh.0) (λ done d.
        bind-Yields _ _ (all_bands-Yields policy antennas fresh.1)
          (λ rest r. loaded-Yields (cc, (d.1, r.1))))

  pub parse_policy-Yields :
      (root : J) (c : Config)
      → All (λ a. a.allowed_bands ≡ 0) c.antennas
      → Yields (parse_policy json root c) (λ d.
        (ids_of d.antennas ≡ ids_of c.antennas)
        × (d ≡ record c { antennas = d.antennas })
        × ((policy : J) × (json.get_item_case_sensitive root (codes "policy") ≡ some policy)
            × All (IsGranted policy) d.antennas))
  unfolding parse_policy
  parse_policy-Yields root c fresh = bind-Yields _ _ (object_of-Yields json _ _) (λ policy found.
      bind-Yields _ _ (any-Yields _) (λ checked _.
        bind-Yields _ _ (all_bands-Yields policy c.antennas fresh)
          (λ antennas h. loaded-Yields (h.0, refl, (policy, found, h.1)))))
