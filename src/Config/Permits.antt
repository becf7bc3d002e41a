-- ===== src/Config/Permits.antt =====
-- From the file to the decision: what ag_policy_evaluate permits under a loaded configuration.
use antenna_guardian_pi_lite.Common.{
  ℕ, ◌<◌, Bool, true, false, List, [], ◌∷◌, some, ◌≡◌, ◌↔◌, refl, sym, subst, ◌∙◌, inl, inr, arith,
  Bool-cases, some_eq, get_elem?, All,
}
use antenna_guardian_pi_lite.CString.{Text, codes, strcasecmp_eq}
use antenna_guardian_pi_lite.Floats.{Floats}
use antenna_guardian_pi_lite.Config.{AntennaPolicy, Config, find_in, ag_config_find_antenna}
use antenna_guardian_pi_lite.Json.{Json}
use antenna_guardian_pi_lite.Policy.{
  Band, bands, is_missing, find_policy, in_band, ag_policy_evaluate,
}
use antenna_guardian_pi_lite.Policy.Decision.{ag_policy_evaluate-allowed}
use antenna_guardian_pi_lite.Config.Checks.{loaded}
use antenna_guardian_pi_lite.Config.Load.{load_root}
use antenna_guardian_pi_lite.Config.Granted.{grants, IsGranted, get_elem?-lt}
use antenna_guardian_pi_lite.Config.Valid.{load_root-IsFollowed}

find_in-All :
    (P : AntennaPolicy → Type 0) (antennas : List AntennaPolicy) (id : Text) {a : AntennaPolicy}
    → find_in antennas id ≡ some a
    → All P antennas
    → P a
unfolding find_in
find_in-All P [] id h all = cc
find_in-All P (b ∷ antennas) id {a} h all = elim (Bool-cases (strcasecmp_eq b.id id)) [
  | inl here ↦ let h' : some b ≡ some a = rw here at h in subst P (some_eq h') all.0
  | inr later ↦ find_in-All P antennas id (rw later at h) all.1
]

module _ {D J : Type 0} ⦃fp : Floats D⦄ (json : Json J) (valid_ipv4 : Text → Bool) where
  -- The file grants the band of the frequency to the antenna.
  pub record IsGrantedByFile (root : J) (c : Config) (f : D) (antenna : Text) : Type 0 where
    pub antenna_known : is_missing (some antenna) ≡ false
    pub index : ℕ
    pub band : Band
    pub listed : get_elem? bands index ≡ some band
    pub inside : in_band band f ≡ true
    pub row : AntennaPolicy
    pub configured : ag_config_find_antenna c antenna ≡ some row
    pub policy : J
    pub found : json.get_item_case_sensitive root (codes "policy") ≡ some policy
    pub granted : grants json policy row.id index ≡ true

  -- Under a configuration loaded from a root, a known frequency is permitted on an antenna exactly
  -- when it lies in some band of the table and the entry of the antenna in the file's policy object
  -- lists the name of that band.
  pub load_root-allowed :
      (root : J) (c : Config) (f : D) (antenna : Text)
      → load_root json valid_ipv4 root ≡ loaded c
      → ((ag_policy_evaluate c true f (some antenna)).allowed ≡ true)
        ↔ IsGrantedByFile root c f antenna
  unfolding find_policy ag_config_find_antenna
  load_root-allowed root c f antenna h =
      let followed = load_root-IsFollowed json valid_ipv4 root c h in
      let decision = ag_policy_evaluate-allowed c true f (some antenna) in
      (
        λ allowed.
            let p = decision.0 allowed in
            let row_granted =
              find_in-All (IsGranted json followed.policy) c.antennas antenna p.configured
                followed.granted in
            record {
              antenna_known = p.antenna_known;
              index = p.index;
              band = p.band;
              listed = p.listed;
              inside = p.inside;
              row = p.policy;
              configured = p.configured;
              policy = followed.policy;
              found = followed.found;
              granted = sym (row_granted.bits p.index (below p.listed)) ∙ p.bit_set;
            },
        λ g.
            let row_granted =
              find_in-All (IsGranted json followed.policy) c.antennas antenna g.configured
                followed.granted in
            let same : followed.policy ≡ g.policy = some_eq (sym followed.found ∙ g.found) in
            decision.1 (record {
              frequency_known = refl;
              antenna_known = g.antenna_known;
              index = g.index;
              band = g.band;
              policy = g.row;
              listed = g.listed;
              inside = g.inside;
              configured = g.configured;
              bit_set =
                  row_granted.bits g.index (below g.listed)
                  ∙ subst (λ n. grants json n g.row.id g.index ≡ true) (sym same) g.granted;
            }),
      )
    where
      below : {i : ℕ} {b : Band} → get_elem? bands i ≡ some b → i < 16
      below e = omega (arith, get_elem?-lt bands _ e)
