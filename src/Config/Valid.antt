-- ===== src/Config/Valid.antt =====
-- ag_config_load: what a loaded configuration obeys, whatever the file holds.
use antenna_guardian_pi_lite.Common.{
  suc, ◌≤◌, Bool, true, List, [], ◌∷◌, some, ◌≡◌, refl, sym, ap, subst, ◌∙◌, length, All,
}
use antenna_guardian_pi_lite.CString.{Text, codes}
use antenna_guardian_pi_lite.Config.{AntennaPolicy, Config, max_antennas}
use antenna_guardian_pi_lite.Json.{Json}
use antenna_guardian_pi_lite.Config.Checks.{loaded, valid_antenna_id}
use antenna_guardian_pi_lite.Config.Load.{FileEnv, empty_config, load_root, ag_config_load}
use antenna_guardian_pi_lite.Config.Yields.{Yields, any-Yields, bind-Yields}
use antenna_guardian_pi_lite.Config.Selected.{IsSelection, IsTimed, Selects, parse_radio-Yields}
use antenna_guardian_pi_lite.Config.Listed.{ids_of, AreDistinct, parse_antennas-Yields}
use antenna_guardian_pi_lite.Config.Granted.{IsGranted, parse_policy-Yields}

-- What the other parts of the program may rely on.
pub record IsValid (valid_ipv4 : Text → Bool) (c : Config) : Type 0 where
  pub selection : IsSelection valid_ipv4 c.radio_mode c.host c.radio_serial c.discovery_ip
  pub timed : IsTimed c
  pub count : (1 ≤ length c.antennas) × (length c.antennas ≤ max_antennas)
  pub ids_valid : All (λ id. valid_antenna_id id ≡ true) (ids_of c.antennas)
  pub ids_distinct : AreDistinct (ids_of c.antennas)

length-ids : (xs ys : List AntennaPolicy) → ids_of xs ≡ ids_of ys → length xs ≡ length ys
length-ids xs ys e = sym (length-map xs) ∙ ap length e ∙ length-map ys
  where
    length-map : (xs : List AntennaPolicy) → length (ids_of xs) ≡ length xs
    length-map [] = refl
    length-map (a ∷ xs) = ap suc (length-map xs)

module _ {J : Type 0} (json : Json J) (valid_ipv4 : Text → Bool) where
  -- The policy object of the root, whose entries are the bits of all antennas.
  pub record IsFollowed (root : J) (c : Config) : Type 0 where
    pub policy : J
    pub found : json.get_item_case_sensitive root (codes "policy") ≡ some policy
    pub granted : All (IsGranted json policy) c.antennas

  load_root-Yields :
      (root : J)
      → Yields (load_root json valid_ipv4 root) (λ c. IsValid valid_ipv4 c × IsFollowed root c)
  unfolding load_root
  load_root-Yields root = bind-Yields _ _ (any-Yields _) (λ keys _.
      bind-Yields _ _ (parse_radio-Yields json valid_ipv4 root empty_config) (λ radio r.
        let (selected, timed, no_antennas) = r in
        bind-Yields _ _ (parse_antennas-Yields json root radio no_antennas) (λ c a.
          let (fresh, count, same) = a in
          let y = parse_policy-Yields json root c fresh.no_bands in
          record {
            holds = λ d h.
                let (ids, rest, (policy, found, granted)) = y.holds d h in
                (
                  record {
                    selection =
                        subst (Selects json valid_ipv4) (sym rest)
                          (subst (Selects json valid_ipv4) (sym same) selected);
                    timed = subst IsTimed (sym rest) (subst IsTimed (sym same) timed);
                    count =
                        subst (λ n. (1 ≤ n) × (n ≤ max_antennas)) (sym (length-ids _ _ ids)) count;
                    ids_valid =
                        subst (All (λ id. valid_antenna_id id ≡ true)) (sym ids) fresh.valid;
                    ids_distinct = subst AreDistinct (sym ids) fresh.distinct;
                  },
                  record { policy = policy; found = found; granted = granted },
                );
          })))

  -- Whatever the file holds and whatever the parser makes of it: a configuration that ag_config_load
  -- accepts selects the radio in one way, by a valid host or by a valid serial or address, has its
  -- port and its delays in their ranges, the maximal delay not below the initial one, and has one to
  -- eight antennas with valid ids that differ even in lower case.
  pub ag_config_load-IsValid :
      {F : Type 0} (files : FileEnv F) (path : Text) (c : Config)
      → ag_config_load json valid_ipv4 files path ≡ loaded c
      → IsValid valid_ipv4 c
  unfolding ag_config_load
  ag_config_load-IsValid files path c =
      let y : Yields (ag_config_load json valid_ipv4 files path) (IsValid valid_ipv4) =
        bind-Yields _ _ (any-Yields _) (λ contents _.
          bind-Yields _ _ (any-Yields _)
            (λ root _. record { holds = λ d h. ((load_root-Yields root).holds d h).0 })) in
      y.holds c

  -- A configuration that load_root accepts follows the policy object of the root: the bits of every
  -- antenna are the bands that its entry lists, by names in any letter case.
  pub load_root-IsFollowed :
      (root : J) (c : Config) → load_root json valid_ipv4 root ≡ loaded c → IsFollowed root c
  load_root-IsFollowed root c h = ((load_root-Yields root).holds c h).1
