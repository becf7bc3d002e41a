-- ===== src/Config/Selected.antt =====
-- parse_radio: what the radio section of a loaded configuration obeys.
use antenna_guardian_pi_lite.Common.{
  ℕ, ◌≤◌, Bool, true, false, not, ◌&&◌, ◌||◌, [], ◌∷◌, Option, none, some, ◌≡◌, ◌≢◌, refl, List,
  ◌∙◌, arith,
}
use antenna_guardian_pi_lite.CString.{Text, is_empty, codes}
use antenna_guardian_pi_lite.Config.{
  Config, AntennaPolicy, radio_direct, radio_discovery, RadioMode,
}
use antenna_guardian_pi_lite.Json.{Json, is_null}
use antenna_guardian_pi_lite.Config.Checks.{
  Loaded, valid_host, valid_radio_serial, bad_host, bad_serial, bad_discovery_ip,
}
use antenna_guardian_pi_lite.Config.Radio.{
  mode_of, default_max, valid_discovery_ip, parse_selectors, parse_settings, parse_radio,
}
use antenna_guardian_pi_lite.Config.Yields.{
  Yields, any-Yields, loaded-Yields, bind-Yields, guard-Yields, text_field-Yields,
  number_field-Yields,
}

-- One way to find the radio: a host, or a serial or an address or both.
unfoldable pub IsSelection : (Text → Bool) → RadioMode → Text → Text → Text → Type 0
unfolding valid_host valid_radio_serial valid_discovery_ip
IsSelection valid_ipv4 radio_direct host serial ip =
    (valid_host host ≡ true) × (serial ≡ []) × (ip ≡ [])
IsSelection valid_ipv4 radio_discovery host serial ip =
    (host ≡ [])
    × ((is_empty serial ≡ false → valid_radio_serial serial ≡ true)
        × (is_empty ip ≡ false → valid_discovery_ip valid_ipv4 ip ≡ true)
        × ((is_empty serial && not (valid_discovery_ip valid_ipv4 ip)) ≡ false))

-- The ports and delays that the rest of the program computes with.
pub record IsTiming (port initial most log : ℕ) : Type 0 where
  pub port_range : (1 ≤ port) × (port ≤ 65535)
  pub initial_range : (1 ≤ initial) × (initial ≤ 300)
  pub max_range : (initial ≤ most) × (most ≤ 3600)
  pub log_range : (1 ≤ log) × (log ≤ 86400)

abbrev pub IsTimed : Config → Type 0
IsTimed c = IsTiming c.port c.reconnect_seconds c.reconnect_max_seconds c.reconnect_log_seconds

valid_radio_serial-empty : (s : Text) → valid_radio_serial s ≡ true → is_empty s ≡ false
unfolding valid_radio_serial
valid_radio_serial-empty [] h = cc
valid_radio_serial-empty (c ∷ s) h = refl

default_max-range : (n : ℕ) → (1 ≤ n) × (n ≤ 300) → (1 ≤ default_max n) × (default_max n ≤ 3600)
unfolding default_max
default_max-range n h = ground arith

-- What text_field says of a text.
abbrev Field : (Text → Bool) → Bool → Text → Type 0
Field valid null t = (null ≡ true → t ≡ []) × (null ≡ false → valid t ≡ true)

Field-valid :
    (valid : Text → Bool) (null : Bool) (t : Text)
    → Field valid null t
    → is_empty t ≡ false
    → valid t ≡ true
Field-valid valid true [] f h = cc
Field-valid valid true (c ∷ t) f h = absurd (nonempty (f.0 refl))
  where
    nonempty : c ∷ t ≢ []
    nonempty e = cc
Field-valid valid false t f h = f.1 refl

module _ {J : Type 0} (json : Json J) (valid_ipv4 : Text → Bool) where
  abbrev pub Selects : Config → Type 0
  Selects c = IsSelection valid_ipv4 c.radio_mode c.host c.radio_serial c.discovery_ip

  selection :
      (host serial ip : Option J) (h s i : Text)
      → (is_null host && (is_null serial && is_null ip)) ≡ false
      → (not (is_null host) && (not (is_null serial) || not (is_null ip))) ≡ false
      → (is_null host ≡ true → h ≡ []) × (is_null host ≡ false → valid_host h ≡ true)
      → (is_null serial ≡ true → s ≡ []) × (is_null serial ≡ false → valid_radio_serial s ≡ true)
      → (is_null ip ≡ true → i ≡ []) × (is_null ip ≡ false → valid_discovery_ip valid_ipv4 i ≡ true)
      → IsSelection valid_ipv4 (mode_of host) h s i
  unfolding IsSelection mode_of
  selection none none none h s i one none_else th ts ti = cc
  selection none (some serial) ip h s i one none_else th ts ti = (
    th.0 refl,
    (
      Field-valid valid_radio_serial false s ts,
      Field-valid (valid_discovery_ip valid_ipv4) (is_null ip) i ti,
      rw (valid_radio_serial-empty s (ts.1 refl)) refl,
    ),
  )
  selection none none (some ip) h s i one none_else th ts ti = (
    th.0 refl,
    (
      Field-valid valid_radio_serial true s ts,
      Field-valid (valid_discovery_ip valid_ipv4) false i ti,
      ground (arith, ti.1 refl),
    ),
  )
  selection (some host) none none h s i one none_else th ts ti = (th.1 refl, ts.0 refl, ti.0 refl)
  selection (some host) (some serial) ip h s i one none_else th ts ti = cc
  selection (some host) none (some ip) h s i one none_else th ts ti = cc

  parse_selectors-Yields :
      (radio : J) (c : Config)
      → Yields
          (parse_selectors json valid_ipv4 radio c)
          (λ d. Selects d × (d.antennas ≡ c.antennas))
  unfolding parse_selectors
  parse_selectors-Yields radio c =
      let host = json.get_item_case_sensitive radio (codes "host") in
      let serial = json.get_item_case_sensitive radio (codes "serial") in
      let ip = json.get_item_case_sensitive radio (codes "discovery_ip") in
      guard-Yields _ _ _ (λ one. guard-Yields _ _ _ (λ none_else.
        bind-Yields _ _ (text_field-Yields json valid_host bad_host host) (λ h th.
          bind-Yields _ _ (text_field-Yields json valid_radio_serial bad_serial serial) (λ s ts.
            bind-Yields _ _
              (text_field-Yields json (valid_discovery_ip valid_ipv4) bad_discovery_ip ip)
              (λ i ti.
                loaded-Yields (selection host serial ip h s i one none_else th ts ti, refl))))))

  parse_settings-Yields :
      (radio : J) (c : Config)
      → Selects c
      → Yields
          (parse_settings json valid_ipv4 radio c)
          (λ d. Selects d × IsTimed d × (d.antennas ≡ c.antennas))
  unfolding parse_settings IsSelection
  parse_settings-Yields radio c sel =
      bind-Yields _ _ (number_field-Yields json 16 65535 4992 _ _ (omega arith) (omega arith))
        (λ port p.
          bind-Yields _ _ (number_field-Yields json 32 300 3 _ _ (omega arith) (omega arith))
            (λ seconds s.
              bind-Yields _ _
                (number_field-Yields json 32 3600 (default_max seconds) _ _ (omega arith)
                  (default_max-range seconds s))
                (λ most m. guard-Yields _ _ _ (λ ordered. guard-Yields _ _ _ (λ direct.
                  bind-Yields _ _
                    (number_field-Yields json 32 86400 300 _ _ (omega arith) (omega arith))
                    (λ log l. loaded-Yields (
                      sel,
                      record {
                        port_range = p;
                        initial_range = s;
                        max_range = (ground (arith, ordered), m.1);
                        log_range = l;
                      },
                      refl,
                    )))))))

  pub parse_radio-Yields :
      (root : J) (c : Config)
      → Yields
          (parse_radio json valid_ipv4 root c)
          (λ d. Selects d × IsTimed d × (d.antennas ≡ c.antennas))
  unfolding parse_radio
  parse_radio-Yields root c = bind-Yields _ _ (any-Yields _) (λ radio _.
      bind-Yields _ _ (any-Yields _) (λ keys _.
        bind-Yields _ _ (parse_selectors-Yields radio c)
          (λ selected sel. kept-Yields sel.1 (parse_settings-Yields radio selected sel.0))))
    where
      kept-Yields :
          {m : Loaded Config} {xs ys : List AntennaPolicy}
          → xs ≡ ys
          → Yields m (λ d. Selects d × IsTimed d × (d.antennas ≡ xs))
          → Yields m (λ d. Selects d × IsTimed d × (d.antennas ≡ ys))
      kept-Yields e y = record { holds = λ d h. let (s, t, k) = y.holds d h in (s, t, k ∙ e) }
