-- ===== src/Config/Radio.antt =====
-- parse_radio of src/config.c; inet_pton of the socket library is the parameter `valid_ipv4`.
use antenna_guardian_pi_lite.Common.{
  ℕ, Bool, true, false, not, ◌&&◌, ◌||◌, List, [], ◌∷◌, Option, none, some, ltb, if◌then◌else◌,
}
use antenna_guardian_pi_lite.CString.{Text, codes, strlen}
use antenna_guardian_pi_lite.Config.{
  Config, RadioMode, radio_direct, radio_discovery, max_ipv4_text,
}
use antenna_guardian_pi_lite.Json.{Json, is_null}
use antenna_guardian_pi_lite.Config.Checks.{
  radio_section, radio_not_object, no_selector, mixed_selectors, bad_host, bad_serial,
  bad_discovery_ip, bad_port, bad_reconnect, bad_reconnect_max, max_below_initial,
  discovery_settings, bad_reconnect_log, Loaded, loaded, ◌>>=◌, ◌>>◌, reject_if, valid_host,
  valid_radio_serial, object_of, reject_unknown_keys, text_field, number_field,
}

abbrev pub radio_keys : List Text
radio_keys =
    codes "host"
    ∷ codes "serial"
    ∷ codes "discovery_ip"
    ∷ codes "port"
    ∷ codes "reconnect_seconds"
    ∷ codes "reconnect_max_seconds"
    ∷ codes "reconnect_log_seconds"
    ∷ []

-- host == NULL ? AG_RADIO_DISCOVERY : AG_RADIO_DIRECT
unfoldable pub mode_of : {J : Type 0} → Option J → RadioMode
mode_of none = radio_discovery
mode_of (some host) = radio_direct

abbrev pub is_discovery : RadioMode → Bool
is_discovery radio_direct = false
is_discovery radio_discovery = true

-- The maximum where the configuration gives none.
unfoldable pub default_max : ℕ → ℕ
default_max reconnect_seconds = if ltb 30 reconnect_seconds then reconnect_seconds else 30

unfoldable pub valid_discovery_ip : (Text → Bool) → Text → Bool
valid_discovery_ip valid_ipv4 ip = not (ltb max_ipv4_text (strlen ip)) && valid_ipv4 ip

module _ {J : Type 0} (json : Json J) (valid_ipv4 : Text → Bool) where
  -- host, serial and discovery_ip.
  unfoldable pub parse_selectors : J → Config → Loaded Config
  unfolding reject_if text_field valid_host valid_radio_serial valid_discovery_ip mode_of
  parse_selectors radio config = do
    let host = json.get_item_case_sensitive radio (codes "host")
    let serial = json.get_item_case_sensitive radio (codes "serial")
    let discovery_ip = json.get_item_case_sensitive radio (codes "discovery_ip")
    reject_if (is_null host && (is_null serial && is_null discovery_ip)) no_selector
    reject_if (not (is_null host) && (not (is_null serial) || not (is_null discovery_ip)))
        mixed_selectors
    host_text ← text_field json valid_host bad_host host
    serial_text ← text_field json valid_radio_serial bad_serial serial
    ip_text ← text_field json (valid_discovery_ip valid_ipv4) bad_discovery_ip discovery_ip
    loaded (record config {
      radio_mode = mode_of host;
      host = host_text;
      radio_serial = serial_text;
      discovery_ip = ip_text;
    })

  -- port and the reconnect settings.
  unfoldable pub parse_settings : J → Config → Loaded Config
  unfolding reject_if number_field default_max
  parse_settings radio config = do
    let port = json.get_item_case_sensitive radio (codes "port")
    let reconnect = json.get_item_case_sensitive radio (codes "reconnect_seconds")
    let reconnect_max = json.get_item_case_sensitive radio (codes "reconnect_max_seconds")
    let reconnect_log = json.get_item_case_sensitive radio (codes "reconnect_log_seconds")
    port_number ← number_field json 16 65535 4992 bad_port port
    seconds ← number_field json 32 300 3 bad_reconnect reconnect
    most ← number_field json 32 3600 (default_max seconds) bad_reconnect_max reconnect_max
    reject_if (ltb most seconds) max_below_initial
    reject_if
        (is_discovery config.radio_mode
          && (not (is_null port)
              || (not (is_null reconnect)
                  || (not (is_null reconnect_max) || not (is_null reconnect_log)))))
        discovery_settings
    log_seconds ← number_field json 32 86400 300 bad_reconnect_log reconnect_log
    loaded (record config {
      port = port_number;
      reconnect_seconds = seconds;
      reconnect_max_seconds = most;
      reconnect_log_seconds = log_seconds;
    })

  unfoldable pub parse_radio : J → Config → Loaded Config
  unfolding object_of reject_unknown_keys parse_selectors parse_settings
  parse_radio root config = do
    radio ← object_of json radio_not_object (json.get_item_case_sensitive root (codes "radio"))
    reject_unknown_keys json radio radio_section radio_keys
    selected ← parse_selectors radio config
    parse_settings radio selected
