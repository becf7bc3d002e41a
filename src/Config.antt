-- ===== src/Config.antt =====
-- include/ag_config.h: the configuration that the other parts read, and ag_config_find_antenna of
-- src/config.c.
pub mod Checks
pub mod Radio
pub mod Antennas
pub mod Load
pub mod Bands
pub mod Yields
pub mod Keys
pub mod Selected
pub mod Listed
pub mod Granted
pub mod Valid
pub mod Permits
use antenna_guardian_pi_lite.Common.{ℕ, List, [], ◌∷◌, Option, none, some, if◌then◌else◌}
use antenna_guardian_pi_lite.CString.{Text, strcasecmp_eq}

abbrev pub max_antennas : ℕ
max_antennas = 8

abbrev pub max_antenna_id : ℕ
max_antenna_id = 31

abbrev pub max_host : ℕ
max_host = 255

abbrev pub max_radio_serial : ℕ
max_radio_serial = 63

abbrev pub max_ipv4_text : ℕ
max_ipv4_text = 15

pub data RadioMode : Type 0 where
  radio_direct radio_discovery : RadioMode

pub record AntennaPolicy : Type 0 where
  pub id : Text
  pub allowed_bands : ℕ  -- uint16_t

-- `antennas` holds the first `antenna_count` entries of the array.
pub record Config : Type 0 where
  pub radio_mode : RadioMode
  pub host : Text
  pub radio_serial : Text
  pub discovery_ip : Text
  pub port : ℕ  -- uint16_t
  pub reconnect_seconds : ℕ  -- unsigned
  pub reconnect_max_seconds : ℕ  -- unsigned
  pub reconnect_log_seconds : ℕ  -- unsigned
  pub antennas : List AntennaPolicy

-- The loop of ag_config_find_antenna; none is NULL.
unfoldable pub find_in : List AntennaPolicy → Text → Option AntennaPolicy
find_in [] id = none
find_in (a ∷ antennas) id = if strcasecmp_eq a.id id then some a else find_in antennas id

unfoldable pub ag_config_find_antenna : Config → Text → Option AntennaPolicy
unfolding find_in
ag_config_find_antenna config id = find_in config.antennas id
