-- ===== src/Main/Summary.antt =====
-- print_config_summary of src/main.c: the text that --check-config prints.
use antenna_guardian_pi_lite.Common.{ℕ, suc, Bool, true, false, List, [], ◌∷◌, ◌++◌, if◌then◌else◌}
use antenna_guardian_pi_lite.CString.{Text, codes, is_empty}
use antenna_guardian_pi_lite.CString.Numbers.{print_unsigned}
use antenna_guardian_pi_lite.Config.{
  AntennaPolicy, Config, RadioMode, radio_direct, radio_discovery,
}
use antenna_guardian_pi_lite.Policy.{Band, bands, has_band}

abbrev newline : Text
newline = b'\n' ∷ []

unfoldable pub pin_text : Text → Text → Text
pin_text label value = if is_empty value then [] else label ++ value

unfoldable pub radio_text : Config → RadioMode → Text
unfolding pin_text
radio_text config radio_discovery =
    codes "Radio: Flex UDP discovery"
    ++ pin_text (codes " serial=") config.radio_serial
    ++ pin_text (codes " ip=") config.discovery_ip
    ++ newline
radio_text config radio_direct =
    codes "Radio: "
    ++ config.host
    ++ codes ":"
    ++ print_unsigned config.port
    ++ codes "\nReconnect: "
    ++ print_unsigned config.reconnect_seconds
    ++ codes " seconds initial, "
    ++ print_unsigned config.reconnect_max_seconds
    ++ codes " seconds maximum\nUnavailable log interval: "
    ++ print_unsigned config.reconnect_log_seconds
    ++ codes " seconds\n"

-- The loop over the bands from `index` on; `first` is the variable of that name.
unfoldable pub bands_text : ℕ → List Band → ℕ → Bool → Text
unfolding has_band
bands_text allowed_bands [] index first =
    if first then codes " <no bands allowed>" ++ newline else newline
bands_text allowed_bands (b ∷ bs) index first =
    let skipped = bands_text allowed_bands bs (suc index) first in
    let printed = bands_text allowed_bands bs (suc index) false in
    if has_band allowed_bands index
    then (if first then codes " " else codes ", ") ++ b.name ++ printed
    else skipped

unfoldable pub antennas_text : List AntennaPolicy → Text
unfolding bands_text
antennas_text [] = []
antennas_text (a ∷ antennas) =
    a.id ++ codes ":" ++ bands_text a.allowed_bands bands 0 true ++ antennas_text antennas

unfoldable pub print_config_summary : Config → Text
unfolding radio_text antennas_text
print_config_summary config =
    codes "Configuration valid\n"
    ++ radio_text config config.radio_mode
    ++ antennas_text config.antennas
