-- ===== src/Config/Load.antt =====
-- read_file and ag_config_load of src/config.c, over an environment for the calls of <stdio.h>. F is
-- the type of open files.
use antenna_guardian_pi_lite.Common.{
  ℕ, suc, ◌+◌, ◌*◌, Bool, true, not, ◌||◌, List, [], ◌∷◌, Option, none, some, ltb, ◌==◌, length, ℤ,
  pos, negsuc,
}
use antenna_guardian_pi_lite.CString.{Text, codes, before}
use antenna_guardian_pi_lite.Config.{Config, radio_direct}
use antenna_guardian_pi_lite.Json.{Json}
use antenna_guardian_pi_lite.Config.Checks.{
  root_section, cannot_open, file_invalid, out_of_memory, incomplete_read, root_not_object, Loaded,
  failed, loaded, ◌>>=◌, ◌>>◌, reject_if, object_of, reject_unknown_keys,
}
use antenna_guardian_pi_lite.Config.Radio.{parse_radio}
use antenna_guardian_pi_lite.Config.Antennas.{parse_antennas, parse_policy}

abbrev pub max_config_bytes : ℕ
max_config_bytes = 1024 * 1024

pub record FileEnv (F : Type 0) : Type 0 where
  pub fopen : Text → Option F
  pub seek_end : F → Bool  -- fseek(file, 0, SEEK_END) == 0
  pub ftell : F → ℤ
  pub seek_start : F → Bool  -- fseek(file, 0, SEEK_SET) == 0
  pub malloc : ℕ → Bool  -- malloc(n) != NULL
  pub fread : F → ℕ → Text  -- the bytes read, of at most n

-- ftell(file) < 0 || (unsigned long)length > AG_MAX_CONFIG_BYTES
unfoldable pub bad_length : ℤ → Bool
bad_length (pos n) = ltb max_config_bytes n
bad_length (negsuc n) = true

abbrev pub magnitude : ℤ → ℕ
magnitude (pos n) = n
magnitude (negsuc n) = suc n

module _ {F : Type 0} (files : FileEnv F) where
  unfoldable pub read_open : F → Loaded Text
  unfolding reject_if bad_length
  read_open file = do
    let size = files.ftell file
    reject_if (not (files.seek_end file) || (bad_length size || not (files.seek_start file)))
        file_invalid
    reject_if (not (files.malloc (magnitude size + 1))) out_of_memory
    let contents = files.fread file (magnitude size)
    reject_if (not (length contents == magnitude size)) incomplete_read
    loaded contents

  unfoldable pub read_file : Text → Loaded Text
  unfolding read_open
  read_file path = elim (files.fopen path) [
    | none ↦ failed cannot_open
    | some file ↦ read_open file
  ]

-- memset(config, 0, sizeof(*config))
abbrev pub empty_config : Config
empty_config = record {
  radio_mode = radio_direct;
  host = [];
  radio_serial = [];
  discovery_ip = [];
  port = 0;
  reconnect_seconds = 0;
  reconnect_max_seconds = 0;
  reconnect_log_seconds = 0;
  antennas = [];
}

abbrev pub root_keys : List Text
root_keys = codes "radio" ∷ codes "interlock" ∷ codes "policy" ∷ []

module _ {J : Type 0} (json : Json J) (valid_ipv4 : Text → Bool) where
  -- The part of ag_config_load behind the parser.
  unfoldable pub load_root : J → Loaded Config
  unfolding reject_unknown_keys parse_radio parse_antennas parse_policy
  load_root root = do
    reject_unknown_keys json root root_section root_keys
    with_radio ← parse_radio json valid_ipv4 root empty_config
    with_antennas ← parse_antennas json root with_radio
    parse_policy json root with_antennas

  -- The contents are parsed as a C string, so up to their first NUL.
  unfoldable pub ag_config_load : {F : Type 0} → FileEnv F → Text → Loaded Config
  unfolding read_file object_of load_root
  ag_config_load files path = do
    contents ← read_file files path
    root ← object_of json root_not_object (json.parse (before 0 contents))
    load_root root
