-- ===== src/Config/Checks.antt =====
-- The checks of src/config.c that its parsers share: the keys of an object, and the texts and numbers
-- of a field. An error is a value that stands for its message; it ends the loading, and the caller
-- then does not read the configuration.
use antenna_guardian_pi_lite.Common.{
  ℕ, Bool, true, false, not, ◌||◌, List, [], ◌∷◌, Option, none, some, ltb, ◌==◌, if◌then◌else◌,
  to_unsigned,
}
use antenna_guardian_pi_lite.CString.{Text, is_empty, strlen, strcmp_eq, isalnum}
use antenna_guardian_pi_lite.Config.{max_antenna_id, max_radio_serial, max_host}
use antenna_guardian_pi_lite.Json.{Json}

-- The sections that a message names.
pub data Section : Type 0 where
  root_section radio_section interlock_section : Section

-- One constructor for each message of src/config.c.
pub data ConfigError : Type 0 where
  cannot_open file_invalid out_of_memory incomplete_read root_not_object : ConfigError
  unknown_key : Section → Option Text → ConfigError
  duplicate_key : Section → Text → ConfigError
  radio_not_object no_selector mixed_selectors bad_host bad_serial bad_discovery_ip : ConfigError
  bad_port bad_reconnect bad_reconnect_max max_below_initial : ConfigError
  discovery_settings bad_reconnect_log : ConfigError
  interlock_not_object bad_antenna_count bad_antenna_id : ConfigError
  duplicate_antenna : Text → ConfigError
  policy_not_object : ConfigError
  unlisted_antenna : Option Text → ConfigError
  duplicate_policy : Text → ConfigError
  policy_not_array unknown_band : Text → ConfigError
  duplicate_band : Text → Text → ConfigError

-- -1 with the message, or 0 with what was read.
pub data Loaded (A : Type 0) : Type 0 where
  failed : ConfigError → Loaded A
  loaded : A → Loaded A

infixl 5 ◌>>=◌ ◌>>◌
unfoldable pub ◌>>=◌ : {A B : Type 0} → Loaded A → (A → Loaded B) → Loaded B
◌>>=◌ (failed e) f = failed e
◌>>=◌ (loaded a) f = f a

abbrev pub ◌>>◌ : {A B : Type 0} → Loaded A → Loaded B → Loaded B
m >> k = m >>= λ _. k

-- if (bad) return fail(...)
unfoldable pub reject_if : Bool → ConfigError → Loaded (Unit {0})
reject_if true e = failed e
reject_if false e = loaded tt

unfoldable pub key_is_allowed : Text → List Text → Bool
key_is_allowed key [] = false
key_is_allowed key (a ∷ allowed) =
    let later = key_is_allowed key allowed in if strcmp_eq key a then true else later

-- The loop of valid_antenna_id and of valid_radio_serial over the characters.
unfoldable pub all_bytes : (ℕ → Bool) → Text → Bool
all_bytes test [] = true
all_bytes test (c ∷ cs) = let later = all_bytes test cs in if not (test c) then false else later

unfoldable pub antenna_char : ℕ → Bool
antenna_char c = isalnum c || (c == b'_' || c == b'-')

unfoldable pub serial_char : ℕ → Bool
serial_char c = isalnum c || (c == b'-' || (c == b'_' || c == b'.'))

unfoldable pub valid_antenna_id : Text → Bool
unfolding all_bytes antenna_char
valid_antenna_id id =
    if strlen id == 0 || ltb max_antenna_id (strlen id) then false else all_bytes antenna_char id

unfoldable pub valid_radio_serial : Text → Bool
unfolding all_bytes serial_char
valid_radio_serial serial =
    if strlen serial == 0 || ltb max_radio_serial (strlen serial)
    then false
    else all_bytes serial_char serial

unfoldable pub valid_host : Text → Bool
valid_host host = not (is_empty host || ltb max_host (strlen host))

module _ {J : Type 0} (json : Json J) where
  -- if (!cJSON_IsObject(item)) return fail(...)
  unfoldable pub object_of : ConfigError → Option J → Loaded J
  object_of e none = failed e
  object_of e (some j) = if json.is_object j then loaded j else failed e

  -- The inner loop: a later item of the same name.
  unfoldable pub repeats : (Text → Text → Bool) → Text → List J → Bool
  repeats same key [] = false
  repeats same key (later ∷ items) =
      let rest = repeats same key items in
      elim (json.name later) [ none ↦ rest | some other ↦ if same key other then true else rest ]

  unfoldable pub reject_items : Section → List Text → List J → Loaded (Unit {0})
  unfolding key_is_allowed repeats reject_if
  reject_items section allowed [] = loaded tt
  reject_items section allowed (item ∷ items) =
      let rest = reject_items section allowed items in
      elim (json.name item) [
        | none ↦ failed (unknown_key section none)
        | some key ↦ do
          reject_if (not (key_is_allowed key allowed)) (unknown_key section (some key))
          reject_if (repeats strcmp_eq key items) (duplicate_key section key)
          rest
      ]

  unfoldable pub reject_unknown_keys : J → Section → List Text → Loaded (Unit {0})
  unfolding reject_items
  reject_unknown_keys object section allowed = reject_items section allowed (json.children object)

  -- A text that may be missing: its array then stays empty.
  unfoldable pub text_field : (Text → Bool) → ConfigError → Option J → Loaded Text
  text_field valid e none = loaded []
  text_field valid e (some j) =
      if not (json.is_string j) || not (valid (json.valuestring j))
      then failed e
      else loaded (json.valuestring j)

  -- A number from 1 to `most` that may be missing, converted to an unsigned type of w bits.
  unfoldable pub number_field : ℕ → ℕ → ℕ → ConfigError → Option J → Loaded ℕ
  number_field w most default e none = loaded default
  number_field w most default e (some j) =
      if not (json.is_number j) || (json.below j 1 || (json.above j most || not (json.is_int j)))
      then failed e
      else loaded (to_unsigned w (json.valueint j))
