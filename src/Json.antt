-- ===== src/Json.antt =====
-- What src/config.c uses of cJSON, which is another project's library: an interface. J is the type of
-- the nodes behind `const cJSON *`, and none is NULL. The laws are what cJSON documents: the size of
-- an array is the number of items that cJSON_ArrayForEach visits, and a number whose valuedouble
-- equals its valueint compares as that integer does.
use antenna_guardian_pi_lite.Common.{
  ℕ, Bool, true, false, List, Option, none, some, ◌≡◌, length, ℤ, int_below, int_above,
}
use antenna_guardian_pi_lite.CString.{Text}

pub record Json (J : Type 0) : Type 0 where
  pub parse : Text → Option J  -- cJSON_Parse
  pub is_object : J → Bool
  pub is_array : J → Bool
  pub is_string : J → Bool
  pub is_number : J → Bool
  pub children : J → List J  -- what cJSON_ArrayForEach visits, in order
  pub name : J → Option Text  -- item->string
  pub valuestring : J → Text
  pub valueint : J → ℤ
  pub below : J → ℕ → Bool  -- item->valuedouble < n
  pub above : J → ℕ → Bool  -- item->valuedouble > n
  pub is_int : J → Bool  -- item->valuedouble == item->valueint
  pub get_item : J → Text → Option J  -- cJSON_GetObjectItem
  pub get_item_case_sensitive : J → Text → Option J
  pub array_size : Option J → ℕ  -- cJSON_GetArraySize
  pub array_size-children : (j : J) → is_array j ≡ true → array_size (some j) ≡ length (children j)
  pub below-valueint : (j : J) (n : ℕ) → is_int j ≡ true → below j n ≡ int_below (valueint j) n
  pub above-valueint : (j : J) (n : ℕ) → is_int j ≡ true → above j n ≡ int_above (valueint j) n

-- cJSON_IsObject and the like are false of NULL.
abbrev pub holds_of : {J : Type 0} → (J → Bool) → Option J → Bool
holds_of test none = false
holds_of test (some j) = test j

abbrev pub is_null : {J : Type 0} → Option J → Bool
is_null none = true
is_null (some j) = false
