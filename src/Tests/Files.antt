-- ===== src/Tests/Files.antt =====
-- Loading a configuration: the interface of cJSON on a table of nodes.
use antenna_guardian_pi_lite.Common.{
  ℕ, Bool, true, false, List, [], ◌∷◌, Option, none, some, ◌≡◌, ◌↔◌, refl, if◌then◌else◌, length,
  leb, get_elem?, ℤ, pos, int_below, int_above,
}
use antenna_guardian_pi_lite.CString.{
  Text, codes, strlen, is_empty, strcmp_eq, strcasecmp_eq, isalnum, before,
}
use antenna_guardian_pi_lite.Json.{Json}
use antenna_guardian_pi_lite.Policy.{ag_policy_evaluate}
use antenna_guardian_pi_lite.Config.Keys.{IsKeyed, reject_unknown_keys_iff}
use antenna_guardian_pi_lite.Config.Checks.{
  root_section, reject_unknown_keys, loaded, ◌>>=◌, valid_antenna_id,
}
use antenna_guardian_pi_lite.Config.Load.{FileEnv, load_root, ag_config_load}
use antenna_guardian_pi_lite.Config.Valid.{
  IsValid, IsFollowed, ag_config_load-IsValid, load_root-IsFollowed,
}
use antenna_guardian_pi_lite.Config.Permits.{IsGrantedByFile, load_root-allowed}
use antenna_guardian_pi_lite.Config.Listed.{ids_of}
use antenna_guardian_pi_lite.Flex.Connection.{command_size}
use antenna_guardian_pi_lite.Flex.Run.{join_ids, create_command}
use antenna_guardian_pi_lite.Flex.Create.{comma_list, join_ids-IsValid}
use antenna_guardian_pi_lite.Tests.Setup.{milli_floats, station}

data Kind : Type 0 where
  object array text number : Kind

abbrev is_kind : Kind → Kind → Bool
is_kind object object = true
is_kind array array = true
is_kind text text = true
is_kind number number = true
is_kind _ _ = false

record Node : Type 0 where
  kind : Kind
  key : Option Text
  text_value : Text
  int_value : ℤ
  items : List ℕ

abbrev branch : Kind → Option Text → List ℕ → Node
branch kind key items = record {
  kind = kind;
  key = key;
  text_value = [];
  int_value = pos 0;
  items = items;
}

abbrev leaf : Option Text → Text → Node
leaf key value = record {
  kind = text;
  key = key;
  text_value = value;
  int_value = pos 0;
  items = [];
}

-- The station as a file: a direct radio, ANT1 on 40m and 20m, ANT2 on 20m.
abbrev nodes : List Node
nodes =
    branch object none (1 ∷ 4 ∷ 8 ∷ [])
    ∷ branch object (some (codes "radio")) (2 ∷ 3 ∷ [])
    ∷ leaf (some (codes "host")) (codes "192.0.2.20")
    ∷ record {
      kind = number;
      key = some (codes "port");
      text_value = [];
      int_value = pos 4992;
      items = [];
    }
    ∷ branch object (some (codes "interlock")) (5 ∷ [])
    ∷ branch array (some (codes "antennas")) (6 ∷ 7 ∷ [])
    ∷ leaf none (codes "ANT1")
    ∷ leaf none (codes "ANT2")
    ∷ branch object (some (codes "policy")) (9 ∷ 10 ∷ [])
    ∷ branch array (some (codes "ANT1")) (11 ∷ 12 ∷ [])
    ∷ branch array (some (codes "ant2")) (12 ∷ [])
    ∷ leaf none (codes "40m")
    ∷ leaf none (codes "20M")
    ∷ []

abbrev or_number : Option Node → Node
or_number none = branch number none []
or_number (some n) = n

abbrev node : ℕ → Node
node j = or_number (get_elem? nodes j)

abbrev has_key : (Text → Text → Bool) → Text → Option Text → Bool
has_key same key none = false
has_key same key (some other) = same key other

abbrev first_item : (Text → Text → Bool) → Text → List ℕ → Option ℕ
first_item same key [] = none
first_item same key (j ∷ items) =
    let later = first_item same key items in if has_key same key (node j).key then some j else later

abbrev size_of : Option ℕ → ℕ
size_of none = 0
size_of (some j) = length (node j).items

abbrev root_of : Text → Option ℕ
root_of contents = if is_empty contents then none else some 0

abbrev table_json : Json ℕ
table_json = record {
  parse = root_of;
  is_object = λ j. is_kind (node j).kind object;
  is_array = λ j. is_kind (node j).kind array;
  is_string = λ j. is_kind (node j).kind text;
  is_number = λ j. is_kind (node j).kind number;
  children = λ j. (node j).items;
  name = λ j. (node j).key;
  valuestring = λ j. (node j).text_value;
  valueint = λ j. (node j).int_value;
  below = λ j n. int_below (node j).int_value n;
  above = λ j n. int_above (node j).int_value n;
  is_int = λ j. true;
  get_item = λ j key. first_item strcasecmp_eq key (node j).items;
  get_item_case_sensitive = λ j key. first_item strcmp_eq key (node j).items;
  array_size = size_of;
  array_size-children = λ j h. refl;
  below-valueint = λ j n h. refl;
  above-valueint = λ j n h. refl;
}

abbrev no_address : Text → Bool
no_address ip = false

abbrev one_file : FileEnv (Unit {0})
one_file = record {
  fopen = λ path. some tt;
  seek_end = λ file. true;
  ftell = λ file. pos 2;
  seek_start = λ file. true;
  malloc = λ n. true;
  fread = λ file n. codes "{}";
}

loaded_station : load_root table_json no_address 0 ≡ loaded station
unfolding load_root strcmp_eq strcasecmp_eq ◌>>=◌ valid_antenna_id isalnum
loaded_station = refl

opened_station :
    ag_config_load table_json no_address one_file (codes "config.json") ≡ loaded station
unfolding ag_config_load load_root strcmp_eq strcasecmp_eq ◌>>=◌ valid_antenna_id isalnum before
opened_station = refl

ag_config_load-IsValid_example : IsValid no_address station
ag_config_load-IsValid_example =
    ag_config_load-IsValid table_json no_address one_file (codes "config.json") station
      opened_station

abbrev root_keys : List Text
root_keys = codes "radio" ∷ codes "interlock" ∷ codes "policy" ∷ []

reject_unknown_keys_iff_example :
    (reject_unknown_keys table_json 0 root_section root_keys ≡ loaded tt)
    ↔ IsKeyed table_json root_keys (table_json.children 0)
reject_unknown_keys_iff_example = reject_unknown_keys_iff table_json 0 root_section root_keys

join_ids-IsValid_example :
    (join_ids true [] station.antennas ≡ some (comma_list (ids_of station.antennas)))
    × (leb command_size (strlen (create_command (comma_list (ids_of station.antennas)))) ≡ false)
join_ids-IsValid_example = join_ids-IsValid no_address station (
    ag_config_load-IsValid table_json no_address one_file (codes "config.json") station
      opened_station)

load_root-IsFollowed_example : IsFollowed table_json no_address 0 station
load_root-IsFollowed_example = load_root-IsFollowed table_json no_address 0 station loaded_station

load_root-allowed_example :
    ((ag_policy_evaluate {D = ℕ} station true 7074 (some (codes "ANT1"))).allowed ≡ true)
    ↔ IsGrantedByFile {D = ℕ} table_json no_address 0 station 7074 (codes "ANT1")
load_root-allowed_example =
    load_root-allowed table_json no_address 0 station 7074 (codes "ANT1") loaded_station
