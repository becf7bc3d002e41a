-- ===== src/Flex/Create.antt =====
-- initialize_session of src/flex.c: the create command of a valid configuration and its buffers.
use antenna_guardian_pi_lite.Common.{
  ◌+◌, ◌-◌, ◌*◌, ◌≤◌, Bool, true, false, List, [], ◌∷◌, ◌++◌, some, ◌≡◌, refl, ap, subst, ◌∙◌, sym,
  arith, leb, length, length-append, All,
}
use antenna_guardian_pi_lite.CString.{Text, strlen}
use antenna_guardian_pi_lite.Config.{AntennaPolicy, Config}
use antenna_guardian_pi_lite.Config.Checks.{valid_antenna_id}
use antenna_guardian_pi_lite.Config.Listed.{ids_of}
use antenna_guardian_pi_lite.Config.Valid.{IsValid}
use antenna_guardian_pi_lite.Flex.Connection.{command_size}
use antenna_guardian_pi_lite.Flex.Run.{id_piece, antennas_size, join_ids, create_command}

-- All ids, with a comma in front of each.
abbrev pub with_commas : List Text → Text
with_commas [] = []
with_commas (id ∷ ids) = (b',' ∷ id) ++ with_commas ids

-- All ids, with a comma between them.
abbrev pub comma_list : List Text → Text
comma_list [] = []
comma_list (id ∷ ids) = id ++ with_commas ids

valid_antenna_id-length : (id : Text) → valid_antenna_id id ≡ true → length id ≤ 31
unfolding valid_antenna_id
valid_antenna_id-length id h = ground arith

append_nil : (a : Text) → a ++ [] ≡ a
append_nil [] = refl
append_nil (x ∷ a) = ap (◌∷◌ x) (append_nil a)

append_assoc : (a b c : Text) → (a ++ b) ++ c ≡ a ++ (b ++ c)
append_assoc [] b c = refl
append_assoc (x ∷ a) b c = ap (◌∷◌ x) (append_assoc a b c)

join_ids-rest :
    (joined : Text) (antennas : List AntennaPolicy)
    → All (λ id. valid_antenna_id id ≡ true) (ids_of antennas)
    → length joined + 32 * length antennas ≤ 255
    → (join_ids false joined antennas ≡ some (joined ++ with_commas (ids_of antennas)))
      × (length (joined ++ with_commas (ids_of antennas)) ≤ 255)
unfolding join_ids
join_ids-rest joined [] v h =
    let same = append_nil joined in (ap some (sym same), rw same (omega (arith, h)))
join_ids-rest joined (a ∷ antennas) v h =
    let piece = id_piece false a.id in
    let short : length piece ≤ 32 = omega (arith, valid_antenna_id-length a.id v.0) in
    let longer = length-append joined piece in
    let (same, fits) =
      join_ids-rest (joined ++ piece) antennas v.1 (omega (arith, h, longer, short)) in
    let room : leb (antennas_size - strlen joined) (strlen piece) ≡ false =
      ground (arith, h, short) in
    let assoc = append_assoc joined piece (with_commas (ids_of antennas)) in
    (rw (join_ids, room) (same ∙ ap some assoc), subst (λ t. length t ≤ 255) assoc fits)

join_ids-comma_list :
    (antennas : List AntennaPolicy)
    → All (λ id. valid_antenna_id id ≡ true) (ids_of antennas)
    → (1 ≤ length antennas) × (length antennas ≤ 8)
    → (join_ids true [] antennas ≡ some (comma_list (ids_of antennas)))
      × (length (comma_list (ids_of antennas)) ≤ 255)
unfolding join_ids
join_ids-comma_list [] v h = absurd (omega (arith, h))
join_ids-comma_list (a ∷ antennas) v h =
    let short = valid_antenna_id-length a.id v.0 in
    let room : leb (antennas_size - strlen []) (strlen a.id) ≡ false = ground (arith, short) in
    let (same, fits) = join_ids-rest a.id antennas v.1 (omega (arith, h, short)) in
    (rw (join_ids, room) same, fits)

-- The create command of every valid configuration, so of every configuration that ag_config_load
-- accepts: the loop joins all antenna ids with commas, none left out, and the command fits the buffer
-- of AG_COMMAND_SIZE, so that neither check of initialize_session fails.
pub join_ids-IsValid :
    (valid_ipv4 : Text → Bool) (c : Config)
    → IsValid valid_ipv4 c
    → (join_ids true [] c.antennas ≡ some (comma_list (ids_of c.antennas)))
      × (leb command_size (strlen (create_command (comma_list (ids_of c.antennas)))) ≡ false)
unfolding create_command
join_ids-IsValid valid_ipv4 c v =
    let (same, fits) = join_ids-comma_list c.antennas v.ids_valid v.count in
    (same, ground (arith, fits))
