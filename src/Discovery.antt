-- ===== src/Discovery.antt =====
-- src/discovery.c: VITA-49 discovery packets, the selector, and the wait for an announcement. A
-- packet is the list of the bytes received; a read behind its end is a fault of the model.
-- inet_pton of the socket library is the parameter `valid_ipv4`.
pub mod Reads
pub mod Announcements
pub mod Wait
use antenna_guardian_pi_lite.Common.{
  ℕ, zero, suc, ◌+◌, ◌-◌, ◌*◌, ◌/◌, ◌%◌, ◌^◌, Bool, true, false, not, ◌&&◌, ◌||◌, List, [], ◌∷◌,
  Option, none, some, ltb, leb, ◌==◌, if◌then◌else◌, length, get_elem?, take, drop,
}
use antenna_guardian_pi_lite.CString.{
  Text, codes, is_empty, strlen, strcmp_eq, strcasecmp_eq, strchr,
}
use antenna_guardian_pi_lite.CString.Numbers.{strtoul}
use antenna_guardian_pi_lite.Config.{Config, max_ipv4_text, max_radio_serial}
use antenna_guardian_pi_lite.Fields.{search_field}

abbrev pub discovery_packet_max : ℕ
discovery_packet_max = 4096

abbrev pub max_radio_model : ℕ
max_radio_model = 63

abbrev pub max_radio_name : ℕ
max_radio_name = 63

abbrev pub ext_data_with_stream : ℕ
ext_data_with_stream = 3

abbrev pub discovery_stream : ℕ
discovery_stream = 0x0000_0800

abbrev pub discovery_class : ℕ
discovery_class = 0x534c_ffff

pub record DiscoveredRadio : Type 0 where
  pub host : Text
  pub port : ℕ  -- uint16_t
  pub serial : Text
  pub model : Text
  pub name : Text

-- Four bytes in network order, from the offset on.
word_of : List ℕ → Option ℕ
word_of (a ∷ b ∷ c ∷ d ∷ rest) = some (a * 2 ^ 24 + b * 2 ^ 16 + c * 2 ^ 8 + d)
word_of _ = none

unfoldable pub read_network_word : List ℕ → ℕ → Option ℕ
unfolding word_of
read_network_word packet offset = word_of (drop offset packet)

-- An empty value, and one that does not fit, is refused.
unfoldable pub store_whole : ℕ → Text → Option Text
store_whole value_size value =
    if strlen value == 0 || leb value_size (strlen value) then none else some value

unfoldable pub field_value : Text → Text → ℕ → Option Text
unfolding search_field store_whole
field_value payload field value_size = search_field (store_whole value_size) payload field

-- What parse_packet ends with: a read out of bounds, false, or true with the radio.
pub data PacketResult : Type 0 where
  fault rejected : PacketResult
  announced : DiscoveredRadio → PacketResult

-- A field that may be missing stays empty.
unfoldable pub or_empty : Option Text → Text
or_empty none = []
or_empty (some value) = value

unfoldable pub radio_name : Text → Option Text → Text
unfolding or_empty
radio_name payload (some nickname) = nickname
radio_name payload none = or_empty (field_value payload (codes "name") (max_radio_name + 1))

-- errno != 0 || end == port_text || *end != '\0' || port < 1u || port > 65535u
unfoldable pub parse_port : Text → Option ℕ
parse_port port_text =
    let r = strtoul 10 port_text in
    if not r.range_ok
      || (not r.converted || (not (is_empty r.rest) || (ltb r.value 1 || ltb 65535 r.value)))
    then none
    else some r.value

-- while (payload_size > 0u && packet[payload_offset + payload_size - 1u] == '\0'), over the bytes
-- from payload_offset on; none is a read behind the end of the packet.
unfoldable pub trimmed_size : List ℕ → ℕ → Option ℕ
trimmed_size bytes zero = some 0
trimmed_size bytes (suc size) =
    let shorter = trimmed_size bytes size in
    elim (get_elem? bytes size) [
      | none ↦ none
      | some b ↦ if b == 0 then shorter else some (suc size)
    ]

has_nul : Option Text → Bool
has_nul none = false
has_nul (some rest) = true

-- The payload lies behind the optional timestamps, which the header announces.
unfoldable pub payload_offset : ℕ → ℕ
payload_offset header =
    16
    + (if (header / 2 ^ 22) % 4 == 0 then 0 else 4)
    + (if (header / 2 ^ 20) % 4 == 0 then 0 else 8)

module _ (valid_ipv4 : Text → Bool) where
  -- The radio, from the three fields that must be there.
  unfoldable pub radio_of : Text → Option Text → Option Text → Option Text → PacketResult
  unfolding parse_port radio_name or_empty
  radio_of payload (some serial) (some host) (some port_text) =
      if valid_ipv4 host
      then elim (parse_port port_text) [
        | none ↦ rejected
        | some port ↦ announced (record {
          host = host;
          port = port % 2 ^ 16;
          serial = serial;
          model = or_empty (field_value payload (codes "model") (max_radio_model + 1));
          name = radio_name payload (field_value payload (codes "nickname") (max_radio_name + 1));
        })
      ]
      else rejected
  radio_of payload _ _ _ = rejected

  unfoldable pub parse_payload : Text → PacketResult
  unfolding radio_of
  parse_payload payload =
      radio_of payload (field_value payload (codes "serial") (max_radio_serial + 1))
        (field_value payload (codes "ip") (max_ipv4_text + 1))
        (field_value payload (codes "port") 16)

  -- The checks on the payload, and its copy.
  unfoldable pub checked_payload : List ℕ → Option ℕ → PacketResult
  unfolding parse_payload has_nul
  checked_payload bytes none = fault
  checked_payload bytes (some payload_size) =
      if payload_size == 0
        || (ltb discovery_packet_max payload_size || has_nul (strchr 0 (take payload_size bytes)))
      then rejected
      else parse_payload (take payload_size bytes)

  -- From the class identifier on; `class_low` is its second word.
  unfoldable pub parse_class : List ℕ → ℕ → ℕ → Option ℕ → PacketResult
  unfolding checked_payload trimmed_size payload_offset
  parse_class packet header packet_size none = fault
  parse_class packet header packet_size (some class_low) =
      if not (class_low == discovery_class)
      then rejected
      else if leb packet_size (payload_offset header)
      then rejected
      else checked_payload (drop (payload_offset header) packet)
          (trimmed_size (drop (payload_offset header) packet) (packet_size - payload_offset header))

  -- The rest of the condition on the header, which reads the stream identifier last.
  unfoldable pub parse_stream : List ℕ → ℕ → ℕ → Option ℕ → PacketResult
  unfolding parse_class
  parse_stream packet header packet_size none = fault
  parse_stream packet header packet_size (some stream) =
      if not (stream == discovery_stream)
      then rejected
      else parse_class packet header packet_size (read_network_word packet 12)

  unfoldable pub parse_header : List ℕ → Option ℕ → PacketResult
  unfolding parse_stream
  parse_header packet none = fault
  parse_header packet (some header) =
      let packet_size = header % 2 ^ 16 * 4 in
      if not (header / 2 ^ 28 == ext_data_with_stream)
        || ((header / 2 ^ 27) % 2 == 0 || (ltb (length packet) packet_size || ltb packet_size 16))
      then rejected
      else parse_stream packet header packet_size (read_network_word packet 4)

  unfoldable pub parse_packet : List ℕ → PacketResult
  unfolding parse_header
  parse_packet packet =
      if ltb (length packet) 16 then rejected else parse_header packet (read_network_word packet 0)

unfoldable pub matches_selector : Config → DiscoveredRadio → Bool
matches_selector config radio =
    (is_empty config.radio_serial || strcasecmp_eq config.radio_serial radio.serial)
    && (is_empty config.discovery_ip || strcmp_eq config.discovery_ip radio.host)
