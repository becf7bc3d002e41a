-- ===== src/Discovery/Announcements.antt =====
-- parse_packet: what an accepted packet gives.
use antenna_guardian_pi_lite.Common.{
  ℕ, ◌+◌, ◌-◌, ◌*◌, ◌%◌, ◌^◌, ◌≤◌, ◌<◌, Bool, true, List, Option, none, some, ◌≡◌, subst,
  if◌then◌else◌, false, inl, inr, arith, take, drop, Bool-cases, Option-cases,
}
use antenna_guardian_pi_lite.CString.{Text, codes, strlen}
use antenna_guardian_pi_lite.Config.{max_ipv4_text, max_radio_serial}
use antenna_guardian_pi_lite.Fields.Segments.{search_field-stored}
use antenna_guardian_pi_lite.Discovery.{
  DiscoveredRadio, max_radio_model, max_radio_name, store_whole, field_value, or_empty, radio_name,
  read_network_word, PacketResult, fault, rejected, announced, parse_port, radio_of, parse_payload,
  trimmed_size, checked_payload, payload_offset, parse_class, parse_stream, parse_header,
  parse_packet,
}

-- What an accepted announcement obeys.
pub record IsAnnouncement (valid_ipv4 : Text → Bool) (r : DiscoveredRadio) : Type 0 where
  pub host_valid : valid_ipv4 r.host ≡ true
  pub host_fits : (0 < strlen r.host) × (strlen r.host ≤ max_ipv4_text)
  pub serial_fits : (0 < strlen r.serial) × (strlen r.serial ≤ max_radio_serial)
  pub model_fits : strlen r.model ≤ max_radio_model
  pub name_fits : strlen r.name ≤ max_radio_name
  pub port_range : (1 ≤ r.port) × (r.port ≤ 65535)

field_value_fits :
    (payload field : Text) (size : ℕ) {v : Text}
    → field_value payload field size ≡ some v
    → (0 < strlen v) × (strlen v < size)
unfolding field_value store_whole
field_value_fits payload field size h =
    let (w, e) = search_field-stored (store_whole size) payload field h in ground (arith, e)

or_empty_fits :
    (payload field : Text) (size : ℕ)
    → strlen (or_empty (field_value payload field (size + 1))) ≤ size
unfolding or_empty
or_empty_fits payload field size = elim (Option-cases (field_value payload field (size + 1))) [
  | inl missing ↦ rw missing (omega arith)
  | inr (v, found) ↦ rw found (omega (arith, field_value_fits payload field (size + 1) found))
]

radio_name_fits :
    (payload : Text)
    → strlen (radio_name payload (field_value payload (codes "nickname") (max_radio_name + 1)))
      ≤ max_radio_name
unfolding radio_name
radio_name_fits payload =
    elim (Option-cases (field_value payload (codes "nickname") (max_radio_name + 1))) [
      | inl missing ↦ rw missing (or_empty_fits payload (codes "name") max_radio_name)
      | inr (v, found) ↦
          rw found
            (omega (arith, field_value_fits payload (codes "nickname") (max_radio_name + 1) found))
    ]

parse_port_range :
    (text : Text) {port : ℕ} → parse_port text ≡ some port → (1 ≤ port) × (port ≤ 65535)
unfolding parse_port
parse_port_range text h = ground arith

if_rejected :
    (b : Bool) (y : PacketResult) {r : DiscoveredRadio}
    → (if b then rejected else y) ≡ announced r
    → y ≡ announced r
if_rejected true y h = absurd cc
if_rejected false y h = h

-- An accepted packet gives an announcement.
unfoldable IsAccepted : (Text → Bool) → PacketResult → Type 0
IsAccepted valid_ipv4 fault = Unit
IsAccepted valid_ipv4 rejected = Unit
IsAccepted valid_ipv4 (announced r) = IsAnnouncement valid_ipv4 r

module _ (valid_ipv4 : Text → Bool) where
  radio_of-IsAccepted :
      (payload serial host port_text : Text)
      → (0 < strlen serial) × (strlen serial ≤ max_radio_serial)
      → (0 < strlen host) × (strlen host ≤ max_ipv4_text)
      → IsAccepted valid_ipv4
          (radio_of valid_ipv4 payload (some serial) (some host) (some port_text))
  unfolding radio_of IsAccepted
  radio_of-IsAccepted payload serial host port_text serial_ok host_ok =
      elim (Bool-cases (valid_ipv4 host)) [
        | inl valid ↦ elim (Option-cases (parse_port port_text)) [
          | inl missing ↦ rw (valid, missing) tt
          | inr (port, found) ↦
              let range = parse_port_range port_text found in
              rw (valid, found)
                (record {
                  host_valid = valid;
                  host_fits = host_ok;
                  serial_fits = serial_ok;
                  model_fits = or_empty_fits payload (codes "model") max_radio_model;
                  name_fits = radio_name_fits payload;
                  port_range = omega (arith, range);
                })
        ]
        | inr invalid ↦ rw invalid tt
      ]

  parse_payload-IsAccepted :
      (payload : Text) → IsAccepted valid_ipv4 (parse_payload valid_ipv4 payload)
  unfolding parse_payload radio_of IsAccepted
  parse_payload-IsAccepted payload =
      elim (Option-cases (field_value payload (codes "serial") (max_radio_serial + 1))) [
        | inl no_serial ↦ rw no_serial tt
        | inr (serial, s) ↦
            elim (Option-cases (field_value payload (codes "ip") (max_ipv4_text + 1))) [
              | inl no_host ↦ rw (s, no_host) tt
              | inr (host, i) ↦ elim (Option-cases (field_value payload (codes "port") 16)) [
                | inl no_port ↦ rw (s, i, no_port) tt
                | inr (port_text, p) ↦
                    rw (s, i, p)
                      (radio_of-IsAccepted payload serial host port_text
                        (omega (
                          arith,
                          field_value_fits payload (codes "serial") (max_radio_serial + 1) s,
                        ))
                        (omega
                          (arith, field_value_fits payload (codes "ip") (max_ipv4_text + 1) i)))
              ]
            ]
      ]

  parse_payload-IsAnnouncement :
      (payload : Text) {r : DiscoveredRadio}
      → parse_payload valid_ipv4 payload ≡ announced r
      → IsAnnouncement valid_ipv4 r
  unfolding IsAccepted
  parse_payload-IsAnnouncement payload accepted =
      subst (IsAccepted valid_ipv4) accepted (parse_payload-IsAccepted payload)

  checked_payload-IsAnnouncement :
      (bytes : List ℕ) (size : Option ℕ) {r : DiscoveredRadio}
      → checked_payload valid_ipv4 bytes size ≡ announced r
      → IsAnnouncement valid_ipv4 r
  unfolding checked_payload
  checked_payload-IsAnnouncement bytes none accepted = absurd cc
  checked_payload-IsAnnouncement bytes (some size) accepted =
      parse_payload-IsAnnouncement (take size bytes) (if_rejected _ _ accepted)

  parse_class-IsAnnouncement :
      (packet : List ℕ) (header packet_size : ℕ) (class_low : Option ℕ) {r : DiscoveredRadio}
      → parse_class valid_ipv4 packet header packet_size class_low ≡ announced r
      → IsAnnouncement valid_ipv4 r
  unfolding parse_class
  parse_class-IsAnnouncement packet header packet_size none accepted = absurd cc
  parse_class-IsAnnouncement packet header packet_size (some class_low) accepted =
      let bytes = drop (payload_offset header) packet in
      checked_payload-IsAnnouncement bytes
        (trimmed_size bytes (packet_size - payload_offset header))
        (if_rejected _ _ (if_rejected _ _ accepted))

  parse_stream-IsAnnouncement :
      (packet : List ℕ) (header packet_size : ℕ) (stream : Option ℕ) {r : DiscoveredRadio}
      → parse_stream valid_ipv4 packet header packet_size stream ≡ announced r
      → IsAnnouncement valid_ipv4 r
  unfolding parse_stream
  parse_stream-IsAnnouncement packet header packet_size none accepted = absurd cc
  parse_stream-IsAnnouncement packet header packet_size (some stream) accepted =
      parse_class-IsAnnouncement packet header packet_size (read_network_word packet 12)
        (if_rejected _ _ accepted)

  parse_header-IsAnnouncement :
      (packet : List ℕ) (header : Option ℕ) {r : DiscoveredRadio}
      → parse_header valid_ipv4 packet header ≡ announced r
      → IsAnnouncement valid_ipv4 r
  unfolding parse_header
  parse_header-IsAnnouncement packet none accepted = absurd cc
  parse_header-IsAnnouncement packet (some header) accepted =
      parse_stream-IsAnnouncement packet header (header % 2 ^ 16 * 4) (read_network_word packet 4)
        (if_rejected _ _ accepted)

  -- When parse_packet accepts a packet, inet_pton accepts the host, the host and the serial are not
  -- empty, each text fits its array with the NUL, and the port lies within 1 and 65535.
  pub parse_packet-IsAnnouncement :
      (packet : List ℕ) {r : DiscoveredRadio}
      → parse_packet valid_ipv4 packet ≡ announced r
      → IsAnnouncement valid_ipv4 r
  unfolding parse_packet
  parse_packet-IsAnnouncement packet accepted =
      parse_header-IsAnnouncement packet (read_network_word packet 0) (if_rejected _ _ accepted)
