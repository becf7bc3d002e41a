-- ===== src/Discovery/Reads.antt =====
-- parse_packet: no read is out of bounds.
use antenna_guardian_pi_lite.Common.{
  ℕ, zero, suc, ◌+◌, ◌-◌, ◌*◌, ◌%◌, ◌^◌, ◌≤◌, ◌<◌, Bool, List, [], ◌∷◌, Option, none, some, ◌≡◌,
  ◌≢◌, refl, inl, inr, arith, ltb, length, get_elem?, take, drop, length-drop, Bool-cases,
}
use antenna_guardian_pi_lite.CString.{Text}
use antenna_guardian_pi_lite.Discovery.{
  word_of, read_network_word, fault, radio_of, parse_payload, trimmed_size, checked_payload,
  payload_offset, parse_class, parse_stream, parse_header, parse_packet,
}

word_of-some : (bytes : List ℕ) → 4 ≤ length bytes → (w : ℕ) × (word_of bytes ≡ some w)
unfolding word_of
word_of-some [] h = absurd (omega arith)
word_of-some (a ∷ []) h = absurd (omega arith)
word_of-some (a ∷ b ∷ []) h = absurd (omega arith)
word_of-some (a ∷ b ∷ c ∷ []) h = absurd (omega arith)
word_of-some (a ∷ b ∷ c ∷ d ∷ rest) h = (_, refl)

read_network_word-some :
    (packet : List ℕ) (offset : ℕ)
    → offset + 4 ≤ length packet
    → (w : ℕ) × (read_network_word packet offset ≡ some w)
unfolding read_network_word
read_network_word-some packet offset h =
    word_of-some (drop offset packet) (omega (arith, length-drop offset packet))

get_elem?-some :
    (bytes : List ℕ) (i : ℕ) → i < length bytes → (b : ℕ) × (get_elem? bytes i ≡ some b)
get_elem?-some [] i h = elim h [ ]
get_elem?-some (b ∷ bytes) zero h = (b, refl)
get_elem?-some (b ∷ bytes) (suc i) h = get_elem?-some bytes i (omega arith)

trimmed_size-ne-none :
    (bytes : List ℕ) (size : ℕ) → size ≤ length bytes → trimmed_size bytes size ≢ none
unfolding trimmed_size
trimmed_size-ne-none bytes zero h = λ e. cc
trimmed_size-ne-none bytes (suc size) h =
    let (b, e) = get_elem?-some bytes size h in ground (arith, e, trimmed_size-ne-none bytes size)

module _ (valid_ipv4 : Text → Bool) where
  parse_payload-ne-fault : (payload : Text) → parse_payload valid_ipv4 payload ≢ fault
  unfolding parse_payload radio_of
  parse_payload-ne-fault payload = ground arith

  checked_payload-ne-fault :
      (bytes : List ℕ) (size : Option ℕ)
      → size ≢ none
      → checked_payload valid_ipv4 bytes size ≢ fault
  unfolding checked_payload
  checked_payload-ne-fault bytes none h = λ e. h refl
  checked_payload-ne-fault bytes (some size) h =
      ground (arith, parse_payload-ne-fault (take size bytes))

  parse_class-ne-fault :
      (packet : List ℕ) (header packet_size class_low : ℕ)
      → packet_size ≤ length packet
      → parse_class valid_ipv4 packet header packet_size (some class_low) ≢ fault
  unfolding parse_class
  parse_class-ne-fault packet header packet_size class_low h =
      let offset = payload_offset header in
      let bytes = drop offset packet in
      ground (
        arith,
        checked_payload-ne-fault bytes (trimmed_size bytes (packet_size - offset)) (
            trimmed_size-ne-none bytes (packet_size - offset)
              (omega (arith, length-drop offset packet))),
      )

  parse_stream-ne-fault :
      (packet : List ℕ) (header packet_size stream : ℕ)
      → packet_size ≤ length packet
      → 16 ≤ length packet
      → parse_stream valid_ipv4 packet header packet_size (some stream) ≢ fault
  unfolding parse_stream
  parse_stream-ne-fault packet header packet_size stream h l =
      let (w, e) = read_network_word-some packet 12 (omega arith) in
      ground (arith, e, parse_class-ne-fault packet header packet_size w h)

  parse_header-ne-fault :
      (packet : List ℕ) (header : ℕ)
      → 16 ≤ length packet
      → parse_header valid_ipv4 packet (some header) ≢ fault
  unfolding parse_header
  parse_header-ne-fault packet header l =
      let (w, e) = read_network_word-some packet 4 (omega arith) in
      ground (arith, e, parse_stream-ne-fault packet header (header % 2 ^ 16 * 4) w)

  -- parse_packet never reads behind the bytes that were received, whatever they are.
  pub parse_packet-ne-fault : (packet : List ℕ) → parse_packet valid_ipv4 packet ≢ fault
  unfolding parse_packet
  parse_packet-ne-fault packet = elim (Bool-cases (ltb (length packet) 16)) [
    | inl short ↦ rw short (λ e. cc)
    | inr long ↦
        let l : 16 ≤ length packet = ground (arith, long) in
        let (w, e) = read_network_word-some packet 0 (omega arith) in
        rw (long, e) (parse_header-ne-fault packet w l)
  ]
