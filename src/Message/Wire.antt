-- ===== src/Message/Wire.antt =====
-- The payload of a message as a list of entries: what is written, its length, and what the loop
-- makes of it.
use ble_smoke_detector.Common.{
  ℕ, ◌+◌, ◌%◌, ◌^◌, ◌≤◌, ◌<◌, ◌≡◌, refl, sym, ap, ◌∙◌, arith, Bool, false, not, ◌&&◌, ◌==◌, ltb,
  if◌then◌else◌, true, List, [], ◌∷◌, ◌++◌, length, length-append, is_empty, inl, inr, ◌⊎◌,
}
use ble_smoke_detector.PacketTypes.{
  type_announce, tlv_announce_direct_neighbors, type_message, tlv_message_id, tlv_message_content,
  tlv_message_location_latitude, tlv_message_location_longitude, tlv_message_location_altitude,
  tlv_message_flags, tlv_message_reply_to_id, tlv_message_sender_nickname,
  tlv_message_channel_content, tlv_message_channel,
}
use ble_smoke_detector.BinaryReader.Reads.{bytes32}
use ble_smoke_detector.Base.{
  write_if, count_if, write_variable_string, write_variable_int32, write_variable_uint32,
  write_variable_uint8, variable_length,
}
use ble_smoke_detector.Base.Variables.{
  write_variable_string-eq, write_variable_uint32-eq, write_variable_int32-eq,
  write_variable_uint8-eq, variable_length-eq, write_if-eq, count_if-eq,
}
use ble_smoke_detector.TlvLoop.Run.{Entry, entry_bytes, encode_entries, encode-append, optional}
use ble_smoke_detector.Message.{
  Message, count_payload, get_payload_length, text_length, write_text, write_packet_payload,
}
use mathlib.Core.List.{append_assoc, append-nil}

-- The fields fit their places in an entry. A channel goes over the wire only beside a content.
pub record Fits (m : Message) : Type 0 where
  pub type : m.base.packet_type ≡ type_message
  pub message_id : length m.message_id ≤ 255
  pub sender_nickname : length m.sender_nickname ≤ 255
  pub content : length m.content ≤ 255
  pub channel : length m.channel ≤ 255
  pub message_flags : m.message_flags < 256
  pub reply_id : m.reply_id < 2 ^ 32
  pub latitude_i : m.latitude_i < 2 ^ 32
  pub longitude_i : m.longitude_i < 2 ^ 32
  pub altitude : m.altitude < 2 ^ 32
  pub spoken : (m.channel ≡ []) ⊎ (is_empty m.content ≡ false)

unfoldable pub string_entry : ℕ → List ℕ → List Entry
string_entry t v = optional (not (is_empty v)) (t, v)

unfoldable pub word_entry : ℕ → ℕ → List Entry
word_entry t v = optional (not (v == 0)) (t, bytes32 v)

unfoldable pub text_entries : List ℕ → List ℕ → List Entry
text_entries channel [] = []
text_entries [] (x ∷ content) = (tlv_message_content, x ∷ content) ∷ []
text_entries (c ∷ channel) (x ∷ content) =
    (tlv_message_channel, c ∷ channel) ∷ (tlv_message_channel_content, x ∷ content) ∷ []

-- In the order in which they are written.
unfoldable pub entries : Message → List Entry
entries m =
    string_entry tlv_message_id m.message_id
    ++ (string_entry tlv_message_sender_nickname m.sender_nickname
        ++ (text_entries m.channel m.content
            ++ (optional (ltb 0 m.message_flags) (tlv_message_flags, m.message_flags ∷ [])
                ++ (optional (ltb 0 m.reply_id) (tlv_message_reply_to_id, bytes32 m.reply_id)
                    ++ (word_entry tlv_message_location_latitude m.latitude_i
                        ++ (word_entry tlv_message_location_longitude m.longitude_i
                            ++ word_entry tlv_message_location_altitude m.altitude))))))

module _ (t : ℕ) (ht : t < 256) where
  string_written :
      (v : List ℕ)
      → length v ≤ 255
      → (out : List ℕ)
      → write_if (not (is_empty v)) (write_variable_string t v) out
        ≡ out ++ encode_entries (string_entry t v)
  unfolding string_entry
  string_written v hv out = write_if-eq _ _ (t, v) out (write_variable_string-eq t v out ht hv)

  word_written :
      (v : ℕ) (out : List ℕ)
      → write_if (not (v == 0)) (write_variable_int32 t v) out
        ≡ out ++ encode_entries (word_entry t v)
  unfolding word_entry
  word_written v out = write_if-eq _ _ (t, bytes32 v) out (write_variable_int32-eq t v out ht)

  reply_written :
      (v : ℕ) (out : List ℕ)
      → write_if (ltb 0 v) (write_variable_uint32 t v) out
        ≡ out ++ encode_entries (optional (ltb 0 v) (t, bytes32 v))
  reply_written v out = write_if-eq _ _ (t, bytes32 v) out (write_variable_uint32-eq t v out ht)

  flags_written :
      (v : ℕ)
      → v < 256
      → (out : List ℕ)
      → write_if (ltb 0 v) (write_variable_uint8 t v) out
        ≡ out ++ encode_entries (optional (ltb 0 v) (t, v ∷ []))
  flags_written v hv out =
      let byte : v % 256 ≡ v = omega arith in
      write_if-eq _ _ (t, v ∷ []) out
        (write_variable_uint8-eq t v out ht ∙ ap (λ n. out ++ entry_bytes (t, n ∷ [])) byte)

text_written :
    (m : Message) (channel content out : List ℕ)
    → length channel ≤ 255
    → length content ≤ 255
    → write_text (record m { channel = channel; content = content }) out
      ≡ out ++ encode_entries (text_entries channel content)
unfolding write_text text_entries encode_entries
text_written m [] [] out hc ht = sym (append-nil out)
text_written m (c ∷ channel) [] out hc ht = sym (append-nil out)
text_written m [] (x ∷ content) out hc ht =
    write_variable_string-eq tlv_message_content (x ∷ content) out (omega arith) ht
    ∙ ap (λ l. out ++ l) (sym (append-nil _))
text_written m (c ∷ channel) (x ∷ content) out hc ht =
    write_variable_string-eq tlv_message_channel_content (x ∷ content) _ (omega arith) ht
    ∙ ap (λ l. l ++ entry_bytes (tlv_message_channel_content, x ∷ content))
        (write_variable_string-eq tlv_message_channel (c ∷ channel) out (omega arith) hc)
    ∙ simp (append_assoc, append-nil)

-- The payload is the entries, one after the other.
pub write_packet_payload-eq :
    (m : Message) (out : List ℕ)
    → Fits m
    → write_packet_payload m out ≡ out ++ encode_entries (entries m)
unfolding write_packet_payload entries
write_packet_payload-eq m out f = simp (
  word_written tlv_message_location_altitude (omega arith) m.altitude,
  word_written tlv_message_location_longitude (omega arith) m.longitude_i,
  word_written tlv_message_location_latitude (omega arith) m.latitude_i,
  reply_written tlv_message_reply_to_id (omega arith) m.reply_id,
  flags_written tlv_message_flags (omega arith) m.message_flags f.message_flags,
  λ (o : List ℕ). text_written m m.channel m.content o f.channel f.content,
  string_written tlv_message_sender_nickname (omega arith) m.sender_nickname f.sender_nickname,
  string_written tlv_message_id (omega arith) m.message_id f.message_id,
  encode-append,
  append_assoc,
)

first_of_second :
    (b : Bool) (k n : ℕ) (m m' : Message)
    → b ≡ false
    → (if◌then◌else◌ {A = ℕ × Message} b (k, m) (n, m')).0 ≡ n
first_of_second true k n m m' h = absurd cc
first_of_second false k n m m' h = refl

module _ (m : Message) (f : Fits m) where
  other :
      (t : ℕ)
      → (m.base.packet_type == type_announce) && (t == tlv_announce_direct_neighbors) ≡ false
  other t = rw f.type refl

  string_counted :
      (t : ℕ) (v : List ℕ)
      → length v ≤ 255
      → count_if (not (is_empty v)) (variable_length m.base t (length v))
        ≡ length (encode_entries (string_entry t v))
  unfolding string_entry
  string_counted t v hv = count_if-eq _ _ (t, v) (variable_length-eq m.base t v (other t) hv)

  number_counted :
      (cond : Bool) (t : ℕ) (v : List ℕ)
      → length v ≤ 255
      → count_if cond (variable_length m.base t (length v))
        ≡ length (encode_entries (optional cond (t, v)))
  number_counted cond t v hv =
      count_if-eq cond _ (t, v) (variable_length-eq m.base t v (other t) hv)

  text_counted :
      (channel content : List ℕ)
      → (channel ≡ []) ⊎ (is_empty content ≡ false)
      → length channel ≤ 255
      → length content ≤ 255
      → text_length (record m { channel = channel; content = content })
        ≡ length (encode_entries (text_entries channel content))
  unfolding text_length text_entries encode_entries
  text_counted [] [] spoken hc ht = refl
  text_counted (c ∷ channel) [] (inl e) hc ht = cc
  text_counted (c ∷ channel) [] (inr e) hc ht = cc
  text_counted [] (x ∷ content) spoken hc ht =
      variable_length-eq m.base tlv_message_content (x ∷ content) (other tlv_message_content) ht
      ∙ ap length (sym (append-nil (entry_bytes (tlv_message_content, x ∷ content))))
  text_counted (c ∷ channel) (x ∷ content) spoken hc ht = omega (
    arith,
    variable_length-eq m.base tlv_message_channel (c ∷ channel) (other tlv_message_channel) hc,
    variable_length-eq m.base tlv_message_channel_content (x ∷ content)
        (other tlv_message_channel_content) ht,
    length-append (entry_bytes (tlv_message_channel, c ∷ channel))
        (entry_bytes (tlv_message_channel_content, x ∷ content) ++ []),
    length-append (entry_bytes (tlv_message_channel_content, x ∷ content)) [],
  )

  -- What a message that was not yet measured counts is what it writes.
  pub count_payload-eq : count_payload m ≡ length (encode_entries (entries m))
  unfolding count_payload entries word_entry bytes32
  count_payload-eq =
      simp (encode-append, length-append)
        (omega (
          arith,
          string_counted tlv_message_id m.message_id f.message_id,
          string_counted tlv_message_sender_nickname m.sender_nickname f.sender_nickname,
          text_counted m.channel m.content f.spoken f.channel f.content,
          number_counted (ltb 0 m.message_flags) tlv_message_flags (m.message_flags ∷ [])
              (omega arith),
          number_counted (ltb 0 m.reply_id) tlv_message_reply_to_id (bytes32 m.reply_id)
              (omega arith),
          number_counted (not (m.latitude_i == 0)) tlv_message_location_latitude
              (bytes32 m.latitude_i) (omega arith),
          number_counted (not (m.longitude_i == 0)) tlv_message_location_longitude
              (bytes32 m.longitude_i) (omega arith),
          number_counted (not (m.altitude == 0)) tlv_message_location_altitude (bytes32 m.altitude)
              (omega arith),
        ))

  -- The payload length that a message announces, when its fields fit and it was not yet measured, is the number
  -- of bytes of its entries as they are on the wire, and by so many its payload makes what is written longer.
  pub get_payload_length-write_packet_payload :
      (out : List ℕ)
      → m.base.payload_length ≡ 0
      → ((get_payload_length m).0 ≡ length (encode_entries (entries m)))
        × (length (write_packet_payload m out) ≡ length out + (get_payload_length m).0)
  unfolding get_payload_length
  get_payload_length-write_packet_payload out new =
      let counted : (get_payload_length m).0 ≡ length (encode_entries (entries m)) =
        first_of_second (ltb 0 m.base.payload_length) m.base.payload_length (count_payload m) m _
          (rw new refl)
        ∙ count_payload-eq in
      (
        counted,
        ap length (write_packet_payload-eq m out f)
            ∙ length-append out (encode_entries (entries m))
            ∙ ap (λ n. length out + n) (sym counted),
      )
