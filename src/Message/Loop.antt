-- ===== src/Message/Loop.antt =====
-- The constructor's loop over the entries of a message stores each field.
use ble_smoke_detector.Common.{
  ℕ, ◌<◌, ◌≡◌, refl, sym, ap, subst, ◌∙◌, arith, none, Bool, false, not, ◌==◌, ltb, List, [], ◌∷◌,
  length, is_empty, ◌⊎◌, inl, inr,
}
use mathlib.Core.Path.{ap₂}
use ble_smoke_detector.PacketTypes.{
  tlv_message_id, tlv_message_content, tlv_message_location_latitude,
  tlv_message_location_longitude, tlv_message_location_altitude, tlv_message_flags,
  tlv_message_reply_to_id, tlv_message_sender_nickname, tlv_message_channel_content,
  tlv_message_channel,
}
use ble_smoke_detector.BinaryReader.Reads.{
  Reads, Reads-store, Reads-read_data, Reads-read_uint8, Reads-read_uint32, Reads-read_int32,
  bytes32,
}
use ble_smoke_detector.Base.{Base}
use ble_smoke_detector.TlvLoop.Run.{optional, Applies, Run, stop, step, Run-append, Run-optional}
use ble_smoke_detector.Message.{
  Message, empty_message, get_payload_length, message_tlv, read_value, store_data,
}
use ble_smoke_detector.Message.Wire.{Fits, entries, string_entry, word_entry, text_entries}

is_empty-nil : (v : List ℕ) → not (is_empty v) ≡ false → v ≡ []
is_empty-nil [] e = refl
is_empty-nil (x ∷ v) e = cc

module _ (b : Base) (len : ℕ) (fine : b.malformed ≡ false) (known : b.payload_length ≡ len)
    (pos : 0 < len) where
  knows : (a : Message) → a.base ≡ b → get_payload_length a ≡ (len, a)
  unfolding get_payload_length
  knows a e =
      let l : a.base.payload_length ≡ len = ap (λ (c : Base). c.payload_length) e ∙ known in
      ground arith

  applies :
      (t : ℕ) (v : List ℕ) (a d : Message)
      → d.base ≡ b
      → Reads (read_value t (length v) a) v d
      → Applies message_tlv len (t, v) a d
  unfolding message_tlv
  applies t v a d e h = record {
    value = h;
    fine = ap (λ (c : Base). c.malformed) e ∙ fine;
    known = knows d e;
  }

  -- One field stored, or left at its initial value.
  field_Run :
      (cond : Bool) (t : ℕ) (v : List ℕ) (a d : Message)
      → d.base ≡ b
      → Reads (read_value t (length v) a) v d
      → (cond ≡ false → a ≡ d)
      → Run message_tlv len (optional cond (t, v)) a d
  field_Run cond t v a d e h skipped =
      Run-optional message_tlv len cond (t, v) a d (λ _. applies t v a d e h) skipped

  positive_word : (v : ℕ) → not (v == 0) ≡ false → 0 ≡ v
  positive_word v h = ground arith

  unset_number : (v : ℕ) → ltb 0 v ≡ false → 0 ≡ v
  unset_number v h = ground arith

  text_Run :
      (channel content : List ℕ) (a : Message)
      → a.base ≡ b
      → a.channel ≡ []
      → a.content ≡ []
      → (channel ≡ []) ⊎ (is_empty content ≡ false)
      → Run message_tlv len
          (text_entries channel content)
          a
          (record a { channel = channel; content = content })
  unfolding text_entries read_value store_data
  text_Run [] [] a e hc ht spoken =
      subst (λ d. Run message_tlv len [] a d)
        (ap₂ (λ c t. record a { channel = c; content = t }) hc ht) stop
  text_Run (c ∷ channel) [] a e hc ht (inl q) = cc
  text_Run (c ∷ channel) [] a e hc ht (inr q) = cc
  text_Run [] (x ∷ content) a e hc ht spoken =
      subst (λ d. Run message_tlv len ((tlv_message_content, x ∷ content) ∷ []) a d)
        (ap (λ c. record a { channel = c; content = x ∷ content }) hc)
        (step
          (applies tlv_message_content (x ∷ content) a (record a { content = x ∷ content }) e
            (Reads-store (store_data tlv_message_content a) (Reads-read_data (x ∷ content))))
          stop)
  text_Run (c ∷ channel) (x ∷ content) a e hc ht spoken =
      let named = record a { channel = c ∷ channel } in
      step
        (applies tlv_message_channel (c ∷ channel) a named e
          (Reads-store (store_data tlv_message_channel a) (Reads-read_data (c ∷ channel))))
        (step
          (applies tlv_message_channel_content (x ∷ content) named
            (record named { content = x ∷ content }) e
            (Reads-store (store_data tlv_message_channel_content named)
              (Reads-read_data (x ∷ content))))
          stop)

  module _ (m : Message) (f : Fits m) where
    m0 : Message
    unfolding empty_message
    m0 = empty_message b

    m1 : Message
    unfolding m0
    m1 = record m0 { message_id = m.message_id }

    m2 : Message
    unfolding m1
    m2 = record m1 { sender_nickname = m.sender_nickname }

    m3 : Message
    unfolding m2
    m3 = record m2 { channel = m.channel; content = m.content }

    m4 : Message
    unfolding m3
    m4 = record m3 { message_flags = m.message_flags }

    m5 : Message
    unfolding m4
    m5 = record m4 { reply_id = m.reply_id }

    m6 : Message
    unfolding m5
    m6 = record m5 { latitude_i = m.latitude_i }

    m7 : Message
    unfolding m6
    m7 = record m6 { longitude_i = m.longitude_i }

    -- From the initial values to the fields of `m`, around the header `b`.
    pub entries-Run :
        Run message_tlv len
          (entries m)
          (empty_message b)
          (record m { base = b; sender_peer = none })
    unfolding entries string_entry word_entry read_value store_data bytes32 m7
    entries-Run =
        Run-append message_tlv len
          (field_Run _ tlv_message_id m.message_id m0 m1 refl
            (Reads-store (store_data tlv_message_id m0) (Reads-read_data m.message_id))
            (λ e. ap (λ v. record m0 { message_id = v }) (sym (is_empty-nil m.message_id e))))
          (Run-append message_tlv len
            (field_Run _ tlv_message_sender_nickname m.sender_nickname m1 m2 refl
              (Reads-store (store_data tlv_message_sender_nickname m1)
                (Reads-read_data m.sender_nickname))
              (λ e.
                ap (λ v. record m1 { sender_nickname = v })
                  (sym (is_empty-nil m.sender_nickname e))))
            (Run-append message_tlv len (text_Run m.channel m.content m2 refl refl refl f.spoken) (
              Run-append message_tlv len
                (field_Run _ tlv_message_flags (m.message_flags ∷ []) m3 m4 refl
                  (Reads-store (λ v. record m3 { message_flags = v })
                    (Reads-read_uint8 m.message_flags))
                  (λ e. ap (λ v. record m3 { message_flags = v }) (unset_number m.message_flags e)))
                (Run-append message_tlv len
                  (field_Run _ tlv_message_reply_to_id (bytes32 m.reply_id) m4 m5 refl
                    (Reads-store (λ v. record m4 { reply_id = v })
                      (Reads-read_uint32 m.reply_id f.reply_id))
                    (λ e. ap (λ v. record m4 { reply_id = v }) (unset_number m.reply_id e)))
                  (Run-append message_tlv len
                    (field_Run _ tlv_message_location_latitude (bytes32 m.latitude_i) m5 m6 refl
                      (Reads-store (λ v. record m5 { latitude_i = v })
                        (Reads-read_int32 m.latitude_i f.latitude_i))
                      (λ e. ap (λ v. record m5 { latitude_i = v }) (positive_word m.latitude_i e)))
                    (Run-append message_tlv len
                      (field_Run _ tlv_message_location_longitude (bytes32 m.longitude_i) m6 m7 refl
                        (Reads-store (λ v. record m6 { longitude_i = v })
                          (Reads-read_int32 m.longitude_i f.longitude_i))
                        (λ e.
                          ap (λ v. record m6 { longitude_i = v }) (positive_word m.longitude_i e)))
                      (field_Run _ tlv_message_location_altitude (bytes32 m.altitude) m7 _ refl
                        (Reads-store (λ v. record m7 { altitude = v })
                          (Reads-read_int32 m.altitude f.altitude))
                        (λ e.
                          ap (λ v. record m7 { altitude = v }) (positive_word m.altitude e)))))))))
