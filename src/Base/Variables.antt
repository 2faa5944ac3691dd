-- ===== src/Base/Variables.antt =====
-- `writeVariable` writes one entry, and `variableLength` counts its bytes.
use ble_smoke_detector.Common.{
  ℕ, ◌%◌, ◌≤◌, ◌<◌, ◌≡◌, refl, sym, ap, ◌∙◌, arith, Bool, true, false, ◌&&◌, ◌==◌, min, List, [],
  ◌∷◌, ◌++◌, length,
}
use ble_smoke_detector.PacketTypes.{type_announce, tlv_announce_direct_neighbors}
use ble_smoke_detector.BinaryReader.Reads.{bytes32}
use ble_smoke_detector.BinaryWriter.Bytes.{
  write_uint8-eq, write_uint32-eq, write_int32-eq, write_data-eq,
}
use ble_smoke_detector.TlvLoop.Run.{Entry, entry_bytes, encode_entries, optional}
use ble_smoke_detector.Base.{
  Base, variable_length, write_variable_string, write_variable_uint32, write_variable_int32,
  write_variable_uint8, write_if, count_if,
}
use mathlib.Core.List.{append_assoc, append-nil}

pub write_variable_string-eq :
    (t : ℕ) (v out : List ℕ)
    → t < 256
    → length v ≤ 255
    → write_variable_string t v out ≡ out ++ entry_bytes (t, v)
unfolding write_variable_string
write_variable_string-eq t v out ht hv =
    let whole : min 255 (length v) % 256 ≡ length v = omega arith in
    let byte : length v % 256 ≡ length v = omega arith in
    let type : t % 256 ≡ t = omega arith in
    rw (whole, write_data-eq v (length v) _ (omega arith))
      (simp (write_uint8-eq, byte, type, append_assoc))

pub write_variable_uint32-eq :
    (t v : ℕ) (out : List ℕ)
    → t < 256
    → write_variable_uint32 t v out ≡ out ++ entry_bytes (t, bytes32 v)
unfolding write_variable_uint32 bytes32
write_variable_uint32-eq t v out ht =
    let type : t % 256 ≡ t = omega arith in
    simp (write_uint32-eq, write_uint8-eq, type, append_assoc)

pub write_variable_int32-eq :
    (t v : ℕ) (out : List ℕ)
    → t < 256
    → write_variable_int32 t v out ≡ out ++ entry_bytes (t, bytes32 v)
unfolding write_variable_int32 bytes32
write_variable_int32-eq t v out ht =
    let type : t % 256 ≡ t = omega arith in
    simp (write_int32-eq, write_uint8-eq, type, append_assoc)

pub write_variable_uint8-eq :
    (t v : ℕ) (out : List ℕ)
    → t < 256
    → write_variable_uint8 t v out ≡ out ++ entry_bytes (t, (v % 256) ∷ [])
unfolding write_variable_uint8
write_variable_uint8-eq t v out ht =
    let type : t % 256 ≡ t = omega arith in simp (write_uint8-eq, type, append_assoc)

-- For every entry but a list of neighbours.
pub variable_length-eq :
    (b : Base) (t : ℕ) (v : List ℕ)
    → (b.packet_type == type_announce) && (t == tlv_announce_direct_neighbors) ≡ false
    → length v ≤ 255
    → variable_length b t (length v) ≡ length (entry_bytes (t, v))
unfolding variable_length
variable_length-eq b t v other h = rw other (omega arith)

pub write_if-eq :
    (cond : Bool) (write : List ℕ → List ℕ) (e : Entry) (out : List ℕ)
    → write out ≡ out ++ entry_bytes e
    → write_if cond write out ≡ out ++ encode_entries (optional cond e)
unfolding write_if encode_entries
write_if-eq true write e out h = h ∙ ap (λ l. out ++ l) (sym (append-nil (entry_bytes e)))
write_if-eq false write e out h = sym (append-nil out)

pub count_if-eq :
    (cond : Bool) (n : ℕ) (e : Entry)
    → n ≡ length (entry_bytes e)
    → count_if cond n ≡ length (encode_entries (optional cond e))
unfolding encode_entries
count_if-eq true n e h = h ∙ ap length (sym (append-nil (entry_bytes e)))
count_if-eq false n e h = refl
