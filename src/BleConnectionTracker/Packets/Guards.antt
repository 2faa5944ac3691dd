-- ===== src/BleConnectionTracker/Packets/Guards.antt =====
-- Who may change what in the stores of src/BLEPacket/BleConnectionTracker.cpp.
use ble_smoke_detector.Common.{
  ℕ, ◌≡◌, refl, Bool, true, false, none, some, List, ltb, is_empty, bytes_eq_refl, bytes_eq_sound,
  Bool-cases, inl, inr, arith,
}
use ble_smoke_detector.Common.Map.{number_key, lookup, lookup-insert_self}
use ble_smoke_detector.Announce.{Announce, get_announce_hash}
use ble_smoke_detector.MicroMeshPreferences.{MicroMeshPreferences, same_preferences}
use ble_smoke_detector.BleConnectionTracker.{BleConnectionTracker}
use ble_smoke_detector.BleConnectionTracker.Packets.{
  replace_announce, store_announce_and_return_if_new, update_preferences,
}

replace_announce-known :
    (id : ℕ) (a : Announce) (t : BleConnectionTracker) → (replace_announce id a true t).0 ≡ none
unfolding replace_announce
replace_announce-known id a t =
    rw (lookup-insert_self id a t.announces, replace_announce) (rw (bytes_eq_refl a.name) refl)

-- An announcement under a known hash is never handed on as new, whatever its name and its timestamp
-- are: a device that is renamed is not announced again by its neighbours.
pub store_announce_and_return_if_new-known :
    (hash : List ℕ → ℕ) (a found : Announce) (t : BleConnectionTracker)
    → lookup (get_announce_hash hash a) t.announces ≡ some found
    → (store_announce_and_return_if_new hash a t).0 ≡ none
unfolding store_announce_and_return_if_new
store_announce_and_return_if_new-known hash a found t e = elim (Bool-cases a.base.malformed) [
  | inl bad ↦ rw bad refl
  | inr ok ↦ rw ok (
      rw (e, store_announce_and_return_if_new)
        (elim (Bool-cases (ltb found.base.packet_timestamp_ms a.base.packet_timestamp_ms)) [
          | inl newer ↦ rw newer (replace_announce-known (get_announce_hash hash a) a t)
          | inr older ↦ rw older refl
        ]))
]

-- A key that was set can not be changed by preferences from anywhere.
pub update_preferences-key :
    (my_sender_id : ℕ) (p : MicroMeshPreferences) (save : Bool) (t : BleConnectionTracker)
    → is_empty t.prefs.key ≡ false
    → (update_preferences my_sender_id p save t).1.prefs.key ≡ t.prefs.key
unfolding update_preferences
update_preferences-key my_sender_id p save t keyed =
    ground (arith, bytes_eq_sound t.prefs.key p.key)

-- What is handed to be saved is what the tracker then works with; it was sent to this node, saving was
-- asked for, and the settings differ from those before.
pub update_preferences-saved :
    (my_sender_id : ℕ) (p saved : MicroMeshPreferences) (save : Bool) (t : BleConnectionTracker)
    → (update_preferences my_sender_id p save t).0 ≡ some saved
    → ((update_preferences my_sender_id p save t).1.prefs ≡ saved)
      × (saved.base.packet_recipient_id ≡ my_sender_id)
      × (save ≡ true)
      × (same_preferences t.prefs saved ≡ false)
unfolding update_preferences
update_preferences-saved my_sender_id p saved save t e = ground arith
