-- ===== src/ProtocolProcessor/Linked.antt =====
-- A packet that a neighbour wrote, `processWrite` of src/BLEPacket/ProtocolProcessor.cpp, keeps what the
-- tracker knows and its lists linked.
use ble_smoke_detector.Common.{
  ℕ, ◌+◌, ◌-◌, ◌%◌, ◌^◌, ◌&&◌, not, is_empty, bytes_eq, ◌≡◌, refl, Bool, true, ◌||◌, Option, none,
  some, List, ◌==◌, ltb, leb, Option-cases, Bool-cases, inl, inr,
}
use ble_smoke_detector.Common.Map.{number_key, lookup}
use ble_smoke_detector.PacketTypes.{type_announce, type_message, type_micro_mesh_preferences}
use ble_smoke_detector.BinaryReader.{BinaryReader, start_at, read_uint8}
use ble_smoke_detector.Base.{set_packet_ttl, set_sending_connection_handle}
use ble_smoke_detector.Peer.{update_name, set_connection_handle}
use ble_smoke_detector.Announce.{Announce, read_announce}
use ble_smoke_detector.Message.{Message, read_message}
use ble_smoke_detector.MicroMeshPreferences.{
  MicroMeshPreferences, read_preferences, same_preferences,
}
use ble_smoke_detector.BleConnection.{BleConnection}
use ble_smoke_detector.BleConnectionTracker.{BleConnectionTracker, PacketRef}
use ble_smoke_detector.BleConnectionTracker.Clock.{
  possibly_update_time_offset, get_time_ms, message_timeout, int64_abs,
}
use ble_smoke_detector.BleConnectionTracker.Packets.{
  base_of, set_base, check_sender_in_peers, store_message_and_return_if_new,
  store_announce_and_return_if_new, update_preferences,
}
use ble_smoke_detector.BleConnectionTracker.Linked.{Keeps, Keeps-same, Keeps-trans}
use ble_smoke_detector.BleConnectionTracker.Linked.Stores.{
  Keeps-lists, Keeps-set_base, Keeps-check_sender_in_peers, Keeps-store_message_and_return_if_new,
  Keeps-store_announce_and_return_if_new, Keeps-enqueue_broadcast_packet_from, Points-base_of,
}
use ble_smoke_detector.ProtocolProcessor.{
  at_peer, prefer_route, update_or_store_peer_name_from_announcement, forward_stored,
  forward_if_new, process_message, process_announce, Outcome, announce_outcome, message_outcome,
  preferences_outcome, dispatch, process_write,
}

Keeps-prefer_route :
    (sender ttl handle : ℕ) (t : BleConnectionTracker) → Keeps t (prefer_route sender ttl handle t)
unfolding prefer_route at_peer
Keeps-prefer_route sender ttl handle t = elim (Option-cases (lookup sender t.peers)) [
  | inl e ↦ rw (e, prefer_route) (Keeps-same t)
  | inr (peer, e) ↦
      rw (e, prefer_route)
        (elim (Bool-cases (leb peer.max_ttl ttl)) [
          | inl better ↦ rw better (Keeps-lists t _ refl refl refl refl refl refl refl)
          | inr worse ↦ rw worse (Keeps-same t)
        ])
]

pub Keeps-update_or_store_peer_name :
    (announce : Announce) (handle : ℕ) (t : BleConnectionTracker)
    → Keeps t (update_or_store_peer_name_from_announcement announce handle t)
unfolding update_or_store_peer_name_from_announcement at_peer
Keeps-update_or_store_peer_name announce handle t =
    let sender = announce.base.packet_sender_id in
    let known = check_sender_in_peers sender t in
    let named =
      at_peer sender (λ p. update_name announce.name (set_connection_handle handle p)) known in
    Keeps-trans t known _ (Keeps-check_sender_in_peers sender t) (
      Keeps-trans known named _ (Keeps-lists known named refl refl refl refl refl refl refl)
        (Keeps-prefer_route sender announce.base.packet_ttl handle named))

pub Keeps-forward_stored :
    (packet : PacketRef) (t : BleConnectionTracker) → Keeps t (forward_stored packet t)
unfolding forward_stored
Keeps-forward_stored packet t = elim (Option-cases (base_of t packet)) [
  | inl gone ↦ rw (gone, forward_stored) (Keeps-same t)
  | inr (b, e) ↦
      rw (e, forward_stored)
        (elim (Bool-cases (ltb 1 b.packet_ttl)) [
          | inr last ↦ rw last (Keeps-same t)
          | inl hop ↦ rw hop (
              let hopped = set_base packet (set_packet_ttl (b.packet_ttl - 1)) t in
              let known = check_sender_in_peers b.packet_sender_id hopped in
              let keeps : Keeps t known =
                Keeps-trans t hopped known (Keeps-set_base packet _ t)
                  (Keeps-check_sender_in_peers b.packet_sender_id hopped) in
              Keeps-trans t known _ keeps (
                Keeps-enqueue_broadcast_packet_from packet b.packet_sender_id known
                  (keeps.points packet (Points-base_of t packet b e))))
        ])
]

pub Keeps-forward_if_new :
    (t : BleConnectionTracker) (found : Option PacketRef × BleConnectionTracker)
    → Keeps t found.1
    → Keeps t (forward_if_new found)
unfolding forward_if_new
Keeps-forward_if_new t (none, t') k = k
Keeps-forward_if_new t (some packet, t') k = Keeps-trans t t' _ k (Keeps-forward_stored packet t')

pub Keeps-process_message :
    (handle : ℕ) (m : Message) (t : BleConnectionTracker) → Keeps t (process_message handle m t)
unfolding process_message
Keeps-process_message handle m t =
    let sent = record m { base = set_sending_connection_handle handle m.base } in
    Keeps-forward_if_new t (store_message_and_return_if_new sent t)
      (Keeps-store_message_and_return_if_new sent t)

Keeps-possibly_update_time_offset :
    (time_us timestamp : ℕ) (t : BleConnectionTracker)
    → Keeps t (possibly_update_time_offset time_us timestamp t)
unfolding possibly_update_time_offset
Keeps-possibly_update_time_offset time_us timestamp t =
    let now = get_time_ms time_us t in
    elim (Bool-cases (
      ltb message_timeout (int64_abs ((timestamp + 2 ^ 64 - now) % 2 ^ 64)) || ltb now timestamp)) [
        | inl moved ↦ rw moved (Keeps-lists t _ refl refl refl refl refl refl refl)
        | inr kept ↦ rw kept (Keeps-same t)
      ]

pub Keeps-process_announce :
    (hash : List ℕ → ℕ) (time_us handle : ℕ) (a : Announce) (t : BleConnectionTracker)
    → Keeps t (process_announce hash time_us handle a t)
unfolding process_announce
Keeps-process_announce hash time_us handle a t =
    let sent = record a { base = set_sending_connection_handle handle a.base } in
    let known = update_or_store_peer_name_from_announcement sent handle t in
    let timed = possibly_update_time_offset time_us sent.base.packet_timestamp_ms known in
    Keeps-forward_if_new t (store_announce_and_return_if_new hash sent timed) (
      Keeps-trans t known _ (Keeps-update_or_store_peer_name sent handle t) (
        Keeps-trans known timed _ (Keeps-possibly_update_time_offset time_us _ known)
          (Keeps-store_announce_and_return_if_new hash sent timed)))

pub Keeps-update_preferences :
    (my_sender_id : ℕ) (p : MicroMeshPreferences) (save : Bool) (t : BleConnectionTracker)
    → Keeps t (update_preferences my_sender_id p save t).1
unfolding update_preferences
Keeps-update_preferences my_sender_id p save t =
    elim (Bool-cases (p.base.packet_recipient_id == my_sender_id)) [
      | inr other ↦ rw other (Keeps-same t)
      | inl ours ↦
          rw ours
            (elim (Bool-cases (not (is_empty t.prefs.key) && not (bytes_eq t.prefs.key p.key))) [
              | inl wrong ↦ rw wrong (Keeps-same t)
              | inr right ↦ rw right (elim (Bool-cases (same_preferences t.prefs p && save)) [
                | inl same ↦ rw same (Keeps-same t)
                | inr new ↦ rw new (Keeps-lists t _ refl refl refl refl refl refl refl)
              ])
            ])
    ]

-- The tracker of an outcome.
KeepsOutcome : BleConnectionTracker → Option Outcome → Type 0
KeepsOutcome t none = Unit {0}
KeepsOutcome t (some (saved, t')) = Keeps t t'

Keeps-announce_outcome :
    (hash : List ℕ → ℕ) (time_us handle : ℕ) (t : BleConnectionTracker)
    (read : Option (Announce × BinaryReader))
    → KeepsOutcome t (announce_outcome hash time_us handle t read)
unfolding announce_outcome KeepsOutcome
Keeps-announce_outcome hash time_us handle t none = tt
Keeps-announce_outcome hash time_us handle t (some (a, r)) =
    Keeps-process_announce hash time_us handle a t

Keeps-message_outcome :
    (handle : ℕ) (t : BleConnectionTracker) (read : Option (Message × BinaryReader))
    → KeepsOutcome t (message_outcome handle t read)
unfolding message_outcome KeepsOutcome
Keeps-message_outcome handle t none = tt
Keeps-message_outcome handle t (some (m, r)) = Keeps-process_message handle m t

Keeps-preferences_outcome :
    (my_sender_id : ℕ) (t : BleConnectionTracker)
    (read : Option (MicroMeshPreferences × BinaryReader))
    → KeepsOutcome t (preferences_outcome my_sender_id t read)
unfolding preferences_outcome KeepsOutcome
Keeps-preferences_outcome my_sender_id t none = tt
Keeps-preferences_outcome my_sender_id t (some (p, r)) =
    Keeps-update_preferences my_sender_id p true t

module _ (hash : List ℕ → ℕ) (time_us my_sender_id : ℕ) (c : BleConnection) where
  Keeps-dispatch :
      (version type : ℕ) (r : BinaryReader) (t : BleConnectionTracker)
      → KeepsOutcome t (dispatch hash time_us my_sender_id c version type r t)
  unfolding dispatch KeepsOutcome
  Keeps-dispatch version type r t = elim (Bool-cases (type == type_announce)) [
    | inl a ↦
        rw a (Keeps-announce_outcome hash time_us c.connection_handle t (read_announce version r))
    | inr not_a ↦ rw not_a (elim (Bool-cases (type == type_message)) [
      | inl m ↦ rw m (Keeps-message_outcome c.connection_handle t (read_message version r))
      | inr not_m ↦ rw not_m (elim (Bool-cases (type == type_micro_mesh_preferences)) [
        | inl p ↦ rw p (Keeps-preferences_outcome my_sender_id t (read_preferences version r))
        | inr not_p ↦ rw not_p (Keeps-same t)
      ])
    ])
  ]

  Keeps-outcome :
      (offset : ℕ) (buffer : List ℕ) (buffer_size : ℕ) (t : BleConnectionTracker)
      → KeepsOutcome t (process_write hash time_us my_sender_id c offset buffer buffer_size t)
  unfolding process_write KeepsOutcome
  Keeps-outcome offset buffer buffer_size t =
      let (version, r) = read_uint8 (start_at offset buffer buffer_size) in
      let (type, r') = read_uint8 r in
      elim (Bool-cases (ltb version 1 || ltb 2 version)) [
        | inl unknown ↦ rw unknown (Keeps-same t)
        | inr known ↦ rw known (Keeps-dispatch version type r' t)
      ]

  pub Keeps-process_write :
      (offset : ℕ) (buffer : List ℕ) (buffer_size : ℕ) (t t' : BleConnectionTracker)
      (saved : Option MicroMeshPreferences)
      → process_write hash time_us my_sender_id c offset buffer buffer_size t ≡ some (saved, t')
      → Keeps t t'
  unfolding KeepsOutcome
  Keeps-process_write offset buffer buffer_size t t' saved e =
      let k = Keeps-outcome offset buffer buffer_size t in rw e at k
