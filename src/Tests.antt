-- ===== src/Tests.antt =====
-- Test data, and the theorems at work on it.
pub mod Buffers
pub mod Advertisements
pub mod Ring
pub mod Turns
use ble_smoke_detector.Common.{
  ℕ, ◌+◌, ◌^◌, ◌≤◌, ◌<◌, ◌≡◌, refl, true, false, none, some, List, [], ◌∷◌, ◌++◌, length, arith,
  inr, bytes_eq,
}
use ble_smoke_detector.Common.Map.{number_key, string_key, lookup}
use ble_smoke_detector.PacketTypes.{type_message}
use ble_smoke_detector.BinaryReader.{BinaryReader, start_at, read_uint8}
use ble_smoke_detector.Base.{Base, variable_length}
use ble_smoke_detector.TlvLoop.Run.{encode_entries}
use ble_smoke_detector.Message.{
  Message, count_payload, get_payload_length, text_length, write_message, read_message,
  write_packet_payload,
}
use ble_smoke_detector.Message.Wire.{
  Fits, entries, get_payload_length-write_packet_payload, write_packet_payload-eq,
}
use ble_smoke_detector.Message.RoundTrip.{IsSendable, received_message, read_message-write_message}
use ble_smoke_detector.Announce.{Announce, get_announce_hash}
use ble_smoke_detector.MicroMeshPreferences.{
  MicroMeshPreferences, new_preferences, empty_preferences, same_preferences,
}
use ble_smoke_detector.BleConnectionTracker.{BleConnectionTracker, message_at, new_tracker}
use ble_smoke_detector.BleConnectionTracker.Clock.{
  get_time_ms, message_timeout, possibly_update_time_offset,
  get_time_ms-possibly_update_time_offset, possibly_update_time_offset-back,
}
use ble_smoke_detector.BleConnectionTracker.Packets.{
  store_message_and_return_if_new, store_announce_and_return_if_new, update_preferences,
  enqueue_broadcast_packet,
}
use ble_smoke_detector.BleConnectionTracker.Packets.Guards.{
  store_announce_and_return_if_new-known, update_preferences-key, update_preferences-saved,
}
use ble_smoke_detector.BleConnectionTracker.Cleanup.{cleanup_stale_items}
use ble_smoke_detector.BleConnectionTracker.Linked.{IsLinked}
use ble_smoke_detector.ProtocolProcessor.{process_message}
use ble_smoke_detector.ProtocolProcessor.Forwarding.{
  arrived, hopped, process_message-again, process_message-forwards, process_message-last_hop,
}
use ble_smoke_detector.Node.{
  Reachable, generated, queued, cleaned, booted, after, Reachable-IsLinked,
}

-- Three hops to go, from node 42.
abbrev sample_base : Base
sample_base = record {
  malformed = false;
  packet_version = 1;
  packet_type = 2;
  packet_ttl = 3;
  packet_timestamp_ms = 1781273465001;
  packet_flags = 0;
  sending_connection_handle = 0;
  payload_length = 0;
  packet_sender_id = 42;
  packet_recipient_id = 0;
  sender_peer = none;
  route_list = [];
  signature = [];
}

-- With a channel, a flag and a place.
abbrev sample_message : Message
sample_message = record {
  base = sample_base;
  message_id = 1 ∷ 2 ∷ [];
  sender_nickname = [];
  content = 104 ∷ 105 ∷ [];
  reply_id = 0;
  message_flags = 128;
  sender_peer = none;
  channel = 7 ∷ [];
  latitude_i = 0xfffffff0;
  longitude_i = 0;
  altitude = 0;
}

-- The same message on its last hop.
abbrev tired_message : Message
tired_message = record sample_message { base = record sample_base { packet_ttl = 1 } }

sample_Fits : Fits sample_message
sample_Fits = record {
  type = refl;
  message_id = omega arith;
  sender_nickname = omega arith;
  content = omega arith;
  channel = omega arith;
  message_flags = omega arith;
  reply_id = omega arith;
  latitude_i = omega arith;
  longitude_i = omega arith;
  altitude = omega arith;
  spoken = inr refl;
}

sample_length : count_payload sample_message ≡ 20
unfolding count_payload text_length variable_length
sample_length = refl

sample_IsSendable : IsSendable sample_message
sample_IsSendable = record {
  wire = record {
    version = refl;
    type = omega arith;
    ttl = omega arith;
    timestamp = omega arith;
    flags = omega arith;
    sender = omega arith;
    recipient = omega arith;
  };
  fits = sample_Fits;
  unsigned = refl;
  fresh = refl;
  something = omega (arith, sample_length);
}

read_message-write_message_example :
    let bytes = (write_message sample_message []).0 in
    let (version, r) = read_uint8 (start_at 0 (bytes ++ (9 ∷ [])) (length bytes)) in
    let (type, r') = read_uint8 r in
    (version ≡ 1)
    × (type ≡ type_message)
    × ((q : BinaryReader) × (read_message version r' ≡ some (received_message sample_message, q)))
read_message-write_message_example =
    read_message-write_message sample_message sample_IsSendable (9 ∷ [])

get_payload_length-write_packet_payload_example :
    ((get_payload_length sample_message).0 ≡ length (encode_entries (entries sample_message)))
    × (length (write_packet_payload sample_message (0 ∷ []))
        ≡ length {A = ℕ} (0 ∷ []) + (get_payload_length sample_message).0)
get_payload_length-write_packet_payload_example =
    get_payload_length-write_packet_payload sample_message sample_Fits (0 ∷ []) refl

write_packet_payload-eq_example :
    write_packet_payload sample_message (0 ∷ [])
    ≡ (0 ∷ []) ++ encode_entries (entries sample_message)
write_packet_payload-eq_example = write_packet_payload-eq sample_message (0 ∷ []) sample_Fits

nothing_stored : lookup (1 ∷ 2 ∷ []) new_tracker.messages ≡ none
unfolding new_tracker lookup
nothing_stored = refl

process_message-again_example :
    process_message 9 tired_message (process_message 4 sample_message new_tracker)
    ≡ process_message 4 sample_message new_tracker
process_message-again_example =
    process_message-again 4 9 sample_message tired_message new_tracker refl refl

another_id : bytes_eq (1 ∷ 2 ∷ []) (1 ∷ 3 ∷ []) ≡ false
unfolding bytes_eq
another_id = refl

process_message-forwards_example :
    let t' = process_message 4 sample_message new_tracker in
    (lookup (1 ∷ 2 ∷ []) t'.messages ≡ some (hopped 4 sample_message))
    × (t'.broadcast_packets_to_send_list
        ≡ new_tracker.broadcast_packets_to_send_list ++ (message_at (1 ∷ 2 ∷ []) ∷ []))
    × (lookup (1 ∷ 3 ∷ []) t'.messages ≡ lookup (1 ∷ 3 ∷ []) new_tracker.messages)
process_message-forwards_example =
    process_message-forwards 4 sample_message new_tracker (1 ∷ 3 ∷ []) refl nothing_stored
      (omega arith) (omega arith) another_id

process_message-last_hop_example :
    let t' = process_message 4 tired_message new_tracker in
    (lookup (1 ∷ 2 ∷ []) t'.messages ≡ some (arrived 4 tired_message))
    × (t'.broadcast_packets_to_send_list ≡ new_tracker.broadcast_packets_to_send_list)
process_message-last_hop_example =
    process_message-last_hop 4 tired_message new_tracker refl nothing_stored (omega arith)

-- A message is generated, queued, and cleaned up an hour after boot.
abbrev sample_queued : BleConnectionTracker
sample_queued =
    enqueue_broadcast_packet (message_at (1 ∷ 2 ∷ []))
      (store_message_and_return_if_new sample_message new_tracker).1

sample_Reachable : Reachable (cleanup_stale_items 3600000000 sample_queued)
sample_Reachable =
    after sample_queued _
      (after (store_message_and_return_if_new sample_message new_tracker).1 sample_queued
        (after new_tracker _ booted (generated sample_message new_tracker))
        (queued (message_at (1 ∷ 2 ∷ [])) _))
      (cleaned 3600000000 sample_queued)

Reachable-IsLinked_example : IsLinked (cleanup_stale_items 3600000000 sample_queued)
Reachable-IsLinked_example =
    Reachable-IsLinked (cleanup_stale_items 3600000000 sample_queued) sample_Reachable

sample_time : get_time_ms 5000000 new_tracker < 2 ^ 63
unfolding get_time_ms new_tracker
sample_time = omega arith

get_time_ms-possibly_update_time_offset_example :
    let t' = possibly_update_time_offset 5000000 1781273465001 new_tracker in
    (1781273465001 ≤ get_time_ms 5000000 t')
    × (get_time_ms 5000000 t' ≤ 1781273465001 + message_timeout)
get_time_ms-possibly_update_time_offset_example =
    get_time_ms-possibly_update_time_offset 5000000 1781273465001 new_tracker (omega arith)
      sample_time

-- A node that is ten minutes ahead.
abbrev ahead : BleConnectionTracker
ahead = record new_tracker { timestamp_offset_ms = 1781273465001 + 600000 }

ahead_time : get_time_ms 5000000 ahead < 2 ^ 63
unfolding get_time_ms
ahead_time = omega arith

ahead_back :
    get_time_ms 5000000 (possibly_update_time_offset 5000000 1781273465001 ahead)
    < get_time_ms 5000000 ahead
unfolding possibly_update_time_offset get_time_ms
ahead_back = omega arith

possibly_update_time_offset-back_example :
    get_time_ms 5000000 (possibly_update_time_offset 5000000 1781273465001 ahead) + message_timeout
    < get_time_ms 5000000 ahead
possibly_update_time_offset-back_example =
    possibly_update_time_offset-back 5000000 1781273465001 ahead (omega arith) ahead_time ahead_back

abbrev sample_preferences : List ℕ → ℕ → MicroMeshPreferences
sample_preferences key recipient = record {
  base = record sample_base { packet_type = 3; packet_recipient_id = recipient };
  key = key;
  ssid = 5 ∷ [];
  password = [];
  latitude_i = 0;
  longitude_i = 0;
  altitude = 12;
}

abbrev keyed : BleConnectionTracker
keyed = record new_tracker { prefs = sample_preferences (1 ∷ []) 42 }

update_preferences-key_example :
    (update_preferences 42 (sample_preferences (2 ∷ []) 42) true keyed).1.prefs.key
    ≡ keyed.prefs.key
update_preferences-key_example =
    update_preferences-key 42 (sample_preferences (2 ∷ []) 42) true keyed refl

sample_saved :
    (update_preferences 42 (sample_preferences (2 ∷ []) 42) true new_tracker).0
    ≡ some (sample_preferences (2 ∷ []) 42)
unfolding update_preferences new_tracker new_preferences empty_preferences same_preferences bytes_eq
sample_saved = refl

update_preferences-saved_example :
    ((update_preferences 42 (sample_preferences (2 ∷ []) 42) true new_tracker).1.prefs
      ≡ sample_preferences (2 ∷ []) 42)
    × ((sample_preferences (2 ∷ []) 42).base.packet_recipient_id ≡ 42)
    × (true ≡ true)
    × (same_preferences new_tracker.prefs (sample_preferences (2 ∷ []) 42) ≡ false)
update_preferences-saved_example =
    update_preferences-saved 42 (sample_preferences (2 ∷ []) 42) (sample_preferences (2 ∷ []) 42)
      true new_tracker sample_saved

abbrev sample_announce : Announce
sample_announce = record {
  base = record sample_base { packet_type = 1 };
  name = 65 ∷ [];
  noise_public_key = [];
  signing_public_key = [];
  direct_neighbors = [];
  latitude_i = 0;
  longitude_i = 0;
  altitude = 0;
}

-- Five minutes later, under another name.
abbrev renamed_announce : Announce
renamed_announce = record sample_announce {
  base = record sample_base { packet_type = 1; packet_timestamp_ms = 1781273765001 };
  name = 66 ∷ [];
}

abbrev announced_tracker : BleConnectionTracker
announced_tracker = record new_tracker { announces = (7, sample_announce) ∷ [] }

sample_found : lookup 7 announced_tracker.announces ≡ some sample_announce
unfolding lookup
sample_found = refl

store_announce_and_return_if_new-known_example :
    (store_announce_and_return_if_new (λ bytes. 7) renamed_announce announced_tracker).0 ≡ none
unfolding get_announce_hash
store_announce_and_return_if_new-known_example =
    store_announce_and_return_if_new-known (λ bytes. 7) renamed_announce sample_announce
      announced_tracker sample_found
