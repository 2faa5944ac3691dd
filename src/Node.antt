-- ===== src/Node.antt =====
-- A node at work: the operations of src/BLEPacket/BleConnectionTracker.cpp and ProtocolProcessor.cpp in
-- any order, as the callbacks and the loop of main.cpp call them.
use ble_smoke_detector.Common.{ℕ, ◌≡◌, Bool, Option, some, List}
use ble_smoke_detector.Message.{Message}
use ble_smoke_detector.MicroMeshPreferences.{MicroMeshPreferences}
use ble_smoke_detector.BleConnection.{BleConnection, ServiceCheck}
use ble_smoke_detector.BleConnectionTracker.{BleConnectionTracker, PacketRef, new_tracker}
use ble_smoke_detector.BleConnectionTracker.Packets.{
  store_message_and_return_if_new, enqueue_targeted_packet, enqueue_broadcast_packet,
  update_preferences,
}
use ble_smoke_detector.BleConnectionTracker.Connections.{
  add_available_peer, report_connection_with_role, report_connection_failure, report_disconnection,
  set_connection_started, announce_to_connections,
}
use ble_smoke_detector.BleConnectionTracker.Cleanup.{cleanup_stale_items}
use ble_smoke_detector.BleConnectionTracker.Cleanup.Dangling.{cleanup_stale_items-IsLinked}
use ble_smoke_detector.BleConnectionTracker.RawPackets.{HandedOver, notify_raw_packet}
use ble_smoke_detector.BleConnectionTracker.Sending.{
  BluetoothStack, send_packets, write_raw_packet, get_any_duplicate_handle,
}
use ble_smoke_detector.BleConnectionTracker.Sending.Links.{Keeps-send_packets}
use ble_smoke_detector.BleConnectionTracker.Sending.Queues.{
  Keeps-notify_raw_packet, Keeps-write_raw_packet, Keeps-get_any_duplicate_handle,
}
use ble_smoke_detector.BleConnectionTracker.Linked.{IsLinked}
use ble_smoke_detector.BleConnectionTracker.Linked.Stores.{
  Keeps-store_message_and_return_if_new, Keeps-enqueue_targeted_packet,
  Keeps-enqueue_broadcast_packet,
}
use ble_smoke_detector.BleConnectionTracker.Linked.Links.{
  Keeps-report_connection_with_role, Keeps-report_disconnection, Keeps-announce_to_connections,
  Keeps-add_available_peer, Keeps-set_connection_started, Keeps-report_connection_failure,
}
use ble_smoke_detector.ProtocolProcessor.{process_write}
use ble_smoke_detector.ProtocolProcessor.Linked.{Keeps-process_write, Keeps-update_preferences}

-- One call, at any time and with any arguments.
pub data Step : BleConnectionTracker → BleConnectionTracker → Type 0 where
  seen :
      (time_us : ℕ) (address : List ℕ) (address_type : ℕ) (services : ServiceCheck) (rssi : ℕ)
      (use_coded : Bool) (t : BleConnectionTracker)
      → Step t (add_available_peer time_us address address_type services rssi use_coded t)
  started :
      (address : List ℕ) (t : BleConnectionTracker) → Step t (set_connection_started address t)
  connected :
      (time_us handle : ℕ) (address : List ℕ) (address_type role : ℕ) (t : BleConnectionTracker)
      → Step t (report_connection_with_role time_us handle address address_type role t)
  failed :
      (address : List ℕ) (reason : ℕ) (t : BleConnectionTracker)
      → Step t (report_connection_failure address reason t)
  disconnected : (handle : ℕ) (t : BleConnectionTracker) → Step t (report_disconnection handle t)
  written :
      (hash : List ℕ → ℕ) (time_us my_sender_id : ℕ) (c : BleConnection) (offset : ℕ)
      (buffer : List ℕ) (buffer_size : ℕ) (t t' : BleConnectionTracker)
      (saved : Option MicroMeshPreferences)
      → process_write hash time_us my_sender_id c offset buffer buffer_size t ≡ some (saved, t')
      → Step t t'
  generated :
      (m : Message) (t : BleConnectionTracker) → Step t (store_message_and_return_if_new m t).1
  queued :
      (packet : PacketRef) (t : BleConnectionTracker) → Step t (enqueue_broadcast_packet packet t)
  targeted :
      (packet : PacketRef) (handle : ℕ) (t : BleConnectionTracker)
      → Step t (enqueue_targeted_packet packet handle t)
  announced :
      (time_us sender : ℕ) (t : BleConnectionTracker)
      → Step t (announce_to_connections time_us sender t)
  configured :
      (my_sender_id : ℕ) (p : MicroMeshPreferences) (save : Bool) (t : BleConnectionTracker)
      → Step t (update_preferences my_sender_id p save t).1
  sent :
      (stack : BluetoothStack) (address : PacketRef → ℕ) (t : BleConnectionTracker)
      → Step t (send_packets stack address t).1
  notified :
      (att_server_notify : HandedOver → Bool) (handle : ℕ) (t : BleConnectionTracker)
      → Step t (notify_raw_packet att_server_notify handle t).1.1
  put_out :
      (gatt_client_write : HandedOver → Bool) (handle : ℕ) (t : BleConnectionTracker)
      → Step t (write_raw_packet gatt_client_write handle t).1.1
  searched : (t : BleConnectionTracker) → Step t (get_any_duplicate_handle t).1
  cleaned : (time_us : ℕ) (t : BleConnectionTracker) → Step t (cleanup_stale_items time_us t)

-- The states of a node since it was switched on.
pub data Reachable : BleConnectionTracker → Type 0 where
  booted : Reachable new_tracker
  after : (t t' : BleConnectionTracker) → Reachable t → Step t t' → Reachable t'

Step-IsLinked : (t t' : BleConnectionTracker) → Step t t' → IsLinked t → IsLinked t'
Step-IsLinked _ _ (seen time_us address address_type services rssi use_coded t) h =
    (Keeps-add_available_peer time_us address address_type services rssi use_coded t).linked h
Step-IsLinked _ _ (started address t) h = (Keeps-set_connection_started address t).linked h
Step-IsLinked _ _ (connected time_us handle address address_type role t) h =
    (Keeps-report_connection_with_role time_us handle address address_type role t).linked h
Step-IsLinked _ _ (failed address reason t) h =
    (Keeps-report_connection_failure address reason t).linked h
Step-IsLinked _ _ (disconnected handle t) h = (Keeps-report_disconnection handle t).linked h
Step-IsLinked _ _ (written hash time_us my_sender_id c offset buffer buffer_size t t' saved e) h =
    (Keeps-process_write hash time_us my_sender_id c offset buffer buffer_size t t' saved e).linked
      h
Step-IsLinked _ _ (generated m t) h = (Keeps-store_message_and_return_if_new m t).linked h
Step-IsLinked _ _ (queued packet t) h = (Keeps-enqueue_broadcast_packet packet t).linked h
Step-IsLinked _ _ (targeted packet handle t) h =
    (Keeps-enqueue_targeted_packet packet handle t).linked h
Step-IsLinked _ _ (announced time_us sender t) h =
    (Keeps-announce_to_connections time_us sender t).linked h
Step-IsLinked _ _ (configured my_sender_id p save t) h =
    (Keeps-update_preferences my_sender_id p save t).linked h
Step-IsLinked _ _ (sent stack address t) h = (Keeps-send_packets stack address t h).linked h
Step-IsLinked _ _ (notified att_server_notify handle t) h =
    (Keeps-notify_raw_packet att_server_notify handle t).linked h
Step-IsLinked _ _ (put_out gatt_client_write handle t) h =
    (Keeps-write_raw_packet gatt_client_write handle t).linked h
Step-IsLinked _ _ (searched t) h = (Keeps-get_any_duplicate_handle t).linked h
Step-IsLinked _ _ (cleaned time_us t) h = cleanup_stale_items-IsLinked time_us t h

new_tracker-IsLinked : IsLinked new_tracker
unfolding new_tracker
new_tracker-IsLinked = record { sent = tt; peers_sent = tt; broadcast = tt; targeted = tt }

-- In every state that a node can reach, each packet and each connection that one of the four lists of
-- packets points to is in the maps: clean-up, disconnection and replacement leave no dangling pointer.
pub Reachable-IsLinked : (t : BleConnectionTracker) → Reachable t → IsLinked t
Reachable-IsLinked _ booted = new_tracker-IsLinked
Reachable-IsLinked _ (after t t' earlier step) =
    Step-IsLinked t t' step (Reachable-IsLinked t earlier)
