-- ===== src/MainLoop/Running.antt =====
-- The program of main.cpp at work: its callbacks, its pins and the turns of its loop in any order.
use ble_smoke_detector.Common.{
  ℕ, ◌≡◌, refl, subst, ◌==◌, ◌&&◌, if◌then◌else◌, Bool, true, false, Option, none, some, List,
}
use ble_smoke_detector.PacketTypes.{type_micro_mesh_preferences}
use ble_smoke_detector.BinaryReader.{BinaryReader, start_at, read_uint8}
use ble_smoke_detector.MicroMeshPreferences.{MicroMeshPreferences, read_preferences}
use ble_smoke_detector.Common.Map.{string_key}
use ble_smoke_detector.BleConnectionTracker.{BleConnectionTracker, new_tracker}
use ble_smoke_detector.BleConnectionTracker.RawPackets.{HandedOver, notify_raw_packet}
use ble_smoke_detector.BleConnectionTracker.Sending.{write_raw_packet}
use ble_smoke_detector.BleConnectionTracker.Linked.{IsLinked}
use ble_smoke_detector.BleConnectionTracker.Sending.Queues.{
  Keeps-notify_raw_packet, Keeps-write_raw_packet,
}
use ble_smoke_detector.MainLoop.{Program, with_tracker, new_program}
use ble_smoke_detector.MainLoop.Generate.{gpio_callback}
use ble_smoke_detector.MainLoop.Events.{
  Profile, Host, att_read_callback, att_write_callback, GattEvent, handle_gatt_client_event,
  handle_gatt_client_value_update_event, HciEvent, hci_packet_handler, AttEvent, att_packet_handler,
  stop_scan_handler,
}
use ble_smoke_detector.MainLoop.Turn.{Loop, World, TurnTimes, turn, start_loop}
use ble_smoke_detector.BleConnectionTracker.Packets.{update_preferences}
use ble_smoke_detector.ProtocolProcessor.Linked.{Keeps-update_preferences}
use ble_smoke_detector.MainLoop.Flash.{FlashChip, boot_preferences, take_preferences}
use ble_smoke_detector.MainLoop.Invariant.{
  Grows-att_write_callback, Grows-value_update, Grows-handle_gatt_client_event,
  Grows-hci_packet_handler, Grows-att_packet_handler,
}
use ble_smoke_detector.MainLoop.Sound.{IsSound, IsSound-same, turn-IsSound}

-- What may happen next: a callback of the stack, a pin, or a turn of the loop.
pub data Happens : Loop → Loop → Type 0 where
  read_by_client :
      (profile : Profile) (handle : ℕ) (l : Loop)
      → Happens l (record l { program = (att_read_callback profile handle l.program).1 })
  written_by_client :
      (profile : Profile) (host : Host) (connection_handle att_handle : ℕ) (transaction : Bool)
      (offset : ℕ) (buffer : List ℕ) (buffer_size : ℕ) (saved : Option MicroMeshPreferences)
      (p' : Program) (l : Loop)
      → att_write_callback profile host connection_handle att_handle transaction offset buffer
          buffer_size l.program
        ≡ some (saved, p')
      → Happens l (record l { program = p' })
  notified_by_server :
      (host : Host) (notification : Option (ℕ × List ℕ)) (saved : Option MicroMeshPreferences)
      (p' : Program) (l : Loop)
      → handle_gatt_client_value_update_event host notification l.program ≡ some (saved, p')
      → Happens l (record l { program = p' })
  gatt_event :
      (event : GattEvent) (l : Loop)
      → Happens l (record l { program = (handle_gatt_client_event event l.program).1 })
  hci_event :
      (time_us : ℕ) (event : HciEvent) (l : Loop)
      → Happens l (record l { program = hci_packet_handler time_us event l.program })
  att_event :
      (time_us : ℕ) (event : AttEvent) (l : Loop)
      → Happens l (record l { program = att_packet_handler time_us event l.program })
  may_notify :
      (att_server_notify : HandedOver → Bool) (handle : ℕ) (l : Loop)
      → Happens l (record l {
        program =
            with_tracker
              (notify_raw_packet att_server_notify handle l.program.connection_tracker).1.1
              l.program;
      })
  may_write :
      (gatt_client_write : HandedOver → Bool) (handle : ℕ) (l : Loop)
      → Happens l (record l {
        program =
            with_tracker
              (write_raw_packet gatt_client_write handle l.program.connection_tracker).1.1
              l.program;
      })
  scan_ended : (l : Loop) → Happens l (record l { program = stop_scan_handler l.program })
  pin_changed :
      (gpio : ℕ) (edge_fall : Bool) (l : Loop)
      → Happens l (record l { program = gpio_callback gpio edge_fall l.program })
  turned : (at : TurnTimes) (w : World) (l : Loop) → Happens l (turn at w l)

-- The states of the program since it was started at some time, with the preferences in its flash memory.
pub data Running : Loop → Type 0 where
  started :
      (now : ℕ) (chip : FlashChip) (my_sender_id : ℕ) (sector : List ℕ) (t : BleConnectionTracker)
      → boot_preferences chip my_sender_id sector new_tracker ≡ some t
      → Running (start_loop now (with_tracker t new_program))
  went_on : (l l' : Loop) → Running l → Happens l l' → Running l'

Happens-IsSound : (l l' : Loop) → Happens l l' → IsSound l → IsSound l'
unfolding att_read_callback gpio_callback
Happens-IsSound _ _ (read_by_client profile handle l) h = IsSound-same l _ refl h
Happens-IsSound _ _ (written_by_client profile host c a transaction offset buffer size saved p' l e)
      h =
    record {
      linked =
          (Grows-att_write_callback profile host c a transaction offset buffer size l.program saved
              p' e).linked
            h.linked;
    }
Happens-IsSound _ _ (notified_by_server host notification saved p' l e) h = record {
  linked = (Grows-value_update host notification l.program saved p' e).linked h.linked;
}
Happens-IsSound _ _ (gatt_event event l) h = record {
  linked = (Grows-handle_gatt_client_event event l.program).linked h.linked;
}
Happens-IsSound _ _ (hci_event time_us event l) h = record {
  linked = (Grows-hci_packet_handler time_us event l.program).linked h.linked;
}
Happens-IsSound _ _ (att_event time_us event l) h = record {
  linked = (Grows-att_packet_handler time_us event l.program).linked h.linked;
}
Happens-IsSound _ _ (may_notify att_server_notify handle l) h = record {
  linked =
      (Keeps-notify_raw_packet att_server_notify handle l.program.connection_tracker).linked
        h.linked;
}
Happens-IsSound _ _ (may_write gatt_client_write handle l) h = record {
  linked =
      (Keeps-write_raw_packet gatt_client_write handle l.program.connection_tracker).linked
        h.linked;
}
Happens-IsSound _ _ (scan_ended l) h = IsSound-same l _ refl h
Happens-IsSound _ _ (pin_changed gpio edge_fall l) h = IsSound-same l _ refl h
Happens-IsSound _ _ (turned at w l) h = turn-IsSound at w l h

new_tracker-IsLinked : IsLinked new_tracker
unfolding new_tracker
new_tracker-IsLinked = record { sent = tt; peers_sent = tt; broadcast = tt; targeted = tt }

either-IsLinked :
    (b : Bool) (o : Option BleConnectionTracker) (t t' : BleConnectionTracker)
    → IsLinked t
    → (o ≡ some t' → IsLinked t')
    → (if b then o else some t) ≡ some t'
    → IsLinked t'
either-IsLinked true o t t' h k e = k e
either-IsLinked false o t t' h k e = let same : t ≡ t' = cc in subst IsLinked same h

take_preferences-IsLinked :
    (my_sender_id : ℕ) (t t' : BleConnectionTracker)
    (read : Option (MicroMeshPreferences × BinaryReader))
    → IsLinked t
    → take_preferences my_sender_id t read ≡ some t'
    → IsLinked t'
unfolding take_preferences
take_preferences-IsLinked my_sender_id t t' none h e = absurd cc
take_preferences-IsLinked my_sender_id t t' (some (preferences, r)) h e =
    let updated = (update_preferences my_sender_id preferences false t).1 in
    either-IsLinked preferences.base.malformed (some t) updated t'
      ((Keeps-update_preferences my_sender_id preferences false t).linked h)
      (λ e'. let same : t ≡ t' = cc in subst IsLinked same h) e

-- Reading the preferences from flash memory links nothing.
boot_preferences-IsLinked :
    (chip : FlashChip) (my_sender_id : ℕ) (sector : List ℕ) (t t' : BleConnectionTracker)
    → IsLinked t
    → boot_preferences chip my_sender_id sector t ≡ some t'
    → IsLinked t'
unfolding boot_preferences
boot_preferences-IsLinked chip my_sender_id sector t t' h e =
    let (version, r) = read_uint8 (start_at 0 sector chip.sector_size) in
    let (prefs_type, r') = read_uint8 r in
    either-IsLinked ((version == 1) && (prefs_type == type_micro_mesh_preferences))
      (take_preferences my_sender_id t (read_preferences version r')) t t' h
      (take_preferences-IsLinked my_sender_id t t' (read_preferences version r') h) e

Running-IsSound : (l : Loop) → Running l → IsSound l
Running-IsSound _ (started now chip my_sender_id sector t e) = record {
  linked = boot_preferences-IsLinked chip my_sender_id sector new_tracker t new_tracker-IsLinked e;
}
Running-IsSound _ (went_on l l' before next) = Happens-IsSound l l' next (Running-IsSound l before)

-- Whatever the flash memory held at the start, and however the callbacks of the Bluetooth stack, the pins and the turns of the loop follow each other, in every
-- state of the program each packet and each connection that the four lists of packets point to is in the maps.
pub Running-IsLinked : (l : Loop) → Running l → IsLinked l.program.connection_tracker
Running-IsLinked l running = (Running-IsSound l running).linked
