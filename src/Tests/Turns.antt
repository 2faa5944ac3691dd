-- ===== src/Tests/Turns.antt =====
-- The program of main.cpp at work on a board with id 42.
use ble_smoke_detector.Common.{
  ℕ, ◌<◌, ◌≡◌, ◌≢◌, ◌⊎◌, refl, arith, true, false, none, some, List, [], ◌∷◌, ◌++◌, length, take,
  replicate, bytes_eq,
}
use ble_smoke_detector.Common.Map.{number_key, string_key, lookup}
use ble_smoke_detector.Message.{Message}
use ble_smoke_detector.Base.{
  write_header, write_signature, write_routes, write_recipient, write_payload_length, write_if,
}
use ble_smoke_detector.MicroMeshPreferences.{
  MicroMeshPreferences, new_preferences, write_preferences, count_payload, write_packet_payload,
  empty_preferences,
}
use ble_smoke_detector.BinaryWriter.{write_uint8, write_uint16, write_uint32, write_uint64}
use ble_smoke_detector.BleConnection.{BleConnection, service_uuid_found, hci_role_slave}
use ble_smoke_detector.BleConnectionTracker.{
  BleConnectionTracker, PacketRef, message_at, own_announce, new_tracker,
}
use ble_smoke_detector.BleConnectionTracker.Clock.{build_time_ms, we_have_the_time}
use ble_smoke_detector.BleConnectionTracker.Cleanup.{cleanup_stale_items}
use ble_smoke_detector.BleConnectionTracker.Linked.{IsLinked}
use ble_smoke_detector.BleConnectionTracker.Sending.{
  BluetoothStack, send_packets, connections_exist,
}
use ble_smoke_detector.BleConnectionTracker.Sending.Progress.{
  without_first, send_packets-queue, send_turns, send_turns-empties,
}
use ble_smoke_detector.MainLoop.{Program, new_program}
use ble_smoke_detector.MainLoop.Generate.{
  smoke_seen_string, message_id_of, message_of, reset_flags, generate_message_if_needed,
  gpio_callback, smoke_seen_pin,
}
use ble_smoke_detector.MainLoop.Alarm.{
  queued, generate-again, generate-alarm, gpio_callback-generate, message_id_of-smoke,
}
use ble_smoke_detector.BinaryReader.{start_at, read_uint8}
use ble_smoke_detector.MainLoop.Flash.{
  FlashChip, erased, boot_preferences, save_preferences_to_flash, save_preferences_to_flash-bytes,
  save_preferences_to_flash-whole,
}
use ble_smoke_detector.MainLoop.Turn.{
  Loop, World, Readings, TurnTimes, turn, start_loop, connect_if_due, send_if_due, clean_up_if_due,
  connect_due,
}
use ble_smoke_detector.MainLoop.Events.{connect_to_first_neighbour}
use ble_smoke_detector.MainLoop.PowerOff.{IsUnsent, turn-kept_alive}
use ble_smoke_detector.MainLoop.Timing.{clean_up_if_due-ahead, send_if_due-connect_if_due}
use ble_smoke_detector.Sketch.{get_preferences, put_preferences, get_preferences-put_preferences}
use ble_smoke_detector.MainLoop.Running.{Running, started, went_on, pin_changed, Running-IsLinked}

abbrev ready_stack : BluetoothStack
ready_stack = record {
  request_to_send_notification = λ handle t. 0;
  request_to_write_without_response = λ handle t. 0;
}

-- A client that may be notified.
abbrev client : BleConnection
client = record {
  connection_handle = 64;
  bt_address = 1 ∷ 2 ∷ 3 ∷ 4 ∷ 5 ∷ 6 ∷ [];
  bt_address_type = 0;
  bt_mtu = 200;
  packet_service_start_group_handle = 0;
  packet_service_end_group_handle = 0;
  packet_characteristic_value_handle = 0;
  notification_enabled = true;
  has_data_to_send = false;
  connected = true;
  use_coded_phy = false;
  fail_reason = 0;
  services_found = service_uuid_found;
  rssi = 0;
  role = hci_role_slave;
  last_seen_time = 0;
}

abbrev flat_address : PacketRef → ℕ
flat_address packet = 4096

abbrev client_tracker : BleConnectionTracker
client_tracker = record new_tracker {
  connections = (64, client) ∷ [];
  broadcast_packets_to_send_list = own_announce ∷ message_at (1 ∷ []) ∷ own_announce ∷ [];
}

send_packets-queue_example :
    ((send_packets ready_stack flat_address client_tracker).1.broadcast_packets_to_send_list
      ≡ without_first client_tracker.broadcast_packets_to_send_list)
    × (connections_exist (send_packets ready_stack flat_address client_tracker).1 ≡ true)
send_packets-queue_example = send_packets-queue ready_stack flat_address client_tracker refl

send_turns-empties_example :
    (send_turns 3 ready_stack flat_address client_tracker).broadcast_packets_to_send_list ≡ []
send_turns-empties_example =
    send_turns-empties 3 ready_stack flat_address client_tracker refl (omega arith)

-- The time is known.
abbrev timed_program : Program
timed_program = record new_program {
  connection_tracker = record new_tracker { timestamp_offset_ms = build_time_ms };
}

nothing_known :
    lookup
      (message_of 5000000 42 (gpio_callback smoke_seen_pin true timed_program)).message_id
      timed_program.connection_tracker.messages
    ≡ none
unfolding new_tracker lookup new_program
nothing_known = refl

gpio_callback-generate_example :
    let p' = gpio_callback smoke_seen_pin true timed_program in
    let m = message_of 5000000 42 p' in
    (generate_message_if_needed 5000000 42 p' ≡ queued m (reset_flags p'))
    × ((front : List ℕ) × (m.content ≡ front ++ smoke_seen_string))
gpio_callback-generate_example = gpio_callback-generate 5000000 42 timed_program refl nothing_known

abbrev alarmed_program : Program
alarmed_program = record timed_program { smoke_seen = true }

generate-alarm_example :
    let p' = generate_message_if_needed 5000000 42 alarmed_program in
    ((we_have_the_time alarmed_program.connection_tracker ≡ false) × (p' ≡ alarmed_program))
    ⊎ ((p'.smoke_seen ≡ false)
        × ((m : Message) × (lookup
                (message_of 5000000 42 alarmed_program).message_id
                p'.connection_tracker.messages
              ≡ some m)))
generate-alarm_example = generate-alarm 5000000 42 alarmed_program refl

-- A second alarm in the minute of the first.
abbrev repeated_program : Program
repeated_program = record alarmed_program {
  connection_tracker = record alarmed_program.connection_tracker {
    messages =
        ((message_of 5000000 42 alarmed_program).message_id, message_of 5000000 42 alarmed_program)
        ∷ [];
  };
}

first_known :
    lookup
      (message_of 5000000 42 repeated_program).message_id
      repeated_program.connection_tracker.messages
    ≡ some (message_of 5000000 42 alarmed_program)
unfolding lookup message_of new_program new_tracker bytes_eq
first_known = refl

generate-again_example :
    generate_message_if_needed 5000000 42 repeated_program ≡ reset_flags repeated_program
generate-again_example =
    generate-again 5000000 42 repeated_program (message_of 5000000 42 alarmed_program) refl refl
      first_known

message_id_of-smoke_example :
    message_id_of 1781273460000 42 true true false ≢ message_id_of 1781273460000 42 true false true
message_id_of-smoke_example =
    message_id_of-smoke 1781273460000 1781273460000 42 42 true true false true

abbrev sound_chip : FlashChip
sound_chip = record {
  page_size = 64;
  sector_size = 128;
  erased_well = true;
  programmed_well = true;
}

abbrev old_sector : List ℕ
old_sector = replicate 128 0xff

preferences_length : length (write_preferences new_preferences []).0 ≡ 23
unfolding write_preferences new_preferences write_header write_signature count_payload
    write_packet_payload write_if write_routes write_recipient write_payload_length write_uint8
    write_uint16 write_uint32 write_uint64 empty_preferences
preferences_length = refl

preferences_short : length (write_preferences new_preferences []).0 < 64
preferences_short = omega (arith, preferences_length)

save_preferences_to_flash-bytes_example :
    let data_written = (write_preferences new_preferences []).0 in
    take
      (length data_written)
      (save_preferences_to_flash sound_chip new_preferences (replicate 64 7) old_sector).0
    ≡ data_written
save_preferences_to_flash-bytes_example =
    save_preferences_to_flash-bytes sound_chip new_preferences (replicate 64 7) old_sector
      preferences_short refl refl

save_preferences_to_flash-whole_example :
    let data_written = (write_preferences new_preferences []).0 in
    let sector' =
      (save_preferences_to_flash sound_chip new_preferences (replicate 64 7) old_sector).0 in
    (sector' ≡ old_sector)
    ⊎ ((sector' ≡ erased sound_chip) ⊎ (take (length data_written) sector' ≡ data_written))
save_preferences_to_flash-whole_example =
    save_preferences_to_flash-whole sound_chip new_preferences (replicate 64 7) old_sector

-- The loop just after the start, at one second.
abbrev first_loop : Loop
first_loop = start_loop 1000000 new_program

clean_up_if_due-ahead_example :
    ((clean_up_if_due 1000005 1000006 first_loop).program.connection_tracker
      ≡ cleanup_stale_items 1000005 first_loop.program.connection_tracker)
    × ((clean_up_if_due 1000005 1000006 first_loop).last_cleanup ≡ 1000006)
clean_up_if_due-ahead_example =
    clean_up_if_due-ahead 1000005 1000006 first_loop (omega arith) (omega arith)

-- Five seconds later.
abbrev later_loop : Loop
later_loop = record first_loop { loop_start = 6000000 }

abbrev lone_world : World
lone_world = record {
  my_sender_id = 42;
  stack = ready_stack;
  address = flat_address;
  gap_connect = λ address address_type. 0;
}

abbrev sample_readings : Readings
sample_readings = record {
  connected_at = 6000001;
  announced_at = 6000002;
  restarted_at = 6000003;
  sent_at = 6000004;
}

later_due : connect_due later_loop ≡ true
unfolding new_program
later_due = refl

nobody_there : (connect_to_first_neighbour lone_world.gap_connect later_loop.program).0 ≡ false
unfolding new_program new_tracker connect_to_first_neighbour
nobody_there = refl

send_if_due-connect_if_due_example :
    (send_if_due 6000010 lone_world
      (connect_if_due sample_readings lone_world later_loop)).program.connection_tracker
    ≡ (send_packets ready_stack flat_address later_loop.program.connection_tracker).1
send_if_due-connect_if_due_example =
    send_if_due-connect_if_due 6000010 sample_readings lone_world later_loop later_due nobody_there
      (omega arith) (omega arith)

abbrev scanning_loop : Loop
scanning_loop = record later_loop { program = record new_program { scanning = true } }

-- Half a minute after the start: an alarm is pending and the time is not known.
abbrev half_a_minute : TurnTimes
half_a_minute = record {
  start = 31000000;
  generating = 31000001;
  announcing = 31000002;
  announced = 31000003;
  connecting = record sample_readings { restarted_at = 31000003; sent_at = 31000003 };
  sent = 31000004;
  flashed = 31000005;
  tried_to_off = 31000006;
  scanned = 31000007;
  scan_restarted = 31000008;
  scan_sent = 31000009;
  cleaning = 31000010;
  cleaned = 31000011;
}

abbrev waiting_loop : Loop
waiting_loop = record first_loop { program = record new_program { smoke_seen = true } }

waiting_loop-IsUnsent : IsUnsent waiting_loop.program
unfolding new_program new_tracker
waiting_loop-IsUnsent = record { alarm = refl; untimed = refl; nothing = refl }

turn-kept_alive_example :
    ((turn half_a_minute lone_world waiting_loop).kept_alive ≡ false)
    × ((turn half_a_minute lone_world waiting_loop).program.smoke_seen ≡ true)
turn-kept_alive_example =
    turn-kept_alive half_a_minute lone_world waiting_loop waiting_loop-IsUnsent (omega arith)
      (omega arith)

-- The smoke detector's pin falls.
abbrev pulled_loop : Loop
pulled_loop = record first_loop { program = gpio_callback smoke_seen_pin true first_loop.program }

-- The sector is erased.
nothing_saved : boot_preferences sound_chip 42 old_sector new_tracker ≡ some new_tracker
unfolding boot_preferences read_uint8 start_at
nothing_saved = refl

pulled-Running : Running pulled_loop
unfolding new_program
pulled-Running =
    went_on first_loop pulled_loop
      (started 1000000 sound_chip 42 old_sector new_tracker nothing_saved)
      (pin_changed smoke_seen_pin true first_loop)

Running-IsLinked_example : IsLinked pulled_loop.program.connection_tracker
Running-IsLinked_example = Running-IsLinked pulled_loop pulled-Running

-- With a key and a network's name, both free of 0.
abbrev named_preferences : MicroMeshPreferences
named_preferences = record new_preferences {
  key = 7 ∷ 9 ∷ [];
  ssid = 65 ∷ [];
  password = [];
  altitude = 12;
}

get_preferences-put_preferences_example :
    get_preferences (put_preferences named_preferences) new_preferences ≡ record new_preferences {
      key = named_preferences.key;
      ssid = named_preferences.ssid;
      password = named_preferences.password;
      latitude_i = named_preferences.latitude_i;
      longitude_i = named_preferences.longitude_i;
      altitude = named_preferences.altitude;
    }
get_preferences-put_preferences_example =
    get_preferences-put_preferences named_preferences new_preferences
      ((λ e. omega arith), ((λ e. omega arith), tt)) ((λ e. omega arith), tt) tt
