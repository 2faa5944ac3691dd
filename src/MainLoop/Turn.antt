-- ===== src/MainLoop/Turn.antt =====
-- The loop of `main` in main.cpp, by its parts. Each reading of `time_us_64()` is an argument; the
-- differences of readings are of type uint64_t. The LED and the pause at the end have no counterpart but
-- for the time of the last flash.
use ble_smoke_detector.Common.{
  ℕ, ◌+◌, ◌-◌, ◌*◌, ◌%◌, ◌^◌, Bool, true, false, ◌&&◌, ◌||◌, not, List, ltb, ◌==◌, if◌then◌else◌,
}
use ble_smoke_detector.BleConnectionTracker.{BleConnectionTracker, PacketRef}
use ble_smoke_detector.BleConnectionTracker.Clock.{we_have_the_time}
use ble_smoke_detector.BleConnectionTracker.Packets.{have_packets_to_send}
use ble_smoke_detector.BleConnectionTracker.Connections.{announce_to_connections}
use ble_smoke_detector.BleConnectionTracker.Cleanup.{cleanup_stale_items}
use ble_smoke_detector.BleConnectionTracker.Sending.{BluetoothStack, send_packets}
use ble_smoke_detector.MainLoop.{Program, active, with_tracker}
use ble_smoke_detector.MainLoop.Generate.{generate_message_if_needed}
use ble_smoke_detector.MainLoop.Events.{connect_to_first_neighbour, start_scanning_for_local_nodes}

abbrev pub one_second_in_us : ℕ
one_second_in_us = 1000 * 1000

abbrev pub two_seconds_in_us : ℕ
two_seconds_in_us = 1000 * 1000 * 2

abbrev pub three_seconds_in_us : ℕ
three_seconds_in_us = 1000 * 1000 * 3

abbrev pub five_seconds_in_us : ℕ
five_seconds_in_us = 1000 * 1000 * 5

abbrev pub twenty_seconds_in_us : ℕ
twenty_seconds_in_us = 1000 * 1000 * 20

abbrev pub thirty_seconds_in_us : ℕ
thirty_seconds_in_us = 1000 * 1000 * 30

abbrev pub five_minutes_in_us : ℕ
five_minutes_in_us = 1000 * 1000 * 60 * 5

abbrev pub ten_minutes_in_us : ℕ
ten_minutes_in_us = 1000 * 1000 * 60 * 10

-- The local variables of `main`, and whether the pin that keeps the power supply alive is pulled down.
pub record Loop : Type 0 where
  pub program : Program
  pub loop_start : ℕ
  pub last_cleanup : ℕ
  pub boot_time : ℕ
  pub last_try_to_off : ℕ
  pub last_announce : ℕ
  pub last_send_packets : ℕ
  pub last_connection : ℕ
  pub last_flash : ℕ
  pub last_scan : ℕ
  pub last_activity : ℕ
  pub kept_alive : Bool

-- What stands outside the program: the board's id and the stack.
pub record World : Type 0 where
  pub my_sender_id : ℕ
  pub stack : BluetoothStack
  pub address : PacketRef → ℕ
  pub gap_connect : List ℕ → ℕ → ℕ

-- The loop's variables before its first turn, with one reading of the clock for them all.
abbrev pub start_loop : ℕ → Program → Loop
start_loop now p = record {
  program = p;
  loop_start = now;
  last_cleanup = (now + five_minutes_in_us) % 2 ^ 64;
  boot_time = now;
  last_try_to_off = now;
  last_announce = now;
  last_send_packets = now;
  last_connection = now;
  last_flash = 0;
  last_scan = now;
  last_activity = p.global_activity;
  kept_alive = true;
}

-- A difference of two readings.
abbrev pub since : ℕ → ℕ → ℕ
since now before = (now + 2 ^ 64 - before) % 2 ^ 64

abbrev pub announce_due : Loop → Bool
announce_due l =
    not l.program.scanning
    && (we_have_the_time l.program.connection_tracker
        && ltb two_seconds_in_us (since l.loop_start l.last_announce))

abbrev pub announce_now : ℕ → ℕ → World → Loop → Loop
announce_now now after w l = record l {
  program =
      with_tracker (announce_to_connections now w.my_sender_id l.program.connection_tracker)
        l.program;
  last_announce = after;
}

unfoldable pub announce_if_due : ℕ → ℕ → World → Loop → Loop
unfolding announce_to_connections
announce_if_due now after w l = if announce_due l then announce_now now after w l else l

-- The four readings behind `connect_to_first_neighbour`, in their order.
pub record Readings : Type 0 where
  pub connected_at : ℕ
  pub announced_at : ℕ
  pub restarted_at : ℕ
  pub sent_at : ℕ

abbrev pub connect_due : Loop → Bool
connect_due l =
    not l.program.scanning
    && (not l.program.connection_in_progress
        && (ltb three_seconds_in_us (since l.loop_start l.last_connection)
            && (not l.program.discover_primary_services
                && not l.program.discover_characteristics_for_service)))

-- Behind `connect_to_first_neighbour`, with what it returned and made of the program.
abbrev pub attempted : Readings → Loop → Bool → Program → Loop
attempted at l connecting p = record l {
  program = p;
  last_connection = at.connected_at;
  last_announce = if connecting then at.announced_at else l.last_announce;
  loop_start = at.restarted_at;
  last_send_packets = at.sent_at;
}

unfoldable pub connect_if_due : Readings → World → Loop → Loop
unfolding connect_to_first_neighbour
connect_if_due at w l =
    let (connecting, p) = connect_to_first_neighbour w.gap_connect l.program in
    if connect_due l then attempted at l connecting p else l

abbrev pub send_due : Loop → Bool
send_due l =
    not l.program.scanning
    && (not l.program.connection_in_progress
        && ltb one_second_in_us (since l.loop_start l.last_send_packets))

-- Behind `sendPackets`, with what it returned and made of the tracker.
abbrev pub sent_packets : ℕ → Loop → Bool → BleConnectionTracker → Loop
sent_packets after l sent t = record l {
  program = if sent then active (with_tracker t l.program) else with_tracker t l.program;
  last_send_packets = after;
}

unfoldable pub send_if_due : ℕ → World → Loop → Loop
unfolding send_packets
send_if_due after w l =
    let (sent, t) = send_packets w.stack w.address l.program.connection_tracker in
    if send_due l then sent_packets after l sent t else l

abbrev pub flash_due : Loop → Bool
flash_due l =
    ltb (if ltb 0 l.program.conn_count then one_second_in_us else three_seconds_in_us)
      (since l.loop_start l.last_flash)

abbrev pub flash_if_due : ℕ → Loop → Loop
flash_if_due after l = if flash_due l then record l { last_flash = after } else l

abbrev pub try_to_off_due : Loop → Bool
try_to_off_due l = ltb twenty_seconds_in_us (since l.loop_start l.last_try_to_off)

abbrev pub may_turn_off : Loop → Bool
may_turn_off l =
    not (have_packets_to_send l.program.connection_tracker)
    || ltb five_minutes_in_us (since l.loop_start l.boot_time)

-- The power supply is let go, or is tried to be let go again later.
abbrev pub try_to_off : ℕ → Loop → Loop
try_to_off after l =
    if may_turn_off l then record l { kept_alive = false } else record l { last_try_to_off = after }

unfoldable pub turn_off_if_due : ℕ → Loop → Loop
turn_off_if_due after l = if try_to_off_due l then try_to_off after l else l

abbrev pub scan_due : Loop → Bool
scan_due l =
    not l.program.scanning
    && (not l.program.connection_in_progress
        && ltb (if l.program.conn_count == 0 then five_seconds_in_us else thirty_seconds_in_us)
            (since l.loop_start l.last_scan))

abbrev pub scan_now : ℕ → ℕ → ℕ → Loop → Loop
scan_now scanned_at restarted_at sent_at l = record l {
  program = start_scanning_for_local_nodes l.program;
  last_scan = scanned_at;
  loop_start = restarted_at;
  last_send_packets = sent_at;
}

unfoldable pub scan_if_due : ℕ → ℕ → ℕ → Loop → Loop
scan_if_due scanned_at restarted_at sent_at l =
    if scan_due l then scan_now scanned_at restarted_at sent_at l else l

abbrev pub clean_up_due : Loop → Bool
clean_up_due l = ltb ten_minutes_in_us (since l.loop_start l.last_cleanup)

abbrev pub clean_up_now : ℕ → ℕ → Loop → Loop
clean_up_now now after l = record l {
  program = with_tracker (cleanup_stale_items now l.program.connection_tracker) l.program;
  last_cleanup = after;
}

unfoldable pub clean_up_if_due : ℕ → ℕ → Loop → Loop
unfolding cleanup_stale_items
clean_up_if_due now after l = if clean_up_due l then clean_up_now now after l else l

-- The readings of the clock in one turn, each before what follows it.
pub record TurnTimes : Type 0 where
  pub start : ℕ
  pub generating : ℕ
  pub announcing : ℕ
  pub announced : ℕ
  pub connecting : Readings
  pub sent : ℕ
  pub flashed : ℕ
  pub tried_to_off : ℕ
  pub scanned : ℕ
  pub scan_restarted : ℕ
  pub scan_sent : ℕ
  pub cleaning : ℕ
  pub cleaned : ℕ

-- One turn of the loop.
unfoldable pub turn : TurnTimes → World → Loop → Loop
unfolding generate_message_if_needed announce_if_due connect_if_due send_if_due turn_off_if_due
    scan_if_due clean_up_if_due
turn at w l =
    let begun = record l {
      program = generate_message_if_needed at.generating w.my_sender_id l.program;
      loop_start = at.start;
    } in
    let connected =
      connect_if_due at.connecting w (announce_if_due at.announcing at.announced w begun) in
    let off =
      turn_off_if_due at.tried_to_off (flash_if_due at.flashed (send_if_due at.sent w connected)) in
    let cleaned =
      clean_up_if_due at.cleaning at.cleaned
        (scan_if_due at.scanned at.scan_restarted at.scan_sent off) in
    record cleaned { last_activity = cleaned.program.global_activity }
