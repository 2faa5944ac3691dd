-- ===== src/MainLoop.antt =====
-- main.cpp: the program of the Pico, whose global variables are the state here. Log output, the LED, the
-- pins' set-up and the calls that start the Bluetooth stack have no counterpart.
pub mod Generate
pub mod Alarm
pub mod Advertising
pub mod Events
pub mod Flash
pub mod Turn
pub mod Timing
pub mod PowerOff
pub mod Invariant
pub mod Sound
pub mod Running
use ble_smoke_detector.Common.{ℕ, ◌+◌, ◌%◌, ◌^◌, Bool, true, false}
use ble_smoke_detector.BleConnectionTracker.{BleConnectionTracker, new_tracker}

pub record Program : Type 0 where
  pub keep_running : Bool
  pub fresh_boot : Bool
  pub smoke_seen : Bool
  pub life_check : Bool
  pub global_activity : ℕ
  pub conn_count : ℕ
  pub scanning : Bool
  pub connection_in_progress : Bool
  pub discover_primary_services : Bool
  pub discover_characteristics_for_service : Bool
  pub connection_tracker : BleConnectionTracker

unfoldable pub new_program : Program
unfolding new_tracker
new_program = record {
  keep_running = true;
  fresh_boot = true;
  smoke_seen = false;
  life_check = false;
  global_activity = 0;
  conn_count = 0;
  scanning = false;
  connection_in_progress = false;
  discover_primary_services = false;
  discover_characteristics_for_service = false;
  connection_tracker = new_tracker;
}

-- `global_activity++`, a uint16_t.
abbrev pub active : Program → Program
active p = record p { global_activity = (p.global_activity + 1) % 2 ^ 16 }

abbrev pub with_tracker : BleConnectionTracker → Program → Program
with_tracker t p = record p { connection_tracker = t }
