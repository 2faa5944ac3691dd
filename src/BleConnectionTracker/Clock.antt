-- ===== src/BleConnectionTracker/Clock.antt =====
-- The clock of the tracker in src/BLEPacket/BleConnectionTracker.cpp: the time since 1970 is an offset
-- and the time since boot; the offset is learnt from announcements.
use ble_smoke_detector.Common.{
  ℕ, ◌+◌, ◌-◌, ◌*◌, ◌/◌, ◌%◌, ◌^◌, ◌≤◌, ◌<◌, Bool, ◌||◌, ltb, leb, if◌then◌else◌, arith,
}
use ble_smoke_detector.BleConnectionTracker.{BleConnectionTracker}

abbrev pub build_time_ms : ℕ
build_time_ms = 1781273465 * 1000

abbrev pub message_timeout : ℕ
message_timeout = 300000

-- `getTimeMs`, a uint64_t; `time_us` is what `time_us_64()` returns.
unfoldable pub get_time_ms : ℕ → BleConnectionTracker → ℕ
get_time_ms time_us t = (t.timestamp_offset_ms + time_us / 1000) % 2 ^ 64

abbrev pub we_have_the_time : BleConnectionTracker → Bool
we_have_the_time t = leb build_time_ms t.timestamp_offset_ms

-- `llabs` of an int64_t that is given by its bit pattern.
abbrev pub int64_abs : ℕ → ℕ
int64_abs diff = if ltb diff (2 ^ 63) then diff else 2 ^ 64 - diff

-- `diff` is an int64_t, by its bit pattern.
unfoldable pub possibly_update_time_offset : ℕ → ℕ → BleConnectionTracker → BleConnectionTracker
unfolding get_time_ms
possibly_update_time_offset time_us timestamp_ms t =
    let our_now = get_time_ms time_us t in
    let diff = (timestamp_ms + 2 ^ 64 - our_now) % 2 ^ 64 in
    if ltb message_timeout (int64_abs diff) || ltb our_now timestamp_ms
    then record t { timestamp_offset_ms = (t.timestamp_offset_ms + diff) % 2 ^ 64 }
    else t

-- Once a timestamp was taken into account, the clock is not behind it, and at most five minutes ahead
-- of it, provided that both readings are below 2 ^ 63 ms.
pub get_time_ms-possibly_update_time_offset :
    (time_us timestamp_ms : ℕ) (t : BleConnectionTracker)
    → timestamp_ms < 2 ^ 63
    → get_time_ms time_us t < 2 ^ 63
    → let t' = possibly_update_time_offset time_us timestamp_ms t in
      (timestamp_ms ≤ get_time_ms time_us t')
      × (get_time_ms time_us t' ≤ timestamp_ms + message_timeout)
unfolding possibly_update_time_offset get_time_ms
get_time_ms-possibly_update_time_offset time_us timestamp_ms t hs hn = ground arith

-- The clock moves back only by more than five minutes: no message of the last five minutes can be
-- outrun by a step of the clock.
pub possibly_update_time_offset-back :
    (time_us timestamp_ms : ℕ) (t : BleConnectionTracker)
    → timestamp_ms < 2 ^ 63
    → get_time_ms time_us t < 2 ^ 63
    → get_time_ms time_us (possibly_update_time_offset time_us timestamp_ms t)
      < get_time_ms time_us t
    → get_time_ms time_us (possibly_update_time_offset time_us timestamp_ms t) + message_timeout
      < get_time_ms time_us t
unfolding possibly_update_time_offset get_time_ms
possibly_update_time_offset-back time_us timestamp_ms t hs hn back = ground arith
