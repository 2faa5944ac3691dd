-- ===== src/BleConnectionTracker/Cleanup/Neighbours.antt =====
-- What `cleanupStaleItems` of src/BLEPacket/BleConnectionTracker.cpp does to the neighbours once the time
-- is known: neighbours are stamped with the time since boot.
use ble_smoke_detector.Common.{
  ℕ, ◌+◌, ◌/◌, ◌%◌, ◌^◌, ◌≤◌, ◌<◌, ◌≡◌, refl, arith, true, false, not, List, [], ◌∷◌, lt→ltb,
  keep_if, All,
}
use ble_smoke_detector.Common.Map.{Map}
use ble_smoke_detector.BleConnection.{BleConnection}
use ble_smoke_detector.BleConnectionTracker.{BleConnectionTracker}
use ble_smoke_detector.BleConnectionTracker.Clock.{get_time_ms, build_time_ms}
use ble_smoke_detector.BleConnectionTracker.Cleanup.{
  cleanup_stale_items, connection_stale, is_old, ten_minutes_in_ms,
}

-- A neighbour that was seen since boot, and that no connection was made to.
abbrev pub SeenBy : ℕ → List ℕ × BleConnection → Type 0
SeenBy time_us e = (e.1.connected ≡ false) × (e.1.last_seen_time ≤ time_us)

old_at :
    (time_us offset last : ℕ)
    → build_time_ms ≤ offset
    → offset + time_us / 1000 < 2 ^ 64
    → last ≤ time_us
    → is_old ((offset + time_us / 1000) % 2 ^ 64) (last / 1000) ≡ true
old_at time_us offset last known small seen =
    lt→ltb ((last / 1000 + ten_minutes_in_ms) % 2 ^ 64) ((offset + time_us / 1000) % 2 ^ 64)
      (omega arith)

none_kept :
    (now time_us : ℕ) (m : Map (List ℕ) BleConnection)
    → ((last : ℕ) → last ≤ time_us → is_old now (last / 1000) ≡ true)
    → All (SeenBy time_us) m
    → keep_if (λ (e : List ℕ × BleConnection). not (connection_stale now e.1)) m ≡ []
unfolding keep_if
none_kept now time_us [] old seen = refl
none_kept now time_us ((k, c) ∷ m) old ((down, at), seen) =
    rw down (rw (old c.last_seen_time at) (none_kept now time_us m old seen))

-- Once the time since 1970 is known, clean-up forgets each neighbour that is not connected, even one
-- that was seen at this very moment.
pub cleanup_stale_items-available_neighbours :
    (time_us : ℕ) (t : BleConnectionTracker)
    → build_time_ms ≤ t.timestamp_offset_ms
    → t.timestamp_offset_ms + time_us / 1000 < 2 ^ 64
    → All (SeenBy time_us) t.available_neighbours
    → (cleanup_stale_items time_us t).available_neighbours ≡ []
unfolding cleanup_stale_items get_time_ms
cleanup_stale_items-available_neighbours time_us t known small seen =
    none_kept (get_time_ms time_us t) time_us t.available_neighbours
      (λ last. old_at time_us t.timestamp_offset_ms last known small) seen
