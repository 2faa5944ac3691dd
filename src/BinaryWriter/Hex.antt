-- ===== src/BinaryWriter/Hex.antt =====
-- Hexadecimal digits: `hexify` of src/BLEPacket/BinaryWriter.cpp and `de_hexify` of BinaryReader.cpp.
use ble_smoke_detector.Common.{ℕ, ◌+◌, ◌<◌, ◌≡◌, arith, ltb, if◌then◌else◌}
use ble_smoke_detector.BinaryReader.{de_hexify}
use ble_smoke_detector.BinaryWriter.{hexify}

-- A written digit under 10 is read as itself; each digit from a to f is read as 32 too much.
pub de_hexify-hexify : (n : ℕ) → n < 16 → de_hexify (hexify n) ≡ (if ltb n 10 then n else n + 32)
unfolding de_hexify hexify
de_hexify-hexify n h = ground arith
