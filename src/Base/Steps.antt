-- ===== src/Base/Steps.antt =====
-- How far the header's reads in src/BLEPacket/Base.cpp go, for any bytes.
use ble_smoke_detector.Common.{ℕ, zero, suc, ◌+◌, ◌*◌, ◌<◌, arith, ◌&&◌, [], ◌∷◌, ◌==◌}
use ble_smoke_detector.PacketTypes.{packet_flag_has_recipient, packet_flag_has_route}
use ble_smoke_detector.BinaryReader.{read_uint8, read_uint64}
use ble_smoke_detector.BinaryReader.Steps.{
  Steps, Anything, Steps-pure, Steps-more, Steps-if, Steps-bind, Steps-read_uint8,
  Steps-read_uint16, Steps-read_uint32, Steps-read_uint64,
}
use ble_smoke_detector.Base.{
  has_flag, read_route, read_payload_length, read_recipient, read_routes, read_base,
}

Steps-read_route : (count : ℕ) → Steps (count * 8) Anything (read_route count)
unfolding read_route
Steps-read_route zero = Steps-pure Anything [] tt
Steps-read_route (suc count) =
    Steps-more Anything (8 + (count * 8 + 0)) (suc count * 8) _ (omega arith) (
      Steps-bind Anything Anything 8 (count * 8 + 0) read_uint64 _ Steps-read_uint64 (λ hop h.
        Steps-bind Anything Anything (count * 8) 0 (read_route count) _ (Steps-read_route count)
          (λ rest k. Steps-pure Anything (hop ∷ rest) tt)))

Steps-read_payload_length : (version : ℕ) → Steps 4 Anything (read_payload_length version)
unfolding read_payload_length
Steps-read_payload_length version =
    Steps-if Anything 4 (version == 1) _ _
      (Steps-more Anything 2 4 _ (omega arith) Steps-read_uint16)
      (Steps-if Anything 4 (version == 2) _ _ Steps-read_uint32
        (Steps-more Anything 0 4 _ (omega arith) (Steps-pure Anything 0 tt)))

Steps-read_recipient : (flags : ℕ) → Steps 8 Anything (read_recipient flags)
unfolding read_recipient
Steps-read_recipient flags =
    Steps-if Anything 8 (has_flag flags packet_flag_has_recipient) _ _ Steps-read_uint64
      (Steps-more Anything 0 8 _ (omega arith) (Steps-pure Anything 0 tt))

Steps-read_routes : (version flags : ℕ) → Steps 2041 Anything (read_routes version flags)
unfolding read_routes
Steps-read_routes version flags =
    Steps-if Anything 2041 ((version == 2) && has_flag flags packet_flag_has_route) _ _
      (Steps-bind (λ v. v < 256) Anything 1 2040 read_uint8 read_route Steps-read_uint8
        (λ count byte.
          Steps-more Anything (count * 8) 2040 _ (omega arith) (Steps-read_route count)))
      (Steps-more Anything 0 2041 _ (omega arith) (Steps-pure Anything [] tt))

-- A header has at most 2071 bytes behind the type: 255 hops of 8 bytes, and the rest.
pub Steps-read_base : (type version : ℕ) → Steps 2071 Anything (read_base type version)
unfolding read_base
Steps-read_base type version =
    Steps-bind (λ v. v < 256) Anything 1 2070 read_uint8 _ Steps-read_uint8
      (λ ttl h. Steps-bind Anything Anything 8 2062 read_uint64 _ Steps-read_uint64 (λ timestamp h.
        Steps-bind (λ v. v < 256) Anything 1 2061 read_uint8 _ Steps-read_uint8
          (λ flags h.
            Steps-bind Anything Anything 4 2057 (read_payload_length version) _
              (Steps-read_payload_length version)
              (λ len h.
                Steps-bind Anything Anything 8 2049 read_uint64 _ Steps-read_uint64 (λ sender h.
                  Steps-bind Anything Anything 8 2041 (read_recipient flags) _
                    (Steps-read_recipient flags)
                    (λ recipient h.
                      Steps-bind Anything Anything 2041 0 (read_routes version flags) _
                        (Steps-read_routes version flags)
                        (λ routes h. Steps-pure Anything _ tt)))))))
