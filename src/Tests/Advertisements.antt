-- ===== src/Tests/Advertisements.antt =====
-- What a node on a board with id 42 advertises, and an iterator over the entries of an advertisement.
use ble_smoke_detector.Common.{
  ℕ, ◌+◌, ◌≤◌, ◌≡◌, refl, arith, List, [], ◌∷◌, ◌++◌, length, take, bytes_eq, zero, suc, ◌-◌, ap,
  ◌∙◌, if◌then◌else◌,
}
use ble_smoke_detector.Common.Map.{number_key, string_key}
use ble_smoke_detector.BinaryWriter.{write_uint64}
use ble_smoke_detector.BleConnection.{service_uuid_found, service_uuid_and_name_found}
use ble_smoke_detector.BleConnectionTracker.Connections.{service_name}
use ble_smoke_detector.MainLoop.Advertising.{
  populate_advertising_data, no_advertisement, advertising_max_length, check_for_uuid,
  populate-fits, flags_type, general_discovery_flags, incomplete_uuids_type,
  packet_service_uuid_reversed, packet_service_name, name_type, AdElement,
}
use ble_smoke_detector.MainLoop.Advertising.Heard.{AdIterator, check_for_uuid-populate}

populate-fits_example :
    let a = populate_advertising_data 0x21 service_name 42 [] no_advertisement in
    (a.adv_data
      ≡ (2 ∷ flags_type ∷ general_discovery_flags ∷ [])
        ++ (17 ∷ incomplete_uuids_type ∷ packet_service_uuid_reversed)
        ++ ((8 + 1) ∷ name_type 8 13 ∷ take 8 service_name))
    × ((a.scan_response_data
          ≡ (25 ∷ 0x21 ∷ packet_service_uuid_reversed) ++ take 8 (write_uint64 42 []))
        × ((length a.adv_data ≤ advertising_max_length)
            × (length a.scan_response_data ≤ advertising_max_length)))
populate-fits_example = populate-fits 0x21 service_name 42 [] (omega arith)

-- An iterator: the entry at hand, then over so many bytes to the next one.
walk : ℕ → ℕ → List ℕ → List AdElement
walk zero skip memory = []
walk (suc size) skip [] = []
walk (suc size) (suc skip) (byte ∷ rest) = walk size skip rest
walk (suc size) zero (len ∷ []) = []
walk (suc size) zero (len ∷ data_type ∷ rest) = (data_type, rest) ∷ walk size len (data_type ∷ rest)

walk-skipped :
    (size : ℕ) (content rest : List ℕ)
    → length content ≤ size
    → walk size (length content) (content ++ rest) ≡ walk (size - length content) 0 rest
unfolding walk
walk-skipped size [] rest h = let e : size ≡ size - 0 = omega arith in ap (λ n. walk n 0 rest) e
walk-skipped zero (x ∷ content) rest h = absurd (omega arith)
walk-skipped (suc size) (x ∷ content) rest h =
    let e : size - length content ≡ suc size - suc (length content) = omega arith in
    walk-skipped size content rest (omega arith) ∙ ap (λ n. walk n 0 rest) e

walk-entry :
    (size data_type : ℕ) (content rest : List ℕ)
    → length content + 2 ≤ size
    → walk size 0 ((length content + 1) ∷ data_type ∷ content ++ rest)
      ≡ (data_type, content ++ rest) ∷ walk (size - (length content + 2)) 0 rest
unfolding walk
walk-entry zero data_type content rest h = absurd (omega arith)
walk-entry (suc size) data_type content rest h =
    let one : length content + 1 ≡ suc (length content) = omega arith in
    let e : size - suc (length content) ≡ suc size - (length content + 2) = omega arith in
    ap (λ l. (data_type, content ++ rest) ∷ l)
      (ap (λ k. walk size k (data_type ∷ content ++ rest)) one
        ∙ walk-skipped size (data_type ∷ content) rest (omega arith)
        ∙ ap (λ n. walk n 0 rest) e)

walk-end : (memory : List ℕ) → walk 0 0 memory ≡ []
unfolding walk
walk-end memory = refl

abbrev walking : AdIterator
walking = record {
  elements = λ size memory. walk size 0 memory;
  of_entry = walk-entry;
  at_end = walk-end;
}

check_for_uuid-populate_example :
    let a = populate_advertising_data 0x21 service_name 42 [] no_advertisement in
    check_for_uuid (walking.elements (length a.adv_data) (a.adv_data ++ (0 ∷ []))) ≡ (
      if bytes_eq packet_service_name (take 8 (take 8 service_name ++ (0 ∷ [])))
      then service_uuid_and_name_found
      else service_uuid_found)
check_for_uuid-populate_example =
    check_for_uuid-populate walking 0x21 42 service_name [] (0 ∷ []) (omega arith)
