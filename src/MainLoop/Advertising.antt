-- ===== src/MainLoop/Advertising.antt =====
-- Advertising in main.cpp. An advertisement is a run of entries: a length, a type and data. The types of
-- the entries are those of the table `ad_types`; the type of service data is an argument. The iterator
-- over the entries belongs to the Bluetooth stack: its results are arguments.
pub mod Heard
use ble_smoke_detector.Common.{
  ℕ, ◌+◌, ◌-◌, ◌%◌, ◌≤◌, ◌<◌, ◌≡◌, refl, ◌==◌, min, arith, Bool, true, false, ◌||◌, List, [], ◌∷◌,
  ◌++◌, if◌then◌else◌, length, length-append, length-take, take, bytes_eq, zero, suc, ap, ◌∙◌,
}
use ble_smoke_detector.BinaryWriter.{write_uint64}
use ble_smoke_detector.BleConnection.{
  ServiceCheck, service_uuid_not_found, service_uuid_found, service_uuid_and_name_found,
}
use ble_smoke_detector.BleConnectionTracker.Connections.{service_name}

abbrev pub packet_service_uuid_reversed : List ℕ
packet_service_uuid_reversed =
    0xf7 ∷ 0x7e ∷ 0x7f ∷ 0x54 ∷ 0x13 ∷ 0xe5 ∷ 0x74 ∷ 0x8a ∷ 0xee ∷ 0x49 ∷ 0x0d ∷ 0xa1 ∷ 0xca ∷ 0xfe
    ∷ 0x8c ∷ 0x29 ∷ []

-- "Repeater"
abbrev pub packet_service_name : List ℕ
packet_service_name = b'R' ∷ b'e' ∷ b'p' ∷ b'e' ∷ b'a' ∷ b't' ∷ b'e' ∷ b'r' ∷ []

abbrev pub flags_type : ℕ
flags_type = 1

abbrev pub incomplete_uuids_type : ℕ
incomplete_uuids_type = 6

abbrev pub complete_uuids_type : ℕ
complete_uuids_type = 7

abbrev pub shortened_name_type : ℕ
shortened_name_type = 8

abbrev pub complete_name_type : ℕ
complete_name_type = 9

abbrev pub solicited_uuids_type : ℕ
solicited_uuids_type = 21

-- `BLE_FLAGS_LE_ONLY_GENERAL_DISC_MODE`
abbrev pub general_discovery_flags : ℕ
general_discovery_flags = 6

abbrev pub advertising_max_length : ℕ
advertising_max_length = 31

-- `adv_data` and `scan_response_data`, up to their lengths.
pub record Advertisement : Type 0 where
  pub adv_data : List ℕ
  pub scan_response_data : List ℕ

-- `fitable_name_len`, a uint8_t: with `used` bytes before it, and two for its length and its type.
abbrev pub fitable_len : ℕ → ℕ → ℕ
fitable_len used name_len =
    min ((advertising_max_length + 256 - used % 256 - 2) % 256) (name_len % 256)

-- The entries before the name.
abbrev pub leading_entries : List ℕ
leading_entries =
    (2 ∷ flags_type ∷ general_discovery_flags ∷ [])
    ++ (17 ∷ incomplete_uuids_type ∷ [])
    ++ packet_service_uuid_reversed

abbrev pub name_entry : ℕ → List ℕ → List ℕ
name_entry fitable name =
    (fitable + 1) % 256
    ∷ (if fitable == length name % 256 then complete_name_type else shortened_name_type)
    ∷ take fitable name

-- `populate_advertising_data` behind what the arrays hold already, for a name and the board's id.
-- As many bytes of the id are copied as of the name; `behind` is what follows the id in memory.
unfoldable pub populate_advertising_data : ℕ → List ℕ → ℕ → List ℕ → Advertisement → Advertisement
unfolding write_uint64
populate_advertising_data service_data_type name sender behind a =
    let led = a.adv_data ++ leading_entries in
    let fitable = fitable_len (length led) (length name) in
    let service_data = write_uint64 sender [] in
    let sender_id_len = min 11 (length service_data) in
    record {
      adv_data = led ++ name_entry fitable name;
      scan_response_data =
          a.scan_response_data
          ++ ((17 + sender_id_len) ∷ service_data_type ∷ packet_service_uuid_reversed)
          ++ take fitable (service_data ++ behind);
    }

-- What the iterator of the stack gives: types, and what stands in memory from the data on.
abbrev pub AdElement : Type 0
AdElement = ℕ × List ℕ

-- The `switch` of `check_for_uuid`, with `found_uuid` and `found_name`.
unfoldable pub check_element : AdElement → Bool × Bool → Bool × Bool
unfolding bytes_eq
check_element (data_type, memory) (found_uuid, found_name) =
    if (data_type == incomplete_uuids_type)
      || ((data_type == complete_uuids_type) || (data_type == solicited_uuids_type))
    then (bytes_eq packet_service_uuid_reversed (take 16 memory), found_name)
    else if (data_type == shortened_name_type) || (data_type == complete_name_type)
    then (found_uuid, bytes_eq packet_service_name (take 8 memory))
    else (found_uuid, found_name)

unfoldable pub check_elements : List AdElement → Bool × Bool → Bool × Bool
unfolding check_element
check_elements [] found = found
check_elements (e ∷ rest) found = check_elements rest (check_element e found)

-- `check_for_uuid`
unfoldable pub check_for_uuid : List AdElement → ServiceCheck
unfolding check_elements
check_for_uuid elements =
    let (found_uuid, found_name) = check_elements elements (false, false) in
    if found_uuid
    then (if found_name then service_uuid_and_name_found else service_uuid_found)
    else service_uuid_not_found

-- The arrays before the first call.
abbrev pub no_advertisement : Advertisement
no_advertisement = record { adv_data = []; scan_response_data = [] }

take-append_short : (n : ℕ) (xs ys : List ℕ) → n ≤ length xs → take n (xs ++ ys) ≡ take n xs
take-append_short zero xs ys h = refl
take-append_short (suc n) [] ys h = absurd (omega arith)
take-append_short (suc n) (x ∷ xs) ys h = ap (λ l. x ∷ l) (take-append_short n xs ys (omega arith))

-- The type of the entry for so many bytes of a name of some length.
abbrev pub name_type : ℕ → ℕ → ℕ
name_type fitable name_len = if fitable == name_len then complete_name_type else shortened_name_type

-- Called once, with a name of any length below 256, `populate_advertising_data` fills the first array with
-- the flags, the service's UUID and the first eight bytes of the name, or all of a shorter one; the second
-- one with the UUID again and, behind it, as many bytes of the board's id as of the name, after a length
-- byte that counts all eight. Both arrays stay within their 31 bytes.
pub populate-fits :
    (service_data_type : ℕ) (name : List ℕ) (sender : ℕ) (behind : List ℕ)
    → length name < 256
    → let a = populate_advertising_data service_data_type name sender behind no_advertisement in
      let fitable = min 8 (length name) in
      (a.adv_data
        ≡ (2 ∷ flags_type ∷ general_discovery_flags ∷ [])
          ++ (17 ∷ incomplete_uuids_type ∷ packet_service_uuid_reversed)
          ++ ((fitable + 1) ∷ name_type fitable (length name) ∷ take fitable name))
      × ((a.scan_response_data
            ≡ (25 ∷ service_data_type ∷ packet_service_uuid_reversed)
              ++ take fitable (write_uint64 sender []))
          × ((length a.adv_data ≤ advertising_max_length)
              × (length a.scan_response_data ≤ advertising_max_length)))
unfolding populate_advertising_data write_uint64
populate-fits service_data_type name sender behind short =
    let id = write_uint64 sender [] in
    let all : length name % 256 ≡ length name = omega arith in
    let counted : (min 8 (length name) + 1) % 256 ≡ min 8 (length name) + 1 = omega arith in
    let named = length-take (min 8 (length name)) name in
    let copied = length-take (min 8 (length name)) id in
    let id_part : take (min 8 (length name)) (id ++ behind) ≡ take (min 8 (length name)) id =
      take-append_short (min 8 (length name)) id behind (omega arith) in
    rw all (rw counted (rw id_part (refl, (refl, (omega arith, omega arith)))))
