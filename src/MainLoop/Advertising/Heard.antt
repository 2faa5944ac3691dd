-- ===== src/MainLoop/Advertising/Heard.antt =====
-- What a node that hears the advertisement of another one makes of it in `check_for_uuid` of main.cpp.
-- The iterator over the entries belongs to the Bluetooth stack: it is an argument, with the laws by which
-- an advertisement is a run of entries.
use ble_smoke_detector.Common.{
  ℕ, ◌+◌, ◌-◌, ◌≤◌, ◌<◌, ◌≡◌, refl, ap, ◌∙◌, arith, ◌==◌, min, Bool, true, false, List, [], ◌∷◌,
  ◌++◌, if◌then◌else◌, length, length-take, take, bytes_eq,
}
use ble_smoke_detector.BleConnection.{
  ServiceCheck, service_uuid_not_found, service_uuid_found, service_uuid_and_name_found,
}
use ble_smoke_detector.MainLoop.Advertising.{
  packet_service_uuid_reversed, packet_service_name, flags_type, incomplete_uuids_type,
  shortened_name_type, complete_name_type, general_discovery_flags, no_advertisement,
  populate_advertising_data, AdElement, check_element, check_elements, check_for_uuid, name_type,
  populate-fits,
}

-- What `check_for_uuid` relies on in the iterator of the stack over so many bytes in memory: it gives the
-- entry that its length byte bounds, if the bytes hold all of it, goes on behind it, and ends at the end.
pub record AdIterator : Type 0 where
  pub elements : ℕ → List ℕ → List AdElement
  pub of_entry :
      (size data_type : ℕ) (content rest : List ℕ)
      → length content + 2 ≤ size
      → elements size ((length content + 1) ∷ data_type ∷ content ++ rest)
        ≡ (data_type, content ++ rest) ∷ elements (size - (length content + 2)) rest
  pub at_end : (memory : List ℕ) → elements 0 memory ≡ []

-- An advertisement as far as it is written, with what stands behind it.
abbrev named_part : List ℕ → List ℕ → List ℕ
named_part name after =
    (length (take (min 8 (length name)) name) + 1)
      ∷ name_type (min 8 (length name)) (length name)
      ∷ take (min 8 (length name)) name
    ++ after

module _ (it : AdIterator) (name after : List ℕ) where
  -- The three entries that the iterator gives.
  elements-entries :
      it.elements (23 + length (take (min 8 (length name)) name)) (
        2 ∷ flags_type ∷ general_discovery_flags ∷ 17 ∷ incomplete_uuids_type
          ∷ packet_service_uuid_reversed
        ++ named_part name after)
      ≡ (
        flags_type,
        general_discovery_flags ∷ 17 ∷ incomplete_uuids_type ∷ packet_service_uuid_reversed
            ++ named_part name after,
      )
        ∷ (incomplete_uuids_type, packet_service_uuid_reversed ++ named_part name after)
        ∷ (name_type (min 8 (length name)) (length name), take (min 8 (length name)) name ++ after)
        ∷ []
  elements-entries =
      let front = take (min 8 (length name)) name in
      let rest = named_part name after in
      let uuids = 17 ∷ incomplete_uuids_type ∷ packet_service_uuid_reversed ++ rest in
      let flag =
        it.of_entry (23 + length front) flags_type (general_discovery_flags ∷ []) uuids
          (omega arith) in
      let uuid =
        it.of_entry (20 + length front) incomplete_uuids_type packet_service_uuid_reversed rest
          (omega arith) in
      let last =
        it.of_entry (2 + length front) (name_type (min 8 (length name)) (length name)) front after
          (omega arith) in
      let all : (2 + length front) - (length front + 2) ≡ 0 = omega arith in
      let end : it.elements ((2 + length front) - (length front + 2)) after ≡ [] =
        ap (λ n. it.elements n after) all ∙ it.at_end after in
      let two : (23 + length front) - 3 ≡ 20 + length front = omega arith in
      let three : (20 + length front) - 18 ≡ 2 + length front = omega arith in
      flag
      ∙ ap (λ n. (flags_type, general_discovery_flags ∷ uuids) ∷ it.elements n uuids) two
      ∙ ap (λ l. (flags_type, general_discovery_flags ∷ uuids) ∷ l)
          (uuid
            ∙ ap (λ l. (incomplete_uuids_type, packet_service_uuid_reversed ++ rest) ∷ l)
                (ap (λ n. it.elements n rest) three
                  ∙ last
                  ∙ ap (λ l. (name_type (min 8 (length name)) (length name), front ++ after) ∷ l)
                      end))

-- The two types of names are told apart by nothing that `check_for_uuid` does.
check_element-name :
    (whole : Bool) (memory : List ℕ) (found : Bool × Bool)
    → check_element (if whole then complete_name_type else shortened_name_type, memory) found
      ≡ (found.0, bytes_eq packet_service_name (take 8 memory))
unfolding check_element
check_element-name true memory found = refl
check_element-name false memory found = refl

abbrev verdict : Bool × Bool → ServiceCheck
verdict (found_uuid, found_name) =
    if found_uuid
    then (if found_name then service_uuid_and_name_found else service_uuid_found)
    else service_uuid_not_found

-- Any node that hears what another one advertises, under a name of any length below 256, finds the service,
-- whatever iterator goes over the entries; it finds the repeater's name just where the first eight bytes of the
-- name, with what follows in memory where the name is shorter, are "Repeater".
pub check_for_uuid-populate :
    (it : AdIterator) (service_data_type sender : ℕ) (name behind after : List ℕ)
    → length name < 256
    → let a = populate_advertising_data service_data_type name sender behind no_advertisement in
      check_for_uuid (it.elements (length a.adv_data) (a.adv_data ++ after)) ≡ (
        if bytes_eq packet_service_name (take 8 (take (min 8 (length name)) name ++ after))
        then service_uuid_and_name_found
        else service_uuid_found)
unfolding check_for_uuid check_elements check_element bytes_eq
check_for_uuid-populate it service_data_type sender name behind after short =
    let front = take (min 8 (length name)) name in
    let (written, _) = populate-fits service_data_type name sender behind short in
    let counted : min 8 (length name) + 1 ≡ length front + 1 =
      omega (arith, length-take (min 8 (length name)) name) in
    let a = populate_advertising_data service_data_type name sender behind no_advertisement in
    let whole : a.adv_data ++ after
        ≡ 2 ∷ flags_type ∷ general_discovery_flags ∷ 17 ∷ incomplete_uuids_type
            ∷ packet_service_uuid_reversed
          ++ named_part name after =
      ap (λ l. l ++ after) written
      ∙ ap
          (λ n.
            2 ∷ flags_type ∷ general_discovery_flags ∷ 17 ∷ incomplete_uuids_type
              ∷ packet_service_uuid_reversed
            ++ (n ∷ name_type (min 8 (length name)) (length name) ∷ front ++ after))
          counted in
    let sized = ap length written in
    let size : length a.adv_data ≡ 23 + length front = omega (arith, sized) in
    ap (λ n. check_for_uuid (it.elements n (a.adv_data ++ after))) size
    ∙ ap (λ l. check_for_uuid (it.elements (23 + length front) l)) whole
    ∙ ap check_for_uuid (elements-entries it name after)
    ∙ ap verdict
        (check_element-name (min 8 (length name) == length name) (front ++ after) (true, false))
