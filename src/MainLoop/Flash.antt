-- ===== src/MainLoop/Flash.antt =====
-- The preferences in flash memory: `savePreferencesToFlash` and the beginning of `main` in main.cpp.
-- The sizes of a page and of a sector and the results of the flash operations belong to the board.
use ble_smoke_detector.Common.{
  ℕ, ◌-◌, ◌<◌, ◌≡◌, refl, ◌∙◌, arith, ◌==◌, Bool, true, false, ◌&&◌, Option, none, some, List, [],
  ◌∷◌, ◌++◌, ltb, if◌then◌else◌, length, take, drop, replicate, if_true, zero, suc, ap, ◌≤◌,
  take-length_append, lt→ltb, ltb→lt, if_false, Bool-cases, inl, inr, ◌⊎◌,
}
use mathlib.Core.List.{append_assoc}
use ble_smoke_detector.PacketTypes.{type_micro_mesh_preferences}
use ble_smoke_detector.BinaryReader.{BinaryReader, start_at, read_uint8}
use ble_smoke_detector.MicroMeshPreferences.{
  MicroMeshPreferences, read_preferences, write_preferences,
}
use ble_smoke_detector.BleConnectionTracker.{BleConnectionTracker}
use ble_smoke_detector.BleConnectionTracker.Packets.{update_preferences}

pub record FlashChip : Type 0 where
  pub page_size : ℕ
  pub sector_size : ℕ
  -- The results of `flash_safe_execute`, for erasing and for programming.
  pub erased_well : Bool
  pub programmed_well : Bool

-- Flash memory that is erased reads as 0xff.
abbrev pub erased : FlashChip → List ℕ
erased chip = replicate chip.sector_size 0xff

-- The sector once a page is programmed at its start.
abbrev pub programmed : FlashChip → List ℕ → List ℕ
programmed chip page = take chip.page_size page ++ drop chip.page_size (erased chip)

-- `savePreferencesToFlash`: the sector and the preferences, which are measured. A page is programmed from
-- the bytes of the packet and of what is `behind` them in memory.
unfoldable pub save_preferences_to_flash :
    FlashChip → MicroMeshPreferences → List ℕ → List ℕ → List ℕ × MicroMeshPreferences
unfolding write_preferences
save_preferences_to_flash chip prefs behind sector =
    let (prefs_data, prefs') = write_preferences prefs [] in
    (
      if ltb (length prefs_data) chip.page_size && chip.erased_well
          then (if chip.programmed_well
              then programmed chip (prefs_data ++ behind)
              else erased chip)
          else sector,
      prefs',
    )

-- What `main` does with the preferences that it read.
unfoldable pub take_preferences :
    ℕ
    → BleConnectionTracker
    → Option (MicroMeshPreferences × BinaryReader)
    → Option BleConnectionTracker
unfolding update_preferences
take_preferences my_sender_id t none = none
take_preferences my_sender_id t (some (preferences, r)) =
    if preferences.base.malformed
    then some t
    else some (update_preferences my_sender_id preferences false t).1

-- The part of `main` that reads the sector; `none` means that the loop over its entries ran out of fuel.
unfoldable pub boot_preferences :
    FlashChip → ℕ → List ℕ → BleConnectionTracker → Option BleConnectionTracker
unfolding take_preferences read_preferences start_at read_uint8
boot_preferences chip my_sender_id sector t =
    let (version, r) = read_uint8 (start_at 0 sector chip.sector_size) in
    let (prefs_type, r') = read_uint8 r in
    if (version == 1) && (prefs_type == type_micro_mesh_preferences)
    then take_preferences my_sender_id t (read_preferences version r')
    else some t

both : (b c : Bool) → b ≡ true → c ≡ true → (b && c) ≡ true
both true c h k = k
both false c h k = absurd cc

both_parts : (b c : Bool) → (b && c) ≡ true → (b ≡ true) × (c ≡ true)
both_parts true c h = (refl, h)
both_parts false c h = absurd cc

take-append :
    (xs ys : List ℕ) (n : ℕ) → length xs ≤ n → take n (xs ++ ys) ≡ xs ++ take (n - length xs) ys
take-append [] ys n h = let e : n ≡ n - 0 = omega arith in ap (λ k. take k ys) e
take-append (x ∷ xs) ys zero h = absurd (omega arith)
take-append (x ∷ xs) ys (suc n) h =
    let e : n - length xs ≡ suc n - suc (length xs) = omega arith in
    ap (λ t. x ∷ t) (take-append xs ys n (omega arith)) ∙ ap (λ k. x ∷ xs ++ take k ys) e

-- Where the preferences fill less than a page and both flash operations succeed, the sector begins with the
-- bytes of the preferences, whatever lies behind them in memory.
pub save_preferences_to_flash-bytes :
    (chip : FlashChip) (prefs : MicroMeshPreferences) (behind sector : List ℕ)
    → length (write_preferences prefs []).0 < chip.page_size
    → chip.erased_well ≡ true
    → chip.programmed_well ≡ true
    → let data_written = (write_preferences prefs []).0 in
      take (length data_written) (save_preferences_to_flash chip prefs behind sector).0
      ≡ data_written
unfolding save_preferences_to_flash
save_preferences_to_flash-bytes chip prefs behind sector short erased_well programmed_well =
    let d = (write_preferences prefs []).0 in
    let fits : (ltb (length d) chip.page_size && chip.erased_well) ≡ true =
      both _ chip.erased_well (lt→ltb (length d) chip.page_size short) erased_well in
    let rest = drop chip.page_size (erased chip) in
    let filler = take (chip.page_size - length d) behind in
    let saved : (save_preferences_to_flash chip prefs behind sector).0
        ≡ programmed chip (d ++ behind) =
      if_true _ _ sector fits ∙ if_true chip.programmed_well _ (erased chip) programmed_well in
    ap (take (length d)) saved
    ∙ ap (λ t. take (length d) (t ++ rest)) (take-append d behind chip.page_size (omega arith))
    ∙ ap (take (length d)) (append_assoc d filler rest)
    ∙ take-length_append d (filler ++ rest)

-- Whatever is saved and whatever the flash operations answer, the sector afterwards is as it was, or is erased,
-- or begins with all the bytes of the preferences: it never holds preferences that are cut off.
pub save_preferences_to_flash-whole :
    (chip : FlashChip) (prefs : MicroMeshPreferences) (behind sector : List ℕ)
    → let data_written = (write_preferences prefs []).0 in
      let sector' = (save_preferences_to_flash chip prefs behind sector).0 in
      (sector' ≡ sector)
      ⊎ ((sector' ≡ erased chip) ⊎ (take (length data_written) sector' ≡ data_written))
unfolding save_preferences_to_flash
save_preferences_to_flash-whole chip prefs behind sector =
    let d = (write_preferences prefs []).0 in
    elim (Bool-cases (ltb (length d) chip.page_size && chip.erased_well)) [
      | inr kept ↦ inl (if_false _ _ sector kept)
      | inl fits ↦
          let (short, erased_well) = both_parts _ chip.erased_well fits in
          elim (Bool-cases chip.programmed_well) [
            | inr failed ↦ inr (
                inl (
                  if_true _ _ sector fits
                  ∙ if_false chip.programmed_well (programmed chip (d ++ behind)) (erased chip)
                      failed))
            | inl programmed_well ↦ inr (
                inr (
                  save_preferences_to_flash-bytes chip prefs behind sector
                    (ltb→lt (length d) chip.page_size short) erased_well programmed_well))
          ]
    ]
