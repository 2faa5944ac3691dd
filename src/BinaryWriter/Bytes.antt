-- ===== src/BinaryWriter/Bytes.antt =====
-- Each write appends the big-endian bytes that the reads take back.
use ble_smoke_detector.Common.{
  ℕ, ◌/◌, ◌%◌, ◌^◌, ◌≤◌, ◌≡◌, refl, ap, ◌∙◌, arith, List, [], ◌∷◌, ◌++◌, length, take_all,
}
use ble_smoke_detector.Common.Bits.{byte_mask}
use ble_smoke_detector.BinaryReader.Reads.{bytes16, bytes32, bytes64}
use ble_smoke_detector.BinaryWriter.{
  mask_byte, write_uint8, write_uint16, write_uint32, write_int32, write_uint64, write_data,
}
use mathlib.Core.List.{append_assoc}

mask_byte_lem : (v k : ℕ) → mask_byte v k ≡ v / 2 ^ k % 256
mask_byte_lem v k = byte_mask (v / 2 ^ k % 256) (omega arith)

mask_byte_low : (v : ℕ) → mask_byte v 0 ≡ v % 256
mask_byte_low v = mask_byte_lem v 0 ∙ omega arith

pub write_uint8-eq : (v : ℕ) (out : List ℕ) → write_uint8 v out ≡ out ++ ((v % 256) ∷ [])
unfolding write_uint8
write_uint8-eq v out = refl

pub write_uint16-eq : (v : ℕ) (out : List ℕ) → write_uint16 v out ≡ out ++ bytes16 v
unfolding write_uint16 bytes16
write_uint16-eq v out = rw (mask_byte_low v) (append_assoc out _ _)

four_pushes :
    (a b c d : ℕ) (out : List ℕ)
    → (((out ++ (a ∷ [])) ++ (b ∷ [])) ++ (c ∷ [])) ++ (d ∷ []) ≡ out ++ (a ∷ b ∷ c ∷ d ∷ [])
four_pushes a b c d out = simp append_assoc

pub write_uint32-eq : (v : ℕ) (out : List ℕ) → write_uint32 v out ≡ out ++ bytes32 v
unfolding write_uint32 bytes32
write_uint32-eq v out =
    rw (mask_byte_low v, mask_byte_lem v 8, mask_byte_lem v 16, mask_byte_lem v 24)
      (four_pushes _ _ _ _ out)

pub write_int32-eq : (v : ℕ) (out : List ℕ) → write_int32 v out ≡ out ++ bytes32 v
unfolding write_int32 bytes32
write_int32-eq v out =
    rw (mask_byte_low v, mask_byte_lem v 8, mask_byte_lem v 16, mask_byte_lem v 24)
      (four_pushes _ _ _ _ out)

pub write_uint64-eq : (v : ℕ) (out : List ℕ) → write_uint64 v out ≡ out ++ bytes64 v
unfolding write_uint64 bytes64
write_uint64-eq v out =
    rw
      (
        mask_byte_low v,
        mask_byte_lem v 8,
        mask_byte_lem v 16,
        mask_byte_lem v 24,
        mask_byte_lem v 32,
        mask_byte_lem v 40,
        mask_byte_lem v 48,
      )
      (simp append_assoc)

pub write_data-eq :
    (bs : List ℕ) (n : ℕ) (out : List ℕ) → length bs ≤ n → write_data bs n out ≡ out ++ bs
unfolding write_data
write_data-eq bs n out h = ap (λ l. out ++ l) (take_all n bs h)
