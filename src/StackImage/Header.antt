-- ===== src/StackImage/Header.antt =====
-- The NPY header is a multiple of 64 bytes long, and says its length.
use telefacet.Shared.{
  ℕ, ◌+◌, ◌-◌, ◌*◌, ◌/◌, ◌%◌, ◌^◌, ◌<◌, ◌≡◌, refl, [], ◌∷◌, ◌++◌, some, arith, length,
  length-append, length-replicate, get_elem?, Text, replicate,
}
use telefacet.StackImage.{dict, npy_text, npy_header}

length-npy_text : (d : Text) → length (npy_text d) ≡ (10 + length d + 1 + 63) / 64 * 64 - 10
unfolding npy_text
length-npy_text d =
    let n = (10 + length d + 1 + 63) / 64 * 64 - 10 - 1 - length d in
    let line_end : length (npy_text d) ≡ length (d ++ replicate {A = ℕ} n 32) + 1 =
      length-append (d ++ replicate {A = ℕ} n 32) (10 ∷ []) in
    let padded : length (d ++ replicate {A = ℕ} n 32) ≡ length d + length (replicate {A = ℕ} n 32) =
      length-append d (replicate {A = ℕ} n 32) in
    let spaces : length (replicate {A = ℕ} n 32) ≡ n = length-replicate {A = ℕ} n 32 in omega arith

-- The header is a multiple of 64 bytes long, whatever the shape; its length field, two bytes at
-- position 8, is the number of bytes after it, if that is below 2^16.
pub npy_header_lem :
    (rows cols : ℕ)
    → let h = npy_header rows cols in
      (length h % 64 ≡ 0)
      × (length h < 2 ^ 16
          → (lo : ℕ) × (hi : ℕ) × (get_elem? h 8 ≡ some lo)
            × (get_elem? h 9 ≡ some hi)
            × (lo < 256)
            × (hi < 256)
            × (10 + (lo + 256 * hi) ≡ length h))
unfolding npy_header
npy_header_lem rows cols =
    let text = npy_text (dict rows cols) in
    let len = length-npy_text (dict rows cols) in
    (
      omega arith,
      λ small. (
        length text % 2 ^ 16 % 256,
        length text % 2 ^ 16 / 256,
        refl,
        refl,
        omega arith,
        omega arith,
        omega arith,
      ),
    )
