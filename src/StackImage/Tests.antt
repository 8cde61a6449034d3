-- ===== src/StackImage/Tests.antt =====
-- Small stacked images, one of them of a width that does not fit, and the theorems at them.
use telefacet.Shared.{
  ℕ, ◌+◌, ◌*◌, ◌^◌, ◌<◌, ◌≡◌, refl, true, List, [], ◌∷◌, ◌++◌, some, none, arith, length, get_elem?,
  ◌%◌, false,
}
use telefacet.Frame.{FrameBuffer, default_info}
use telefacet.StackImage.{has_sf32, npy_header, stack_image_npy}
use telefacet.StackImage.Header.{npy_header_lem}
use telefacet.StackImage.Rows.{stack_image_npy_lem, stack_image_npy_overruns}

-- One sample a line, in lines of six bytes.
abbrev image : FrameBuffer
image = record {
  id = 0;
  bytes = 1 ∷ 2 ∷ 3 ∷ 4 ∷ 0 ∷ 0 ∷ 5 ∷ 6 ∷ 7 ∷ 8 ∷ 0 ∷ 0 ∷ [];
  info = record default_info { width = 1; height = 2; bytes_per_line = 6 };
  header_only = false;
}

image_full : has_sf32 image ≡ true
unfolding has_sf32
image_full = refl

stack_image_npy_lem_example :
    (rows : List ℕ) × (stack_image_npy image ≡ some (npy_header 2 1 ++ rows))
    × (length rows ≡ 8)
    × ((y x : ℕ) → y < 2 → x < 4 → get_elem? rows (y * 4 + x) ≡ get_elem? image.bytes (y * 6 + x))
stack_image_npy_lem_example = stack_image_npy_lem image image_full (omega arith)

abbrev wide : FrameBuffer
wide = record {
  id = 0;
  bytes = 1 ∷ 2 ∷ 3 ∷ 4 ∷ [];
  info = record default_info { width = 2 ^ 30 + 1; height = 1; bytes_per_line = 4 };
  header_only = false;
}

wide_full : has_sf32 wide ≡ true
unfolding has_sf32
wide_full = refl

stack_image_npy_overruns_example : stack_image_npy wide ≡ none
stack_image_npy_overruns_example =
    stack_image_npy_overruns wide wide_full (omega arith) (omega arith)

npy_header_lem_example :
    let h = npy_header 1088 1456 in
    (length h % 64 ≡ 0)
    × (length h < 2 ^ 16
        → (lo : ℕ) × (hi : ℕ) × (get_elem? h 8 ≡ some lo)
          × (get_elem? h 9 ≡ some hi)
          × (lo < 256)
          × (hi < 256)
          × (10 + (lo + 256 * hi) ≡ length h))
npy_header_lem_example = npy_header_lem 1088 1456
