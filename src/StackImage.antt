-- ===== src/StackImage.antt =====
-- data/StackImage.cpp: a stacked image as the bytes of an NPY file.
pub mod Header
pub mod Rows
mod Tests
use telefacet.Shared.{
  ℕ, zero, suc, ◌+◌, ◌-◌, ◌*◌, ◌/◌, ◌%◌, ◌^◌, ltb, leb, Bool, not, ◌&&◌, List, [], ◌∷◌, ◌++◌,
  Option, none, some, ◌>>=◌, length, take, drop, replicate, Text, codes, to_string, if◌then◌else◌,
}
use telefacet.Frame.{FrameBuffer}

-- `f.width * 4` is of 32 bits, the size of the image of 64.
unfoldable pub has_sf32 : FrameBuffer → Bool
has_sf32 f =
    ltb 0 f.width
    && (ltb 0 f.height
        && (leb (f.width * 4 % 2 ^ 32) f.bytes_per_line
            && leb (f.bytes_per_line * f.height) (length f.bytes)))

abbrev pub dict : ℕ → ℕ → Text
dict rows cols =
    codes "{'descr': '<f4', 'fortran_order': False, 'shape': ("
    ++ to_string rows
    ++ codes ", "
    ++ to_string cols
    ++ codes "), }"

-- The dictionary with spaces after it and a line end, up to a multiple of 64 with the preamble.
unfoldable pub npy_text : Text → Text
npy_text d =
    let total = (10 + length d + 1 + 63) / 64 * 64 in
    d ++ replicate (total - 10 - 1 - length d) b' ' ++ b'\n' ∷ []

unfoldable pub npy_header : ℕ → ℕ → List ℕ
unfolding npy_text
npy_header rows cols =
    let text = npy_text (dict rows cols) in
    let len = length text % 2 ^ 16 in 0x93 ∷ codes "NUMPY" ++ 1 ∷ 0 ∷ len % 256 ∷ len / 256 ∷ text

-- `memcpy` from the data: `n` bytes at `from`. None is a read past its end.
abbrev pub copy_from : ℕ → ℕ → List ℕ → Option (List ℕ)
copy_from from n bytes =
    if leb (from + n) (length bytes) then some (take n (drop from bytes)) else none

-- The loop over the rows: `count` rows, from row `y` on.
unfoldable pub copy_rows : ℕ → ℕ → FrameBuffer → Option (List ℕ)
copy_rows zero y f = some []
copy_rows (suc count) y f = do
  row ← copy_from (y * f.bytes_per_line) (f.width * 4) f.bytes
  rest ← copy_rows count (y + 1) f
  some (row ++ rest)

unfoldable pub stack_image_npy : FrameBuffer → Option (List ℕ)
unfolding has_sf32 npy_header copy_rows
stack_image_npy f =
    if not (has_sf32 f)
    then some []
    else do rows ← copy_rows f.height 0 f; some (npy_header f.height f.width ++ rows)
