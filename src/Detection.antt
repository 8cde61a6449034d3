-- ===== src/Detection.antt =====
-- net/ChunkReassembler.cpp, `parseCornerBlock` and `parseMarkerBlock`: the detection block that may
-- follow a frame's header in the same message. `block` is the message from `block` on.
pub mod Bounds
pub mod RoundTrip
mod Tests
use telefacet.Shared.{
  ℕ, zero, suc, ◌+◌, ◌*◌, ◌==◌, ◌||◌, ltb, leb, List, [], ◌∷◌, Option, some, ◌>>=◌, memcpy, field,
  if◌then◌else◌,
}
use telefacet.Frame.{Point, CornerSet, ArucoMarker}
use telefacet.Wire.{
  read_corner_set_header, read_marker_set_header, corner_set_header_size, marker_set_header_size,
}

-- `float xy[2]`.
abbrev pub read_point : List ℕ → Point
read_point b = (field 0 4 b, field 4 4 b)

-- `num_corners` points from `off` on; `none` is a read past the end of the message.
read_corners : List ℕ → ℕ → ℕ → Option (List Point)
read_corners block off zero = some []
read_corners block off (suc n) = do
  xy ← memcpy block off 8
  rest ← read_corners block (off + 8) n
  some (read_point xy ∷ rest)

-- The two parsers differ in the record's header only: its size, its count of corners, and what a
-- header and its corners make.
module _ {A : Type 0} (size : ℕ) (num_corners : List ℕ → ℕ) (make : List ℕ → List Point → A) where
  -- The `while` loop. `left` is `expected_sets - out.size()`, which falls in each round.
  parse_records : List ℕ → ℕ → ℕ → ℕ → Option (List A)
  unfolding read_corners
  parse_records block block_size zero off = some []
  parse_records block block_size (suc left) off =
      let round = do
        header ← memcpy block off size
        let corners_at = off + size
        let corner_bytes = num_corners header * 8
        if ltb block_size (corners_at + corner_bytes) then some [] else do
          corners ← read_corners block corners_at (num_corners header)
          rest ← parse_records block block_size left (corners_at + corner_bytes)
          some (make header corners ∷ rest)
      in if leb (off + size) block_size then round else some []

  parse_block : List ℕ → ℕ → ℕ → Option (List A)
  unfolding parse_records
  parse_block block block_size expected =
      if block_size == 0 || expected == 0
      then some []
      else parse_records block block_size expected 0

abbrev corner_count : List ℕ → ℕ
corner_count h = (read_corner_set_header h).num_corners

abbrev make_corner_set : List ℕ → List Point → CornerSet
make_corner_set h corners =
    let csh = read_corner_set_header h in
    record { set_id = csh.set_id; flags = csh.flags; corners = corners }

abbrev marker_corner_count : List ℕ → ℕ
marker_corner_count h = (read_marker_set_header h).num_corners

abbrev make_marker : List ℕ → List Point → ArucoMarker
make_marker h corners =
    let msh = read_marker_set_header h in
    record {
      marker_id = msh.marker_id;
      quadrant = msh.quadrant;
      flags = msh.flags;
      corners = corners;
    }

unfoldable pub parse_corner_block : List ℕ → ℕ → ℕ → Option (List CornerSet)
unfolding parse_block
parse_corner_block = parse_block corner_set_header_size corner_count make_corner_set

unfoldable pub parse_marker_block : List ℕ → ℕ → ℕ → Option (List ArucoMarker)
unfolding parse_block
parse_marker_block = parse_block marker_set_header_size marker_corner_count make_marker
