-- ===== src/Detection/Tests.antt =====
-- The detection parsers on small blocks.
use telefacet.Shared.{ℕ, ◌≡◌, List, [], ◌∷◌, some, arith, length, pos}
use telefacet.Frame.{CornerSet, ArucoMarker}
use telefacet.Detection.{parse_corner_block, parse_marker_block}
use telefacet.Detection.Bounds.{Parsed, parse_corner_block_in_bounds, parse_marker_block_in_bounds}
use telefacet.Detection.RoundTrip.{
  corner_block, marker_block, parse_corner_block-corner_block, parse_marker_block-marker_block,
}

-- A set that claims 200 corners in a block of one header.
abbrev overrun_block : List ℕ
overrun_block = 0 ∷ 1 ∷ 200 ∷ 0 ∷ []

parse_corner_block_in_bounds_example : Parsed 4 4 1 (parse_corner_block overrun_block 4 1)
parse_corner_block_in_bounds_example = parse_corner_block_in_bounds overrun_block 4 1 (omega arith)

abbrev overrun_marker : List ℕ
overrun_marker = 5 ∷ 0 ∷ 0 ∷ 0 ∷ 0 ∷ 1 ∷ 4 ∷ 0 ∷ []

parse_marker_block_in_bounds_example : Parsed 8 8 2 (parse_marker_block overrun_marker 8 2)
parse_marker_block_in_bounds_example = parse_marker_block_in_bounds overrun_marker 8 2 (omega arith)

abbrev two_sets : List CornerSet
two_sets =
    record { set_id = 0; flags = 1; corners = (10, 20) ∷ (0x41200000, 7) ∷ [] }
    ∷ record { set_id = 3; flags = 1; corners = [] }
    ∷ []

parse_corner_block-corner_block_example :
    parse_corner_block (corner_block two_sets) (length (corner_block two_sets)) 2 ≡ some two_sets
parse_corner_block-corner_block_example = parse_corner_block-corner_block two_sets (omega arith)

abbrev one_marker : List ArucoMarker
one_marker =
    record { marker_id = pos 17; quadrant = 2; flags = 1; corners = (1, 2) ∷ (3, 4) ∷ [] } ∷ []

parse_marker_block-marker_block_example :
    parse_marker_block (marker_block one_marker) (length (marker_block one_marker)) 1
    ≡ some one_marker
parse_marker_block-marker_block_example = parse_marker_block-marker_block one_marker (omega arith)
