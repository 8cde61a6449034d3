-- ===== src/Detection/Bounds.antt =====
-- The parsers of the detection block stay inside the message and inside what was announced.
use telefacet.Shared.{
  ℕ, zero, suc, ◌+◌, ◌*◌, ◌≤◌, ◌==◌, ◌||◌, ltb, leb, ◌≡◌, refl, inl, inr, List, [], Option, some,
  memcpy, memcpy_in_bounds, take, drop, length, arith, Bool-cases, ◌-◌, ◌∷◌, true, false, leb→le,
}
use telefacet.Frame.{Point}
use telefacet.Wire.{corner_set_header_size, marker_set_header_size}
use telefacet.Detection.{
  read_point, read_corners, parse_records, parse_block, parse_corner_block, parse_marker_block,
  corner_count, marker_corner_count, make_corner_set, make_marker,
}

-- A read of corners that fits the message succeeds, with as many corners as asked for.
read_corners_in_bounds :
    (block : List ℕ) (off n : ℕ)
    → off + n * 8 ≤ length block
    → (cs : List Point) × (read_corners block off n ≡ some cs) × (length cs ≡ n)
unfolding read_corners
read_corners_in_bounds block off zero h = ([], refl, refl)
read_corners_in_bounds block off (suc n) h =
    let (rest, e, l) = read_corners_in_bounds block (off + 8) n (omega arith) in
    let (copied, _) = memcpy_in_bounds block off 8 (omega arith) in
    (read_point (take 8 (drop off block)) ∷ rest, rw (copied, e), omega arith)

-- What a parser returns: a list, no longer than announced, whose records fit in the block.
abbrev pub Parsed : {A : Type 0} → ℕ → ℕ → ℕ → Option (List A) → Type 0
Parsed {A} size block_size expected r =
    (out : List A) × (r ≡ some out) × (length out ≤ expected) × (length out * size ≤ block_size)

module _ {A : Type 0} (size : ℕ) (num_corners : List ℕ → ℕ) (make : List ℕ → List Point → A) where
  parse_records_in_bounds :
      (block : List ℕ) (block_size left off : ℕ)
      → block_size ≤ length block
      → Parsed size
          (block_size - off)
          left
          (parse_records size num_corners make block block_size left off)
  unfolding parse_records
  parse_records_in_bounds block block_size zero off h = ([], refl, omega arith, omega arith)
  parse_records_in_bounds block block_size (suc left) off h =
      elim (Bool-cases (leb (off + size) block_size)) [
        | inr short ↦ ([], rw short, omega arith, omega arith)
        | inl room ↦ elim (Bool-cases (ltb block_size (off + size + corner_bytes))) [
          | inl overrun ↦ ([], rw (room, copied room, overrun), omega arith, omega arith)
          | inr fits ↦
              let (cs, e, _) =
                read_corners_in_bounds block (off + size) (num_corners header) (ground arith) in
              let (out, r, n, b) =
                parse_records_in_bounds block block_size left (off + size + corner_bytes) h in
              (
                make header cs ∷ out,
                rw (room, copied room, fits, e, r),
                omega arith,
                omega (arith, leb→le (off + size) block_size room, within fits),
              )
        ]
      ]
    where
      header : List ℕ
      header = take size (drop off block)

      corner_bytes : ℕ
      corner_bytes = num_corners header * 8

      copied : leb (off + size) block_size ≡ true → memcpy block off size ≡ some header
      copied room =
          (memcpy_in_bounds block off size (omega (arith, leb→le (off + size) block_size room))).0

      within :
          ltb block_size (off + size + corner_bytes) ≡ false
          → off + size + corner_bytes ≤ block_size
      within fits = ground arith

  parse_block_in_bounds :
      (block : List ℕ) (block_size expected : ℕ)
      → block_size ≤ length block
      → Parsed size block_size expected
          (parse_block size num_corners make block block_size expected)
  unfolding parse_block
  parse_block_in_bounds block block_size expected h =
      elim (Bool-cases (block_size == 0 || expected == 0)) [
        | inl skip ↦ ([], rw skip, omega arith, omega arith)
        | inr go ↦
            let (out, r, n, b) = parse_records_in_bounds block block_size expected 0 h in
            (out, rw go r, n, omega arith)
      ]

-- On any bytes, if the message holds the block that it announces, `parseCornerBlock` makes no read
-- past its end, and returns at most the announced number of sets, whose headers fit in the block.
pub parse_corner_block_in_bounds :
    (block : List ℕ) (block_size expected : ℕ)
    → block_size ≤ length block
    → Parsed corner_set_header_size block_size expected
        (parse_corner_block block block_size expected)
unfolding parse_corner_block
parse_corner_block_in_bounds =
    parse_block_in_bounds corner_set_header_size corner_count make_corner_set

-- The same of `parseMarkerBlock` and its markers.
pub parse_marker_block_in_bounds :
    (block : List ℕ) (block_size expected : ℕ)
    → block_size ≤ length block
    → Parsed marker_set_header_size block_size expected
        (parse_marker_block block block_size expected)
unfolding parse_marker_block
parse_marker_block_in_bounds =
    parse_block_in_bounds marker_set_header_size marker_corner_count make_marker
