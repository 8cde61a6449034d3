-- ===== src/Detection/RoundTrip.antt =====
-- A detection block as its records laid out one after another, and the parsers as its inverse.
use telefacet.Shared.{
  ℕ, ◌+◌, ◌*◌, ◌^◌, ◌<◌, ◌==◌, ◌||◌, ltb, leb, ◌≡◌, refl, ap, sym, ◌∙◌, List, [], ◌∷◌, ◌++◌,
  append_assoc, some, memcpy, memcpy_part, length, length-append, All, arith, to_le, le-to_le, true,
  false, pattern32, InInt32,
}
use telefacet.Frame.{Point, CornerSet, ArucoMarker}
use telefacet.Wire.{corner_set_header_size, marker_set_header_size}
use telefacet.Wire.Layout.{signed32-le}
use telefacet.Detection.{
  read_point, read_corners, parse_records, parse_block, parse_corner_block, parse_marker_block,
  corner_count, marker_corner_count, make_corner_set, make_marker,
}

abbrev pub point_bytes : Point → List ℕ
point_bytes (x, y) = to_le 4 x ++ to_le 4 y

abbrev pub corner_bytes : List Point → List ℕ
corner_bytes [] = []
corner_bytes (p ∷ ps) = point_bytes p ++ corner_bytes ps

abbrev pub IsPoint : Point → Type 0
IsPoint (x, y) = (x < 2 ^ 32) × (y < 2 ^ 32)

length-corner_bytes : (ps : List Point) → length (corner_bytes ps) ≡ length ps * 8
length-corner_bytes [] = refl
length-corner_bytes ((x, y) ∷ ps) = omega (arith, length-corner_bytes ps)

read_point-point_bytes : (p : Point) → IsPoint p → read_point (point_bytes p) ≡ p
read_point-point_bytes (x, y) (hx, hy) = λ i. (le-to_le 4 x hx i, le-to_le 4 y hy i)

-- Corners laid out anywhere in a message are read back.
read_corners-corner_bytes :
    (block before : List ℕ) (ps : List Point) (after : List ℕ) (off : ℕ)
    → block ≡ before ++ (corner_bytes ps ++ after)
    → off ≡ length before
    → All IsPoint ps
    → read_corners block off (length ps) ≡ some ps
unfolding read_corners
read_corners-corner_bytes block before [] after off b e h = refl
read_corners-corner_bytes block before (p ∷ ps) after off b e h =
    rw
      (
        memcpy_part block before (point_bytes p) (corner_bytes ps ++ after) off 8 b e refl,
        read_corners-corner_bytes block (before ++ point_bytes p) ps after (off + 8)
            (b ∙ sym (append_assoc before (point_bytes p) (corner_bytes ps ++ after)))
            (omega (arith, length-append before (point_bytes p))) h.1,
      )
      (λ i. some (read_point-point_bytes p h.0 i ∷ ps))

module _ {A : Type 0} (header : A → List ℕ) (corners : A → List Point) where
  -- Each record is its header, then its corners.
  abbrev pub block_bytes : List A → List ℕ
  block_bytes [] = []
  block_bytes (a ∷ rest) = header a ++ (corner_bytes (corners a) ++ block_bytes rest)

module _ {A : Type 0} (size : ℕ) (num_corners : List ℕ → ℕ) (make : List ℕ → List Point → A)
    (header : A → List ℕ) (corners : A → List Point) where
  -- The header has its size, counts the corners, and makes the record again.
  abbrev pub IsRecord : A → Type 0
  IsRecord a =
      (length (header a) ≡ size)
      × (num_corners (header a) ≡ length (corners a))
      × (make (header a) (corners a) ≡ a)
      × All IsPoint (corners a)

  parse_records-block_bytes :
      (block before : List ℕ) (items : List A) (off : ℕ)
      → block ≡ before ++ block_bytes header corners items
      → off ≡ length before
      → All IsRecord items
      → parse_records size num_corners make block (length block) (length items) off ≡ some items
  unfolding parse_records
  parse_records-block_bytes block before [] off b e h = refl
  parse_records-block_bytes block before (a ∷ items) off b e ((hs, hn, hm, hp), hr) =
      let rest =
        parse_records-block_bytes block ((before ++ header a) ++ points) items
          (off + size + length (corners a) * 8)
          (shifted ∙ sym (append_assoc (before ++ header a) points tail_bytes)) after_record hr in
      rw (head, room, hn, fits, body, rest) (ap (λ x. some (x ∷ items)) hm)
    where
      points : List ℕ
      points = corner_bytes (corners a)

      tail_bytes : List ℕ
      tail_bytes = block_bytes header corners items

      total : length block ≡ off + size + length (corners a) * 8 + length tail_bytes
      total =
          ap length b
          ∙ omega (
            arith,
            length-append before (header a ++ (points ++ tail_bytes)),
            length-append (header a) (points ++ tail_bytes),
            length-append points tail_bytes,
            length-corner_bytes (corners a),
          )

      room : leb (off + size) (length block) ≡ true
      room = ground (arith, total)

      fits : ltb (length block) (off + size + length (corners a) * 8) ≡ false
      fits = ground (arith, total)

      head : memcpy block off size ≡ some (header a)
      head = memcpy_part block before (header a) (points ++ tail_bytes) off size b e (sym hs)

      shifted : block ≡ (before ++ header a) ++ (points ++ tail_bytes)
      shifted = b ∙ sym (append_assoc before (header a) (points ++ tail_bytes))

      body : read_corners block (off + size) (length (corners a)) ≡ some (corners a)
      body =
          read_corners-corner_bytes block (before ++ header a) (corners a) tail_bytes (off + size)
            shifted (omega (arith, length-append before (header a))) hp

      after_record : off + size + length (corners a) * 8 ≡ length ((before ++ header a) ++ points)
      after_record = omega (
        arith,
        length-append (before ++ header a) points,
        length-append before (header a),
        length-corner_bytes (corners a),
      )

  parse_block-block_bytes :
      (items : List A)
      → 0 < size
      → All IsRecord items
      → parse_block size num_corners make
          (block_bytes header corners items)
          (length (block_bytes header corners items))
          (length items)
        ≡ some items
  unfolding parse_block
  parse_block-block_bytes [] p h = ground arith
  parse_block-block_bytes (a ∷ items) p h =
      let whole =
        parse_records-block_bytes (block_bytes header corners (a ∷ items)) [] (a ∷ items) 0 refl
          refl h in
      rw (nonempty, whole)
    where
      nonempty :
          (length (block_bytes header corners (a ∷ items)) == 0 || length (a ∷ items) == 0) ≡ false
      nonempty = ground (
        arith,
        length-append (header a) (corner_bytes (corners a) ++ block_bytes header corners items),
        h.0.0,
      )

abbrev pub corner_set_header : CornerSet → List ℕ
corner_set_header s = to_le 1 s.set_id ++ (to_le 1 s.flags ++ to_le 2 (length s.corners))

abbrev pub corner_block : List CornerSet → List ℕ
corner_block = block_bytes corner_set_header (λ s. s.corners)

-- Every field has a value of its width.
pub record IsCornerSet (s : CornerSet) : Type 0 where
  pub set_id : s.set_id < 2 ^ 8
  pub flags : s.flags < 2 ^ 8
  pub count : length s.corners < 2 ^ 16
  pub corners : All IsPoint s.corners

abbrev pub marker_header : ArucoMarker → List ℕ
marker_header m =
    to_le 4 (pattern32 m.marker_id)
    ++ (to_le 1 m.quadrant ++ (to_le 1 m.flags ++ to_le 2 (length m.corners)))

abbrev pub marker_block : List ArucoMarker → List ℕ
marker_block = block_bytes marker_header (λ m. m.corners)

pub record IsMarker (m : ArucoMarker) : Type 0 where
  pub marker_id : InInt32 m.marker_id
  pub quadrant : m.quadrant < 2 ^ 8
  pub flags : m.flags < 2 ^ 8
  pub count : length m.corners < 2 ^ 16
  pub corners : All IsPoint m.corners

abbrev IsCornerRecord : CornerSet → Type 0
IsCornerRecord =
    IsRecord corner_set_header_size corner_count make_corner_set corner_set_header (λ s. s.corners)

corner_record : (s : CornerSet) → IsCornerSet s → IsCornerRecord s
corner_record s v = (
  refl,
  le-to_le 2 (length s.corners) v.count,
  λ i. record {
    set_id = le-to_le 1 s.set_id v.set_id i;
    flags = le-to_le 1 s.flags v.flags i;
    corners = s.corners;
  },
  v.corners,
)

abbrev IsMarkerRecord : ArucoMarker → Type 0
IsMarkerRecord =
    IsRecord marker_set_header_size marker_corner_count make_marker marker_header (λ m. m.corners)

marker_record : (m : ArucoMarker) → IsMarker m → IsMarkerRecord m
marker_record m v = (
  refl,
  le-to_le 2 (length m.corners) v.count,
  λ i. record {
    marker_id = signed32-le m.marker_id v.marker_id i;
    quadrant = le-to_le 1 m.quadrant v.quadrant i;
    flags = le-to_le 1 m.flags v.flags i;
    corners = m.corners;
  },
  v.corners,
)

corner_records : (sets : List CornerSet) → All IsCornerSet sets → All IsCornerRecord sets
corner_records [] h = tt
corner_records (s ∷ sets) h = (corner_record s h.0, corner_records sets h.1)

marker_records : (markers : List ArucoMarker) → All IsMarker markers → All IsMarkerRecord markers
marker_records [] h = tt
marker_records (m ∷ markers) h = (marker_record m h.0, marker_records markers h.1)

-- `parseCornerBlock` gives back any corner sets, of any sizes, that were laid out as a block.
pub parse_corner_block-corner_block :
    (sets : List CornerSet)
    → All IsCornerSet sets
    → parse_corner_block (corner_block sets) (length (corner_block sets)) (length sets) ≡ some sets
unfolding parse_corner_block
parse_corner_block-corner_block sets h =
    parse_block-block_bytes corner_set_header_size corner_count make_corner_set corner_set_header
      (λ s. s.corners) sets (omega arith) (corner_records sets h)

-- `parseMarkerBlock` gives back any markers that were laid out as a block.
pub parse_marker_block-marker_block :
    (markers : List ArucoMarker)
    → All IsMarker markers
    → parse_marker_block (marker_block markers) (length (marker_block markers)) (length markers)
      ≡ some markers
unfolding parse_marker_block
parse_marker_block-marker_block markers h =
    parse_block-block_bytes marker_set_header_size marker_corner_count make_marker marker_header
      (λ m. m.corners) markers (omega arith) (marker_records markers h)
