-- ===== src/Reassembly.antt =====
-- net/ChunkReassembler.cpp: frames put together from the binary messages of one connection.
pub mod Bounds
pub mod Slots
pub mod Delivery
pub mod AnyOrder
pub mod WholeFrame
pub mod Staleness
mod Tests
use telefacet.Shared.{
  ℕ, ◌+◌, ◌*◌, ◌%◌, ◌^◌, ◌==◌, ltb, leb, Bool, true, false, not, ◌&&◌, List, [], ◌∷◌, ◌++◌, Option,
  none, some, ◌>>=◌, memcpy, le, take, drop, length, replicate, get_elem?, set, lookup, insert,
  erase, emplace, if◌then◌else◌,
}
use telefacet.Frame.{FrameBuffer, FrameInfo, CornerSet, ArucoMarker, no_region}
use telefacet.Wire.{
  chunk_start_magic, chunk_data_magic, chunk_version, chunk_start_min_size, chunk_data_header_size,
  start_marker_size, header_size, ChunkHeader, ChunkStartMarker, ChunkData, read_start_marker,
  read_header, read_chunk_data, DetectionKind, detection_kind_of, no_detection, checkerboard, aruco,
}
use telefacet.Detection.{parse_corner_block, parse_marker_block}
use telefacet.Pool.{Pool, acquire, release, resize}

-- Times are nanoseconds of the steady clock.
abbrev pub second : ℕ
second = 10 ^ 9

-- The clock as one message reads it: in the handler, before the sweep, and in the sweep.
pub record Clock : Type 0 where
  pub handled : ℕ
  pub checked : ℕ
  pub swept : ℕ

pub record InFlight : Type 0 where
  pub buf : FrameBuffer
  pub total_chunks : ℕ
  pub total_size : ℕ
  pub received : ℕ
  pub chunks : List (List ℕ)
  pub last_chunk : ℕ

-- `in_flight` goes by `frame_uuid`. The pool is shared, and `world` is what the frame callback
-- works on beside the pool.
pub record State (W : Type 0) : Type 0 where
  pub in_flight : List (ℕ × InFlight)
  pub last_sweep : ℕ
  pub pool : Pool
  pub world : W

-- `FrameCallback`. A null callback is the one that changes nothing.
abbrev pub Callback : Type 0 → Type 0
Callback W = FrameBuffer → Pool × W → Pool × W

abbrev pub deliver : {W : Type 0} → Callback W → FrameBuffer → State W → State W
deliver cb buf s =
    let (pool', world') = cb buf (s.pool, s.world) in record s { pool = pool'; world = world' }

-- The `switch` on `detection_kind`.
unfoldable pub parse_by_kind :
    Option DetectionKind → ChunkHeader → List ℕ → Option (List CornerSet × List ArucoMarker)
parse_by_kind none hdr block = some ([], [])
parse_by_kind (some no_detection) hdr block = some ([], [])
parse_by_kind (some checkerboard) hdr block = do
  sets ← parse_corner_block block hdr.corner_block_size hdr.num_corner_sets
  some (sets, [])
parse_by_kind (some aruco) hdr block = do
  markers ← parse_marker_block block hdr.corner_block_size hdr.num_corner_sets
  some ([], markers)

unfoldable pub parse_detection : ChunkHeader → List ℕ → Option (List CornerSet × List ArucoMarker)
unfolding parse_by_kind
parse_detection hdr = parse_by_kind (detection_kind_of hdr.detection_kind) hdr

-- The lambda `fill`.
abbrev pub frame_info : ChunkHeader → List CornerSet → List ArucoMarker → FrameInfo
frame_info hdr sets markers = record {
  frame_id = hdr.frame_id;
  camera_id = hdr.camera_id;
  width = hdr.width;
  height = hdr.height;
  bytes_per_line = hdr.bytes_per_line;
  pixel_format = hdr.pixel_format;
  frame_kind = hdr.frame_kind;
  capture_id = hdr.capture_id;
  frames_saved = hdr.frames_saved;
  timestamp_us = hdr.timestamp_us;
  frame_duration_us = hdr.frame_duration_us;
  lens_position = hdr.lens_position;
  af_state = hdr.af_state;
  focus_fom = hdr.focus_fom;
  focus_fom_region = no_region;
  detection_kind = hdr.detection_kind;
  corner_sets = sets;
  aruco_markers = markers;
}

abbrev pub new_in_flight : ℕ → ChunkHeader → FrameBuffer → FrameInfo → InFlight
new_in_flight now hdr buf info = record {
  buf = record buf { info = info; header_only = false };
  total_chunks = hdr.total_chunks;
  total_size = hdr.total_size;
  received = 0;
  chunks = replicate hdr.total_chunks [];
  last_chunk = now;
}

-- `memcpy(bytes + off, src, src.size())`
abbrev pub overwrite : List ℕ → ℕ → List ℕ → List ℕ
overwrite bytes off src = take off bytes ++ (src ++ drop (off + length src) bytes)

-- The concatenation loop from `offset` on; `none` is the assembly overflow.
unfoldable pub assemble : List (List ℕ) → List ℕ → ℕ → Option (List ℕ)
assemble [] bytes offset = some bytes
assemble (src ∷ chunks) bytes offset =
    if ltb (length bytes) (offset + length src)
    then none
    else assemble chunks (overwrite bytes offset src) (offset + length src)

abbrev pub is_empty : List ℕ → Bool
is_empty [] = true
is_empty (b ∷ bytes) = false

-- The slot at `index` filled, and the progress noted.
abbrev pub with_chunk : ℕ → ℕ → List ℕ → InFlight → InFlight
with_chunk now index payload inf = record inf {
  received = (inf.received + 1) % 2 ^ 32;
  chunks = set inf.chunks index payload;
  last_chunk = now;
}

-- An entry is stale when nothing has arrived for longer than `timeout`.
abbrev pub is_stale : ℕ → ℕ → InFlight → Bool
is_stale now timeout inf = ltb (inf.last_chunk + timeout) now

-- The loop of `sweepStale`. An entry is the only owner of its buffer.
unfoldable pub sweep_entries : ℕ → ℕ → List (ℕ × InFlight) → Pool → List (ℕ × InFlight) × Pool
sweep_entries now timeout [] pool = ([], pool)
sweep_entries now timeout ((uuid, inf) ∷ rest) pool =
    let stale = is_stale now timeout inf in
    let pool' = if stale then release 1 (some inf.buf) pool else pool in
    let (kept, pool'') = sweep_entries now timeout rest pool' in
    (if stale then kept else (uuid, inf) ∷ kept, pool'')

unfoldable pub release_entries : List (ℕ × InFlight) → Pool → Pool
release_entries [] pool = pool
release_entries ((uuid, inf) ∷ rest) pool = release_entries rest (release 1 (some inf.buf) pool)

module _ {W : Type 0} where
  unfoldable pub sweep_stale : ℕ → ℕ → State W → State W
  sweep_stale now timeout s =
      let (kept, pool') = sweep_entries now timeout s.in_flight s.pool in
      record s { in_flight = kept; pool = pool' }

  unfoldable pub reset : State W → State W
  reset s = record s { in_flight = []; pool = release_entries s.in_flight s.pool }

  -- The sweep that ends `onBinary`.
  unfoldable pub periodic_sweep : Clock → State W → State W
  periodic_sweep clock s =
      if ltb (s.last_sweep + second) clock.checked
      then sweep_stale clock.swept (5 * second) (record s { last_sweep = clock.checked })
      else s

module _ {W : Type 0} (cb : Callback W) where
  -- The end of `handleStart`: a header-only frame is delivered, any other is held.
  unfoldable pub start_frame :
      ℕ → ChunkHeader → List CornerSet × List ArucoMarker → State W → State W
  start_frame now hdr (sets, markers) s =
      let (buf, pool') = acquire 0 s.pool in
      let info = frame_info hdr sets markers in
      let s' = record s { pool = pool' } in
      if hdr.total_chunks == 0 && hdr.total_size == 0
      then deliver cb (record buf { info = info; header_only = true }) s'
      else record s' {
        in_flight = emplace hdr.frame_uuid (new_in_flight now hdr buf info) s.in_flight;
      }

  -- `handleStart` once the marker and the header are copied.
  unfoldable pub handle_header :
      ℕ → List ℕ → ChunkStartMarker → ChunkHeader → State W → Option (State W)
  handle_header now bytes marker hdr s =
      if not (marker.version == chunk_version)
      then some s
      else if not (length bytes == chunk_start_min_size + hdr.corner_block_size)
      then some s
      else do
        found ← parse_detection hdr (drop chunk_start_min_size bytes)
        some (start_frame now hdr found s)

  unfoldable pub handle_start : ℕ → List ℕ → State W → Option (State W)
  handle_start now bytes s = if ltb (length bytes) chunk_start_min_size then some s else do
    marker ← memcpy bytes 0 start_marker_size
    header ← memcpy bytes start_marker_size header_size
    handle_header now bytes (read_start_marker marker) (read_header header) s

  -- All chunks are there: the frame leaves the table, and is delivered unless it overflows.
  unfoldable pub complete : ℕ → InFlight → State W → State W
  complete uuid inf s =
      let s' = record s { in_flight = erase uuid s.in_flight } in
      elim (assemble inf.chunks (resize inf.total_size inf.buf.bytes) 0) [
        | none ↦ s'
        | some assembled ↦ deliver cb (record (inf.buf) { bytes = assembled }) s'
      ]

  -- The end of `handleChunk`, for a chunk of a frame in flight. `none` is an index out of range.
  unfoldable pub store_chunk : ℕ → ℕ → ℕ → Option (List ℕ) → InFlight → State W → Option (State W)
  store_chunk now uuid index payload inf s = if leb inf.total_chunks index then some s else do
    slot ← get_elem? inf.chunks index
    if not (is_empty slot) then some s else do
      arrived ← payload
      let inf' = with_chunk now index arrived inf
      some (
          if inf'.received == inf'.total_chunks
          then complete uuid inf' s
          else record s { in_flight = insert uuid inf' s.in_flight })

  -- The look in the table: a chunk of an unknown frame is dropped.
  unfoldable pub store_found :
      ℕ → ℕ → ℕ → Option (List ℕ) → Option InFlight → State W → Option (State W)
  store_found now uuid index payload none s = some s
  store_found now uuid index payload (some inf) s = store_chunk now uuid index payload inf s

  -- `handleChunk` once the header is copied.
  unfoldable pub handle_data : ℕ → List ℕ → ChunkData → State W → Option (State W)
  handle_data now bytes chd s =
      if not (length bytes == chunk_data_header_size + chd.chunk_size)
      then some s
      else store_found now chd.frame_uuid chd.chunk_index
          (memcpy bytes chunk_data_header_size chd.chunk_size) (lookup chd.frame_uuid s.in_flight) s

  unfoldable pub handle_chunk : ℕ → List ℕ → State W → Option (State W)
  handle_chunk now bytes s = if ltb (length bytes) chunk_data_header_size then some s else do
    header ← memcpy bytes 0 chunk_data_header_size
    handle_data now bytes (read_chunk_data header) s

  unfoldable pub on_binary : Clock → List ℕ → State W → Option (State W)
  on_binary clock bytes s = if ltb (length bytes) 8 then some s else do
    first ← memcpy bytes 0 4
    s' ←
        if le first == chunk_start_magic
        then handle_start clock.handled bytes s
        else if le first == chunk_data_magic
        then handle_chunk clock.handled bytes s
        else some s
    some (periodic_sweep clock s')
