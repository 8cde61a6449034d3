-- ===== src/Wire.antt =====
-- net/Protocol.hpp: the packed structs of the wire protocol, read at their byte offsets.
pub mod Layout
mod Tests
use telefacet.Shared.{
  ℕ, ◌+◌, ◌==◌, Bool, ◌||◌, List, Option, none, some, ℤ, signed32, field, if◌then◌else◌,
}

abbrev pub chunk_start_magic : ℕ
chunk_start_magic = 0x4348554E

abbrev pub chunk_data_magic : ℕ
chunk_data_magic = 0x43484E4B

abbrev pub chunk_version : ℕ
chunk_version = 8

pub data DetectionKind : Type 0 where
  no_detection checkerboard aruco : DetectionKind

-- `static_cast<DetectionKind>(byte)`: `none` is a value that no enumerator names.
abbrev pub detection_kind_of : ℕ → Option DetectionKind
detection_kind_of b =
    if b == 0
    then some no_detection
    else if b == 1
    then some checkerboard
    else if b == 2
    then some aruco
    else none

abbrev pub live_kind : ℕ
live_kind = 0

abbrev pub stack_kind : ℕ
stack_kind = 1

abbrev pub trigger_kind : ℕ
trigger_kind = 2

abbrev pub is_capture_frame_kind : ℕ → Bool
is_capture_frame_kind kind = kind == stack_kind || kind == trigger_kind

pub record ChunkStartMarker : Type 0 where
  pub magic : ℕ
  pub version : ℕ

abbrev pub read_start_marker : List ℕ → ChunkStartMarker
read_start_marker b = record { magic = field 0 4 b; version = field 4 4 b }

pub record ChunkHeader : Type 0 where
  pub frame_uuid : ℕ
  pub frame_id : ℕ
  pub camera_id : ℕ
  pub total_chunks : ℕ
  pub total_size : ℕ
  pub bytes_per_line : ℕ
  pub width : ℕ
  pub height : ℕ
  pub pixel_format : ℕ
  pub frames_saved : ℕ
  pub timestamp_us : ℕ
  pub frame_duration_us : ℕ
  pub corner_block_size : ℕ
  pub num_corner_sets : ℕ
  pub capture_id : ℕ
  pub lens_position : ℕ
  pub af_state : ℕ
  pub detection_kind : ℕ
  pub frame_kind : ℕ
  pub reserved2 : ℕ
  pub focus_fom : ℤ

unfoldable pub read_header : List ℕ → ChunkHeader
read_header b = record {
  frame_uuid = field 0 4 b;
  frame_id = field 4 4 b;
  camera_id = field 8 4 b;
  total_chunks = field 12 4 b;
  total_size = field 16 4 b;
  bytes_per_line = field 20 4 b;
  width = field 24 4 b;
  height = field 28 4 b;
  pixel_format = field 32 4 b;
  frames_saved = field 36 4 b;
  timestamp_us = field 40 8 b;
  frame_duration_us = field 48 4 b;
  corner_block_size = field 52 4 b;
  num_corner_sets = field 56 2 b;
  capture_id = field 58 2 b;
  lens_position = field 60 4 b;
  af_state = field 64 1 b;
  detection_kind = field 65 1 b;
  frame_kind = field 66 1 b;
  reserved2 = field 67 1 b;
  focus_fom = signed32 (field 68 4 b);
}

pub record CornerSetHeader : Type 0 where
  pub set_id : ℕ
  pub flags : ℕ
  pub num_corners : ℕ

abbrev pub read_corner_set_header : List ℕ → CornerSetHeader
read_corner_set_header b = record {
  set_id = field 0 1 b;
  flags = field 1 1 b;
  num_corners = field 2 2 b;
}

pub record MarkerSetHeader : Type 0 where
  pub marker_id : ℤ
  pub quadrant : ℕ
  pub flags : ℕ
  pub num_corners : ℕ

abbrev pub read_marker_set_header : List ℕ → MarkerSetHeader
read_marker_set_header b = record {
  marker_id = signed32 (field 0 4 b);
  quadrant = field 4 1 b;
  flags = field 5 1 b;
  num_corners = field 6 2 b;
}

pub record ChunkData : Type 0 where
  pub magic : ℕ
  pub frame_uuid : ℕ
  pub chunk_index : ℕ
  pub chunk_size : ℕ

abbrev pub read_chunk_data : List ℕ → ChunkData
read_chunk_data b = record {
  magic = field 0 4 b;
  frame_uuid = field 4 4 b;
  chunk_index = field 8 4 b;
  chunk_size = field 12 4 b;
}

-- The sizes of the structs.
abbrev pub start_marker_size : ℕ
start_marker_size = 8

abbrev pub header_size : ℕ
header_size = 72

abbrev pub corner_set_header_size : ℕ
corner_set_header_size = 4

abbrev pub marker_set_header_size : ℕ
marker_set_header_size = 8

abbrev pub chunk_start_min_size : ℕ
chunk_start_min_size = start_marker_size + header_size

abbrev pub chunk_data_header_size : ℕ
chunk_data_header_size = 16
