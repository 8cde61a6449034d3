-- ===== src/Wire/Tests.antt =====
-- A header read back.
use telefacet.Shared.{◌≡◌, arith, negsuc}
use telefacet.Wire.{ChunkHeader, read_header}
use telefacet.Wire.Layout.{header_bytes, read_header-header_bytes}

abbrev stack_header : ChunkHeader
stack_header = record {
  frame_uuid = 0xdeadbeef;
  frame_id = 40;
  camera_id = 1;
  total_chunks = 2;
  total_size = 3;
  bytes_per_line = 3;
  width = 3;
  height = 1;
  pixel_format = 0x32334653;
  frames_saved = 0;
  timestamp_us = 0x1_0000_0000;
  frame_duration_us = 33;
  corner_block_size = 12;
  num_corner_sets = 1;
  capture_id = 9;
  lens_position = 0x7fc00000;
  af_state = 0xff;
  detection_kind = 1;
  frame_kind = 1;
  reserved2 = 0;
  focus_fom = negsuc 0;
}

read_header-header_bytes_example : read_header (header_bytes stack_header) ≡ stack_header
read_header-header_bytes_example = read_header-header_bytes stack_header (omega arith)
