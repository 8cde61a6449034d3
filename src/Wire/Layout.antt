-- ===== src/Wire/Layout.antt =====
-- The wire layout written down a second time, as the fields of each struct in their order of
-- declaration, and the reads at fixed offsets proved to be its inverse.
use telefacet.Shared.{
  ℕ, ◌^◌, ◌<◌, ◌≡◌, refl, ap, List, ◌++◌, length, le, to_le, le-to_le, ℤ, signed32, pattern32,
  InInt32, pattern32_lt, signed32-pattern32, ◌∙◌,
}
use telefacet.Wire.{ChunkHeader, read_header}

unfoldable pub header_bytes : ChunkHeader → List ℕ
header_bytes h =
    to_le 4 h.frame_uuid
    ++ (to_le 4 h.frame_id
        ++ (to_le 4 h.camera_id
            ++ (to_le 4 h.total_chunks
                ++ (to_le 4 h.total_size
                    ++ (to_le 4 h.bytes_per_line
                        ++ (to_le 4 h.width
                            ++ (to_le 4 h.height
                                ++ (to_le 4 h.pixel_format
                                    ++ (to_le 4 h.frames_saved
                                        ++ (to_le 8 h.timestamp_us
                                            ++ (to_le 4 h.frame_duration_us
                                                ++ (to_le 4 h.corner_block_size
                                                    ++ (to_le 2 h.num_corner_sets
                                                        ++ (to_le 2 h.capture_id
                                                            ++ (to_le 4 h.lens_position
                                                            ++ (to_le 1 h.af_state
                                                            ++ (to_le 1 h.detection_kind
                                                            ++ (to_le 1 h.frame_kind
                                                            ++ (to_le 1 h.reserved2
                                                            ++ to_le 4 (
                                                            pattern32
                                                            h.focus_fom))))))))))))))))))))

-- Each field has a value of its width.
pub record IsHeader (h : ChunkHeader) : Type 0 where
  pub frame_uuid : h.frame_uuid < 2 ^ 32
  pub frame_id : h.frame_id < 2 ^ 32
  pub camera_id : h.camera_id < 2 ^ 32
  pub total_chunks : h.total_chunks < 2 ^ 32
  pub total_size : h.total_size < 2 ^ 32
  pub bytes_per_line : h.bytes_per_line < 2 ^ 32
  pub width : h.width < 2 ^ 32
  pub height : h.height < 2 ^ 32
  pub pixel_format : h.pixel_format < 2 ^ 32
  pub frames_saved : h.frames_saved < 2 ^ 32
  pub timestamp_us : h.timestamp_us < 2 ^ 64
  pub frame_duration_us : h.frame_duration_us < 2 ^ 32
  pub corner_block_size : h.corner_block_size < 2 ^ 32
  pub num_corner_sets : h.num_corner_sets < 2 ^ 16
  pub capture_id : h.capture_id < 2 ^ 16
  pub lens_position : h.lens_position < 2 ^ 32
  pub af_state : h.af_state < 2 ^ 8
  pub detection_kind : h.detection_kind < 2 ^ 8
  pub frame_kind : h.frame_kind < 2 ^ 8
  pub reserved2 : h.reserved2 < 2 ^ 8
  pub focus_fom : InInt32 h.focus_fom

pub signed32-le : (z : ℤ) → InInt32 z → signed32 (le (to_le 4 (pattern32 z))) ≡ z
signed32-le z h = ap signed32 (le-to_le 4 (pattern32 z) (pattern32_lt z h)) ∙ signed32-pattern32 z h

-- Reading back the packed header gives each field as it was put in.
pub read_header-header_bytes : (h : ChunkHeader) → IsHeader h → read_header (header_bytes h) ≡ h
unfolding read_header header_bytes
read_header-header_bytes h v = λ i. record {
  frame_uuid = le-to_le 4 h.frame_uuid v.frame_uuid i;
  frame_id = le-to_le 4 h.frame_id v.frame_id i;
  camera_id = le-to_le 4 h.camera_id v.camera_id i;
  total_chunks = le-to_le 4 h.total_chunks v.total_chunks i;
  total_size = le-to_le 4 h.total_size v.total_size i;
  bytes_per_line = le-to_le 4 h.bytes_per_line v.bytes_per_line i;
  width = le-to_le 4 h.width v.width i;
  height = le-to_le 4 h.height v.height i;
  pixel_format = le-to_le 4 h.pixel_format v.pixel_format i;
  frames_saved = le-to_le 4 h.frames_saved v.frames_saved i;
  timestamp_us = le-to_le 8 h.timestamp_us v.timestamp_us i;
  frame_duration_us = le-to_le 4 h.frame_duration_us v.frame_duration_us i;
  corner_block_size = le-to_le 4 h.corner_block_size v.corner_block_size i;
  num_corner_sets = le-to_le 2 h.num_corner_sets v.num_corner_sets i;
  capture_id = le-to_le 2 h.capture_id v.capture_id i;
  lens_position = le-to_le 4 h.lens_position v.lens_position i;
  af_state = le-to_le 1 h.af_state v.af_state i;
  detection_kind = le-to_le 1 h.detection_kind v.detection_kind i;
  frame_kind = le-to_le 1 h.frame_kind v.frame_kind i;
  reserved2 = le-to_le 1 h.reserved2 v.reserved2 i;
  focus_fom = signed32-le h.focus_fom v.focus_fom i;
}

pub length-header_bytes : (h : ChunkHeader) → length (header_bytes h) ≡ 72
unfolding header_bytes
length-header_bytes h = refl
