-- ===== src/Frame.antt =====
-- The data of data/FrameBufferPool.hpp: detections, and the buffer that holds one frame.
-- A `float` is kept as its 32-bit pattern, since this code only moves it.
use telefacet.Shared.{ℕ, Bool, false, List, [], ℤ, negsuc}

abbrev pub Point : Type 0
Point = ℕ × ℕ

pub record CornerSet : Type 0 where
  pub set_id : ℕ
  pub flags : ℕ
  pub corners : List Point

pub record ArucoMarker : Type 0 where
  pub marker_id : ℤ
  pub quadrant : ℕ
  pub flags : ℕ
  pub corners : List Point

pub record FocusFomRegion : Type 0 where
  pub valid : Bool
  pub x : ℕ
  pub y : ℕ
  pub width : ℕ
  pub height : ℕ
  pub frame_width : ℕ
  pub frame_height : ℕ

abbrev pub no_region : FocusFomRegion
no_region = record {
  valid = false;
  x = 0;
  y = 0;
  width = 0;
  height = 0;
  frame_width = 0;
  frame_height = 0;
}

-- What `FrameBuffer` holds beside its bytes: the frame's metadata and its detections.
pub record FrameInfo : Type 0 where
  pub frame_id : ℕ
  pub camera_id : ℕ
  pub width : ℕ
  pub height : ℕ
  pub bytes_per_line : ℕ
  pub pixel_format : ℕ
  pub frame_kind : ℕ
  pub capture_id : ℕ
  pub frames_saved : ℕ
  pub timestamp_us : ℕ
  pub frame_duration_us : ℕ
  pub lens_position : ℕ
  pub af_state : ℕ
  pub focus_fom : ℤ
  pub focus_fom_region : FocusFomRegion
  pub detection_kind : ℕ
  pub corner_sets : List CornerSet
  pub aruco_markers : List ArucoMarker

-- `FrameBuffer`. `id` is the identity of the shared object behind the `shared_ptr`.
pub record FrameBuffer : Type 0 where
  pub id : ℕ
  pub bytes : List ℕ
  pub info : FrameInfo
  pub open info use *
  pub header_only : Bool

-- The bit pattern of the `NAN` that `lens_position` starts with.
abbrev pub nan_bits : ℕ
nan_bits = 0x7fc00000

-- The member initialisers of `FrameBuffer`.
abbrev pub default_info : FrameInfo
default_info = record {
  frame_id = 0;
  camera_id = 0;
  width = 0;
  height = 0;
  bytes_per_line = 0;
  pixel_format = 0;
  frame_kind = 0;
  capture_id = 0;
  frames_saved = 0;
  timestamp_us = 0;
  frame_duration_us = 0;
  lens_position = nan_bits;
  af_state = 0xff;
  focus_fom = negsuc 0;
  focus_fom_region = no_region;
  detection_kind = 0;
  corner_sets = [];
  aruco_markers = [];
}
