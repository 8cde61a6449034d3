-- ===== src/Config.antt =====
-- config/ConfigLoader.hpp: the configuration.
pub mod Validation
pub mod Load
use telefacet.Shared.{ℕ, Bool, true, false, List, [], Option, none, Text, codes, ℤ, pos}

pub record ServerCfg : Type 0 where
  pub address : Text
  pub sensor : Text
  pub width : Option ℕ
  pub height : Option ℕ
  pub raw : Bool

-- A double is its bit pattern.
pub record FrameSavingCfg : Type 0 where
  pub mode : Text
  pub save_frames : Bool
  pub output_dir : Text
  pub prepend_timestamp_to_dir : Bool
  pub batch_size : ℕ
  pub writer_threads : ℕ
  pub checkerboard_rows : ℤ
  pub checkerboard_cols : ℤ
  pub checkerboard_full_res_detection : Bool
  pub checkerboard_num_threads : ℤ
  pub checkerboard_subpix_window : Option ℤ
  pub aruco_full_res_detection : Bool
  pub aruco_num_threads : ℤ
  pub aruco_corner_refine : Bool
  pub trigger_skip_frames : ℤ
  pub stack_num_frames : ℤ
  pub stack_exposure_time : ℤ
  pub stack_analogue_gain : ℕ
  pub stack_skip_frames : ℤ
  pub backlog_max_bytes : ℕ
  pub disk_write_bytes_per_sec : ℕ
  pub allow_overcommit : Bool

pub record CaptureSavingCfg : Type 0 where
  pub save : Bool
  pub dir : Text

pub record Config : Type 0 where
  pub servers : List ServerCfg
  pub saving : FrameSavingCfg
  pub captures : CaptureSavingCfg

-- The member initialisers.
abbrev pub default_server : ServerCfg
default_server = record { address = []; sensor = []; width = none; height = none; raw = false }

abbrev pub default_saving : FrameSavingCfg
default_saving = record {
  mode = codes "none";
  save_frames = true;
  output_dir = codes "camera_frames";
  prepend_timestamp_to_dir = false;
  batch_size = 10;
  writer_threads = 4;
  checkerboard_rows = pos 8;
  checkerboard_cols = pos 11;
  checkerboard_full_res_detection = false;
  checkerboard_num_threads = pos 4;
  checkerboard_subpix_window = none;
  aruco_full_res_detection = false;
  aruco_num_threads = pos 4;
  aruco_corner_refine = false;
  trigger_skip_frames = pos 0;
  stack_num_frames = pos 16;
  stack_exposure_time = pos 0;
  stack_analogue_gain = 0;
  stack_skip_frames = pos 0;
  backlog_max_bytes = 0;
  disk_write_bytes_per_sec = 0;
  allow_overcommit = false;
}

abbrev pub default_captures : CaptureSavingCfg
default_captures = record { save = true; dir = codes "captures" }
