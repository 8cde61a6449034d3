-- ===== src/Broadcast.antt =====
-- net/MultiServerManager.cpp: commands to all servers, and the streams of cameras.
pub mod Recipients
mod Tests
use telefacet.Shared.{
  ℕ, zero, suc, ◌+◌, ◌==◌, Bool, true, false, not, ◌&&◌, ◌||◌, List, [], ◌∷◌, Option, none, some,
  length, get_elem?, Text, codes, same_text, ℤ, if◌then◌else◌,
}
use telefacet.Messages.{is_empty_text}
use telefacet.Json.{JsonMake}
use telefacet.Config.{ServerCfg, FrameSavingCfg}
use telefacet.Client.{StackRequest}
use telefacet.Commands.{Command, set_maybe}
use telefacet.Cameras.{CameraInfo, Store, find, find_in}

-- What the manager uses of its connections, one for each configured server: whether one is
-- connected, whether it has a capture in progress, and a command to it with whether it was sent. `W`
-- is the state of all of them.
pub record Links (J W : Type 0) : Type 0 where
  pub is_connected : ℕ → W → Bool
  pub in_progress : ℕ → W → Bool
  pub send : ℕ → Command J → W → Bool × W

abbrev pub raw_of : Option ServerCfg → Bool
raw_of none = false
raw_of (some sc) = sc.raw

abbrev pub configure_command : {J : Type 0} → Option ServerCfg → Option (Command J)
configure_command none = none
configure_command (some sc) = some (Command.configure_cameras sc.width sc.height sc.raw)

abbrev pub for_every_camera : StackRequest → StackRequest
for_every_camera req = record req { camera_id = none }

unfoldable pub any_raw_configured : List ServerCfg → Bool
any_raw_configured [] = false
any_raw_configured (s ∷ rest) = s.raw || any_raw_configured rest

-- The camera with the id, marked as streaming or not.
unfoldable pub set_streaming : ℕ → Bool → List CameraInfo → List CameraInfo
set_streaming id on [] = []
set_streaming id on (c ∷ rest) =
    if c.global_id == id then record c { streaming = on } ∷ rest else c ∷ set_streaming id on rest

module _ {J W : Type 0} (links : Links J W) where
  open links use {is_connected, in_progress, send}

  -- The loop over `count` connections from `i` on: each that is connected gets its command, if there
  -- is one for it. The servers that the command was sent to, in order.
  unfoldable pub tell_from : ℕ → ℕ → (ℕ → Option (Command J)) → W → List ℕ × W
  tell_from zero i command w = ([], w)
  tell_from (suc count) i command w = elim (is_connected i w) [
    | false ↦ tell_from count (i + 1) command w
    | true ↦ elim (command i) [
      | none ↦ tell_from count (i + 1) command w
      | some cmd ↦
          let (sent, w') = send i cmd w in
          let (rest, w'') = tell_from count (i + 1) command w' in
          (if sent then i ∷ rest else rest, w'')
    ]
  ]

  abbrev pub tell_all : List ServerCfg → Command J → W → W
  unfolding tell_from
  tell_all servers cmd w = (tell_from (length servers) 0 (λ i. some cmd) w).1

  unfoldable pub configure_all : List ServerCfg → W → W
  unfolding tell_from
  configure_all servers w =
      (tell_from (length servers) 0 (λ i. configure_command (get_elem? servers i)) w).1

  unfoldable pub unconfigure_all : List ServerCfg → W → W
  unfolding tell_all
  unconfigure_all servers = tell_all servers Command.unconfigure

  unfoldable pub start_all_cameras : List ServerCfg → W → W
  unfolding tell_all
  start_all_cameras servers = tell_all servers Command.start_cameras

  unfoldable pub stop_all_cameras : List ServerCfg → W → W
  unfolding tell_all
  stop_all_cameras servers = tell_all servers Command.stop_cameras

  unfoldable pub get_state_all : List ServerCfg → W → W
  unfolding tell_all
  get_state_all servers = tell_all servers Command.get_state

  unfoldable pub set_save_mode_all : List ServerCfg → Text → J → W → W
  unfolding tell_all
  set_save_mode_all servers mode params = tell_all servers (Command.set_save_mode mode params)

  unfoldable pub trigger_capture_all : List ServerCfg → Option ℤ → Option Bool → W → List ℕ × W
  unfolding tell_from
  trigger_capture_all servers skip image =
      tell_from (length servers) 0 (λ i. some (Command.trigger_capture none skip image))

  -- To the servers that are configured with `raw` alone.
  unfoldable pub stack_capture_all : List ServerCfg → StackRequest → W → List ℕ × W
  unfolding tell_from
  stack_capture_all servers req = tell_from (length servers) 0 (λ i.
      if raw_of (get_elem? servers i)
      then some (Command.stack_capture (for_every_camera req))
      else none)

  -- `count` connections from `i` on.
  unfoldable pub any_capture_from : ℕ → ℕ → W → Bool
  any_capture_from zero i w = false
  any_capture_from (suc count) i w =
      (is_connected i w && in_progress i w) || any_capture_from count (i + 1) w

  unfoldable pub any_capture_in_progress : List ServerCfg → W → Bool
  unfolding any_capture_from
  any_capture_in_progress servers = any_capture_from (length servers) 0

  unfoldable pub set_header_only_all : List ServerCfg → Bool → W → W
  unfolding tell_all
  set_header_only_all servers on = tell_all servers (Command.set_header_only on)

  unfoldable pub reset_frame_counts_all : List ServerCfg → W → W
  unfolding tell_all
  reset_frame_counts_all servers = tell_all servers Command.reset_frame_counts

  unfoldable pub set_lens_position_all : List ServerCfg → ℕ → W → W
  unfolding tell_all
  set_lens_position_all servers d = tell_all servers (Command.set_lens_position d)

  unfoldable pub set_exposure_time_all : List ServerCfg → ℤ → W → W
  unfolding tell_all
  set_exposure_time_all servers us = tell_all servers (Command.set_exposure_time us)

  unfoldable pub set_frame_duration_all : List ServerCfg → ℤ → W → W
  unfolding tell_all
  set_frame_duration_all servers us = tell_all servers (Command.set_frame_duration us)

  -- The first of `count` connections from `i` on that is connected.
  unfoldable pub ask_first : ℕ → ℕ → Command J → W → Bool × W
  ask_first zero i cmd w = (false, w)
  ask_first (suc count) i cmd w =
      if is_connected i w then send i cmd w else ask_first count (i + 1) cmd w

  unfoldable pub get_frame_duration_limits : List ServerCfg → W → Bool × W
  unfolding ask_first
  get_frame_duration_limits servers = ask_first (length servers) 0 Command.get_frame_duration_limits

  unfoldable pub get_lens_position_limits : List ServerCfg → W → Bool × W
  unfolding ask_first
  get_lens_position_limits servers = ask_first (length servers) 0 Command.get_lens_position_limits

  abbrev pub mark : {F : Type 0} → Bool → ℕ → Bool → Store F → Store F
  unfolding set_streaming
  mark sent id on store =
      if sent then record store { roster = set_streaming id on store.roster } else store

  -- `startStream` and `stopStream`: whether the command was sent, and then the camera is marked.
  unfoldable pub stream_to :
      {F : Type 0}
      → Bool
      → (ℕ → Command J)
      → List ServerCfg
      → ℕ
      → Store F
      → W
      → Bool × (Store F × W)
  unfolding find mark
  stream_to on command servers id store w = elim (find id store) [
    | none ↦ (false, (store, w))
    | some info ↦ elim (get_elem? servers info.server_index) [
      | none ↦ (false, (store, w))
      | some sc ↦ elim (is_connected info.server_index w) [
        | false ↦ (false, (store, w))
        | true ↦
            let (sent, w') = send info.server_index (command info.local_camera_id) w in
            (sent, (mark sent id on store, w'))
      ]
    ]
  ]

  unfoldable pub start_stream :
      {F : Type 0} → List ServerCfg → ℕ → Store F → W → Bool × (Store F × W)
  unfolding stream_to
  start_stream = stream_to true Command.start_stream

  unfoldable pub stop_stream :
      {F : Type 0} → List ServerCfg → ℕ → Store F → W → Bool × (Store F × W)
  unfolding stream_to
  stop_stream = stream_to false Command.stop_stream

module _ {J : Type 0} (make : JsonMake J) where
  open make use {object, text, unsigned, int, bool, set}

  abbrev checkerboard_params : FrameSavingCfg → J → J
  checkerboard_params s p =
      set_maybe set (codes "checkerboard_subpix_window") int s.checkerboard_subpix_window (
        set (codes "checkerboard_num_threads") (int s.checkerboard_num_threads) (
          set (codes "checkerboard_full_res_detection") (bool s.checkerboard_full_res_detection) (
            set (codes "checkerboard_cols") (int s.checkerboard_cols)
              (set (codes "checkerboard_rows") (int s.checkerboard_rows) p))))

  abbrev aruco_params : FrameSavingCfg → J → J
  aruco_params s p = set (codes "aruco_corner_refine") (bool s.aruco_corner_refine) (
      set (codes "aruco_num_threads") (int s.aruco_num_threads)
        (set (codes "aruco_full_res_detection") (bool s.aruco_full_res_detection) p))

  abbrev is_either : Text → Text → Text → Bool
  is_either a b m = same_text m a || same_text m b

  -- The mode of the configuration, if none is given.
  unfoldable pub saving_params_from_config : Text → FrameSavingCfg → J
  saving_params_from_config mode s =
      let m = if is_empty_text mode then s.mode else mode in
      let p = object (
        (codes "save_frames", bool s.save_frames)
        ∷ (codes "output_dir", text s.output_dir)
        ∷ (codes "prepend_timestamp_to_dir", bool s.prepend_timestamp_to_dir)
        ∷ (codes "batch_size", unsigned s.batch_size)
        ∷ (codes "writer_threads", unsigned s.writer_threads)
        ∷ (codes "backlog_max_bytes", unsigned s.backlog_max_bytes)
        ∷ (codes "disk_write_bytes_per_sec", unsigned s.disk_write_bytes_per_sec)
        ∷ (codes "allow_overcommit", bool s.allow_overcommit)
        ∷ []) in
      let p' =
        if is_either (codes "checkerboard") (codes "checkerboard2x2") m
        then checkerboard_params s p
        else p in
      if is_either (codes "aruco") (codes "aruco2x2") m then aruco_params s p' else p'
