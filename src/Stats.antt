-- ===== src/Stats.antt =====
-- data/CameraStore.cpp: the live statistics that `publishFrame` keeps for each camera.
pub mod Window
use telefacet.Shared.{
  ℕ, ◌+◌, ◌-◌, ◌/◌, ◌%◌, ◌^◌, ◌==◌, ltb, leb, Bool, true, false, not, ◌&&◌, List, [], ◌∷◌, ◌++◌,
  Option, none, some, length, drop, sub_u64, if◌then◌else◌,
}
use mathlib.Core.List.{foldl}
use telefacet.Frame.{FrameBuffer}

-- The floating-point operations of the code. `F` holds both `float` and `double`.
pub record FloatOps (F : Type 0) : Type 0 where
  pub single : ℕ → F
  pub double : ℕ → F
  pub zero_double : F
  pub mul_single : F → F → F
  pub div_single : F → F → F
  pub add_double : F → F → F
  pub div_double : F → F → F
  pub to_single : F → F
  pub is_positive : F → Bool

-- Times are nanoseconds of the steady clock. `server_last_frame_id` is `none` for -1, no prior frame.
pub record LiveStats (F : Type 0) : Type 0 where
  pub last_frame_id : ℕ
  pub frames_saved : ℕ
  pub fps : F
  pub server_fps : F
  pub fps_window_count : ℕ
  pub fps_window_start : ℕ
  pub server_durations : List F
  pub server_last_timestamp : ℕ
  pub server_last_frame_id : Option ℕ
  pub server_fps_wall : ℕ

-- `duration_cast<milliseconds>(now - start).count()`, on a clock that does not go back.
abbrev pub elapsed_ms : ℕ → ℕ → ℕ
elapsed_ms now start = (now - start) / 10 ^ 6

abbrev pub max_durations : ℕ
max_durations = 10

-- `push_back`, and the first entry erased if there are more than 10.
abbrev pub push_duration : {F : Type 0} → F → List F → List F
push_duration d ds =
    let pushed = ds ++ d ∷ [] in if ltb max_durations (length pushed) then drop 1 pushed else pushed

abbrev pub is_seen : Option ℕ → Bool
is_seen none = false
is_seen (some id) = true

module _ {F : Type 0} (fl : FloatOps F) where
  open fl use {
    single, double, zero_double, mul_single, div_single, add_double, div_double, to_single,
    is_positive,
  }

  -- The member initialisers; `created` is when the object is made.
  abbrev pub fresh_stats : ℕ → LiveStats F
  fresh_stats created = record {
    last_frame_id = 0;
    frames_saved = 0;
    fps = single 0;
    server_fps = single 0;
    fps_window_count = 0;
    fps_window_start = created;
    server_durations = [];
    server_last_timestamp = 0;
    server_last_frame_id = none;
    server_fps_wall = created;
  }

  -- Client fps: frames delivered per second of wall clock.
  unfoldable pub count_frame : ℕ → LiveStats F → LiveStats F
  count_frame now s =
      let count = (s.fps_window_count + 1) % 2 ^ 64 in
      let elapsed = elapsed_ms now s.fps_window_start in
      if leb 1000 elapsed
      then record s {
        fps = div_single (mul_single (single count) (single 1000)) (single elapsed);
        fps_window_count = 0;
        fps_window_start = now;
      }
      else record s { fps_window_count = count }

  -- The time from the prior frame, over the gap in frame ids; 0 if there is none to tell.
  abbrev pub gap_duration : ℕ → ℕ → ℕ → Option ℕ → F
  gap_duration ts fid last_ts none = zero_double
  gap_duration ts fid last_ts (some last_id) =
      if ltb last_id fid
      then div_double (double (sub_u64 ts last_ts)) (double (fid - last_id))
      else zero_double

  unfoldable pub server_duration : FrameBuffer → LiveStats F → F
  server_duration buf s =
      let ts = buf.timestamp_us in
      let fdur = buf.frame_duration_us in
      if ltb 0 ts && (ltb 0 s.server_last_timestamp && is_seen s.server_last_frame_id)
      then gap_duration ts buf.frame_id s.server_last_timestamp s.server_last_frame_id
      else if ts == 0 && ltb 0 fdur
      then double fdur
      else zero_double

  unfoldable pub note_duration : FrameBuffer → LiveStats F → LiveStats F
  unfolding server_duration
  note_duration buf s =
      let duration = server_duration buf s in
      let ts = buf.timestamp_us in
      record s {
        server_durations =
            if is_positive duration
            then push_duration duration s.server_durations
            else s.server_durations;
        server_last_timestamp = if ltb 0 ts then ts else s.server_last_timestamp;
        server_last_frame_id = some buf.frame_id;
      }

  abbrev pub average : List F → F
  average ds = div_double (foldl add_double zero_double ds) (double (length ds))

  abbrev pub is_nil : List F → Bool
  is_nil [] = true
  is_nil (d ∷ ds) = false

  unfoldable pub refresh_server_fps : ℕ → LiveStats F → LiveStats F
  refresh_server_fps now s =
      if leb 1000 (elapsed_ms now s.server_fps_wall) && not (is_nil s.server_durations)
      then (let avg = average s.server_durations in
          record s {
            server_fps =
                if is_positive avg
                then to_single (div_double (double (10 ^ 6)) avg)
                else s.server_fps;
            server_fps_wall = now;
          })
      else s

  -- What `publishFrame` does to the statistics of the camera.
  unfoldable pub update_stats : ℕ → FrameBuffer → LiveStats F → LiveStats F
  unfolding count_frame note_duration refresh_server_fps
  update_stats now buf s = refresh_server_fps now (
      note_duration buf (
        count_frame now
          (record s { last_frame_id = buf.frame_id; frames_saved = buf.frames_saved })))
