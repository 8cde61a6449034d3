-- ===== src/Client.antt =====
-- client/Client.cpp: what a caller of the client gets, of captures and of live frames.
pub mod Captured
pub mod Stacked
pub mod Cursors
pub mod Polling
mod Tests
use telefacet.Shared.{
  ℕ, ◌+◌, ◌-◌, ◌*◌, ltb, Bool, true, false, not, ◌&&◌, ◌||◌, ◌==◌, List, [], ◌∷◌, ◌++◌, Option,
  none, some, lookup, insert, Text, ℤ, pos, negsuc, sort_on, if◌then◌else◌,
}
use telefacet.Frame.{FrameBuffer, ArucoMarker, nan_bits}
use telefacet.Messages.{TriggerResult, StackResult, StackCapture, is_empty_text}
use telefacet.Config.{FrameSavingCfg}
use telefacet.Cameras.{CameraInfo, Store, find, find_by_server, consume_if_new, snapshot}
use telefacet.Rendezvous.{Pending, CaptureRun}

pub record CameraMarkers : Type 0 where
  pub global_camera_id : ℕ
  pub server_index : ℕ
  pub local_camera_id : ℕ
  pub frame_id : ℕ
  pub timestamp_us : ℕ
  pub lens_position : ℕ
  pub width : ℕ
  pub height : ℕ
  pub markers : List ArucoMarker

abbrev pub no_markers : CameraMarkers
no_markers = record {
  global_camera_id = 0;
  server_index = 0;
  local_camera_id = 0;
  frame_id = 0;
  timestamp_us = 0;
  lens_position = nan_bits;
  width = 0;
  height = 0;
  markers = [];
}

pub record CapturedFrame : Type 0 where
  pub global_camera_id : ℕ
  pub server_index : ℕ
  pub local_camera_id : ℕ
  pub frame_id : ℕ
  pub frame : FrameBuffer

pub record TriggerOutcome : Type 0 where
  pub complete : Bool
  pub cancelled : Bool
  pub refusals : List Text
  pub captures : List CapturedFrame

-- A double is its bit pattern.
pub record StackOptions : Type 0 where
  pub num_frames : Option ℤ
  pub exposure_time_us : Option ℤ
  pub analogue_gain : Option ℕ
  pub skip_frames : Option ℤ
  pub send_image : Bool

pub record StackRequest : Type 0 where
  pub camera_id : Option ℕ
  pub num_frames : Option ℤ
  pub exposure_time_us : Option ℤ
  pub analogue_gain : Option ℕ
  pub skip_frames : Option ℤ
  pub send_image : Option Bool

pub record StackedCamera : Type 0 where
  pub global_camera_id : ℕ
  pub server_index : ℕ
  pub local_camera_id : ℕ
  pub stats : StackCapture
  pub frame : Option FrameBuffer

pub record StackOutcome : Type 0 where
  pub complete : Bool
  pub cancelled : Bool
  pub refusals : List Text
  pub cameras : List StackedCamera

abbrev pub value_or : {A : Type 0} → Option A → A → A
value_or none d = d
value_or (some a) d = a

abbrev pub is_positive_int : ℤ → Bool
is_positive_int (pos n) = ltb 0 n
is_positive_int (negsuc n) = false

-- The request that `stackCapture` makes of the options and the configuration.
abbrev pub stack_request : (ℕ → Bool) → FrameSavingCfg → StackOptions → StackRequest
stack_request is_positive d opts =
    let exposure = value_or opts.exposure_time_us d.stack_exposure_time in
    let gain = value_or opts.analogue_gain d.stack_analogue_gain in
    record {
      camera_id = none;
      num_frames = some (value_or opts.num_frames d.stack_num_frames);
      exposure_time_us = if is_positive_int exposure then some exposure else none;
      analogue_gain = if is_positive gain then some gain else none;
      skip_frames = some (value_or opts.skip_frames d.stack_skip_frames);
      send_image = some opts.send_image;
    }

-- The global id of a camera of a server; 0 for one that is not in the roster.
abbrev pub global_id_or_zero : Option CameraInfo → ℕ
global_id_or_zero none = 0
global_id_or_zero (some info) = info.global_id

-- The last of the frames that is of the camera.
unfoldable pub last_frame_of : ℕ → Option FrameBuffer → List FrameBuffer → Option FrameBuffer
last_frame_of camera found [] = found
last_frame_of camera found (f ∷ rest) =
    last_frame_of camera (if f.camera_id == camera then some f else found) rest

module _ {F : Type 0} where
  abbrev pub captured_frame : Store F → ℕ → FrameBuffer → CapturedFrame
  captured_frame store server f = record {
    global_camera_id = global_id_or_zero (find_by_server server f.camera_id store);
    server_index = server;
    local_camera_id = f.camera_id;
    frame_id = f.frame_id;
    frame = f;
  }

  unfoldable pub captured_frames : Store F → ℕ → List FrameBuffer → List CapturedFrame
  captured_frames store server [] = []
  captured_frames store server (f ∷ rest) =
      captured_frame store server f ∷ captured_frames store server rest

  abbrev pub stacked_camera : Store F → ℕ → List FrameBuffer → StackCapture → StackedCamera
  unfolding last_frame_of
  stacked_camera store server frames c = record {
    global_camera_id = global_id_or_zero (find_by_server server c.camera_id store);
    server_index = server;
    local_camera_id = c.camera_id;
    stats = c;
    frame = last_frame_of c.camera_id none frames;
  }

  unfoldable pub stacked_cameras :
      Store F → ℕ → List FrameBuffer → List StackCapture → List StackedCamera
  unfolding last_frame_of
  stacked_cameras store server frames [] = []
  stacked_cameras store server frames (c ∷ rest) =
      stacked_camera store server frames c ∷ stacked_cameras store server frames rest

module _ {J : Type 0} where
  abbrev pub is_trigger_cancelled : Option (TriggerResult J) → Bool
  is_trigger_cancelled none = false
  is_trigger_cancelled (some tr) = tr.cancelled

  unfoldable pub any_trigger_cancelled : List (ℕ × Pending J) → Bool
  any_trigger_cancelled [] = false
  any_trigger_cancelled ((server, p) ∷ rest) =
      is_trigger_cancelled p.trigger_result || any_trigger_cancelled rest

  abbrev pub is_stack_cancelled : Option (StackResult J) → Bool
  is_stack_cancelled none = false
  is_stack_cancelled (some sr) = sr.cancelled

  abbrev pub captures_of : Option (StackResult J) → List StackCapture
  captures_of none = []
  captures_of (some sr) = sr.captures

  unfoldable pub any_stack_cancelled : List (ℕ × Pending J) → Bool
  any_stack_cancelled [] = false
  any_stack_cancelled ((server, p) ∷ rest) =
      is_stack_cancelled p.stack_result || any_stack_cancelled rest

module _ {J F : Type 0} where
  -- The loop over the servers, before the captures are sorted.
  unfoldable pub all_captures : Store F → List (ℕ × Pending J) → List CapturedFrame
  unfolding captured_frames
  all_captures store [] = []
  all_captures store ((server, p) ∷ rest) =
      captured_frames store server p.frames ++ all_captures store rest

  -- `triggerCapture`, from what `runCapture` gives.
  unfoldable pub trigger_outcome : Store F → CaptureRun J → TriggerOutcome
  unfolding all_captures any_trigger_cancelled
  trigger_outcome store run = record {
    complete = run.complete;
    cancelled = any_trigger_cancelled run.got;
    refusals = run.refusals;
    captures = sort_on (λ c. c.global_camera_id) (all_captures store run.got);
  }

  unfoldable pub all_stacked : Store F → List (ℕ × Pending J) → List StackedCamera
  unfolding stacked_cameras
  all_stacked store [] = []
  all_stacked store ((server, p) ∷ rest) =
      stacked_cameras store server p.frames (captures_of p.stack_result) ++ all_stacked store rest

  -- `stackCapture`, from what `runCapture` gives.
  unfoldable pub stack_outcome : Store F → CaptureRun J → StackOutcome
  unfolding all_stacked any_stack_cancelled
  stack_outcome store run = record {
    complete = run.complete;
    cancelled = any_stack_cancelled run.got;
    refusals = run.refusals;
    cameras = sort_on (λ c. c.global_camera_id) (all_stacked store run.got);
  }

-- `operator bool` of the outcomes.
abbrev pub is_taken : TriggerOutcome → Bool
is_taken o = o.complete && not o.cancelled

abbrev pub has_image : Option FrameBuffer → Bool
has_image none = false
has_image (some f) = true

unfoldable pub all_stacked_well : List StackedCamera → Bool
all_stacked_well [] = true
all_stacked_well (c ∷ rest) =
    is_empty_text c.stats.error && (has_image c.frame && all_stacked_well rest)

unfoldable pub is_stacked : StackOutcome → Bool
unfolding all_stacked_well
is_stacked o = (o.complete && not o.cancelled) && all_stacked_well o.cameras

abbrev pub copy_out : ℕ → FrameBuffer → CameraMarkers → CameraMarkers
copy_out id buf out = record out {
  global_camera_id = id;
  local_camera_id = buf.camera_id;
  frame_id = buf.frame_id;
  timestamp_us = buf.timestamp_us;
  lens_position = buf.lens_position;
  width = buf.width;
  height = buf.height;
  markers = buf.aruco_markers;
}

abbrev pub with_server : Option CameraInfo → CameraMarkers → CameraMarkers
with_server none out = out
with_server (some info) out = record out { server_index = info.server_index }

-- `seen_seq_`: the cursor of each camera that was asked for.
abbrev pub Cursors : Type 0
Cursors = List (ℕ × ℕ)

abbrev pub cursor_of : ℕ → Cursors → ℕ
cursor_of id cursors = value_or (lookup id cursors) 0

abbrev pub with_markers : Option CameraMarkers → List CameraMarkers → List CameraMarkers
with_markers none rest = rest
with_markers (some m) rest = m ∷ rest

module _ {F : Type 0} where
  abbrev pub deliver : Store F → ℕ → CameraMarkers → Option FrameBuffer → Option CameraMarkers
  unfolding find
  deliver store id out none = none
  deliver store id out (some buf) = some (with_server (find id store) (copy_out id buf out))

  -- `latest`: what it writes to `out` if it returns true, and the cursors.
  unfoldable pub latest : Store F → Cursors → ℕ → CameraMarkers → Option CameraMarkers × Cursors
  unfolding consume_if_new find
  latest store cursors id out =
      let (buf, cursor) = consume_if_new id (cursor_of id cursors) store in
      (deliver store id out buf, insert id cursor cursors)

  unfoldable pub poll_cameras : Store F → Cursors → List CameraInfo → List CameraMarkers × Cursors
  unfolding latest
  poll_cameras store cursors [] = ([], cursors)
  poll_cameras store cursors (info ∷ rest) =
      let (m, cursors') = latest store cursors info.global_id no_markers in
      let (out, final) = poll_cameras store cursors' rest in (with_markers m out, final)

  unfoldable pub poll : Store F → Cursors → List CameraMarkers × Cursors
  unfolding poll_cameras snapshot
  poll store cursors = poll_cameras store cursors (snapshot store)
