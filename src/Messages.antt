-- ===== src/Messages.antt =====
-- net/WebSocketClient: what the text messages of a server hold, and how it is read from JSON.
use telefacet.Shared.{
  ℕ, ltb, Bool, true, false, not, ◌&&◌, List, [], ◌∷◌, Option, none, some, ◌>>=◌, Text, codes, ℤ,
  pos, if◌then◌else◌,
}
use telefacet.Frame.{FocusFomRegion, no_region}
use telefacet.Json.{JsonOps}

pub record DiscoveredCamera : Type 0 where
  pub id : ℕ
  pub sensor_type : Text

pub record FrameDurationLimits : Type 0 where
  pub valid : Bool
  pub min : ℤ
  pub max : ℤ
  pub num_cameras : ℤ
  pub has_current : Bool
  pub current_min : ℤ
  pub current_max : ℤ

-- A double is its bit pattern.
pub record LensPositionLimits : Type 0 where
  pub valid : Bool
  pub min : Option ℕ
  pub max : Option ℕ
  pub def : Option ℕ
  pub num_cameras : ℤ

pub record RawStreamInfo : Type 0 where
  pub valid : Bool
  pub format : Text
  pub width : ℕ
  pub height : ℕ
  pub stride : ℕ
  pub bit_depth : ℤ

abbrev pub no_raw_stream : RawStreamInfo
no_raw_stream = record {
  valid = false;
  format = [];
  width = 0;
  height = 0;
  stride = 0;
  bit_depth = pos 0;
}

pub record TriggerCapture : Type 0 where
  pub camera_id : ℕ
  pub frame_id : ℕ

pub record TriggerResult (J : Type 0) : Type 0 where
  pub valid : Bool
  pub trigger_id : ℕ
  pub cancelled : Bool
  pub captures : List TriggerCapture
  pub raw : J

pub record StackCapture : Type 0 where
  pub camera_id : ℕ
  pub error : Text
  pub frames_stacked : ℤ
  pub frames_rejected : ℤ
  pub settle_frames : ℤ
  pub first_frame_id : ℕ
  pub last_frame_id : ℕ
  pub first_timestamp_us : ℕ
  pub last_timestamp_us : ℕ
  pub exposure_time : ℤ
  pub analogue_gain : ℕ
  pub black_level : ℕ
  pub bit_depth : ℤ
  pub white_fraction : ℕ
  pub peak_fraction : ℕ
  pub clipped_fraction : ℕ
  pub width : ℕ
  pub height : ℕ
  pub accumulate_ms : ℕ

pub record StackResult (J : Type 0) : Type 0 where
  pub valid : Bool
  pub stack_id : ℕ
  pub cancelled : Bool
  pub captures : List StackCapture
  pub raw : J

abbrev pub is_empty_text : Text → Bool
is_empty_text [] = true
is_empty_text (c ∷ text) = false

module _ {J : Type 0} (json : JsonOps J) where
  open json use {
    contains, at, is_object, is_array, is_null, elements, value_unsigned, value_int, value_text,
    value_bool, value_double, get_double,
  }

  unfoldable pub parse_focus_fom_region : J → Option FocusFomRegion
  parse_focus_fom_region j = if not (is_object j) then some no_region else do
    x ← value_unsigned (codes "x") 0 j
    y ← value_unsigned (codes "y") 0 j
    width ← value_unsigned (codes "width") 0 j
    height ← value_unsigned (codes "height") 0 j
    frame_width ← value_unsigned (codes "frame_width") 0 j
    frame_height ← value_unsigned (codes "frame_height") 0 j
    some (record {
      valid = ltb 0 width && (ltb 0 height && (ltb 0 frame_width && ltb 0 frame_height));
      x = x;
      y = y;
      width = width;
      height = height;
      frame_width = frame_width;
      frame_height = frame_height;
    })

  unfoldable pub parse_raw_stream : J → Option RawStreamInfo
  parse_raw_stream j = if not (is_object j) then some no_raw_stream else do
    format ← value_text (codes "format") [] j
    width ← value_unsigned (codes "width") 0 j
    height ← value_unsigned (codes "height") 0 j
    stride ← value_unsigned (codes "stride") 0 j
    bit_depth ← value_int (codes "bit_depth") (pos 0) j
    some (record {
      valid = ltb 0 width && ltb 0 height;
      format = format;
      width = width;
      height = height;
      stride = stride;
      bit_depth = bit_depth;
    })

  unfoldable pub parse_stack_capture : J → Option StackCapture
  parse_stack_capture c = do
    camera_id ← value_unsigned (codes "camera_id") 0 c
    error ← value_text (codes "error") [] c
    frames_stacked ← value_int (codes "frames_stacked") (pos 0) c
    frames_rejected ← value_int (codes "frames_rejected") (pos 0) c
    settle_frames ← value_int (codes "settle_frames") (pos 0) c
    first_frame_id ← value_unsigned (codes "first_frame_id") 0 c
    last_frame_id ← value_unsigned (codes "last_frame_id") 0 c
    first_timestamp_us ← value_unsigned (codes "first_timestamp_us") 0 c
    last_timestamp_us ← value_unsigned (codes "last_timestamp_us") 0 c
    exposure_time ← value_int (codes "exposure_time") (pos 0) c
    analogue_gain ← value_double (codes "analogue_gain") 0 c
    black_level ← value_double (codes "black_level") 0 c
    bit_depth ← value_int (codes "bit_depth") (pos 0) c
    white_fraction ← value_double (codes "white_fraction") 0 c
    peak_fraction ← value_double (codes "peak_fraction") 0 c
    clipped_fraction ← value_double (codes "clipped_fraction") 0 c
    width ← value_unsigned (codes "width") 0 c
    height ← value_unsigned (codes "height") 0 c
    accumulate_ms ← value_double (codes "accumulate_ms") 0 c
    some (record {
      camera_id = camera_id;
      error = error;
      frames_stacked = frames_stacked;
      frames_rejected = frames_rejected;
      settle_frames = settle_frames;
      first_frame_id = first_frame_id;
      last_frame_id = last_frame_id;
      first_timestamp_us = first_timestamp_us;
      last_timestamp_us = last_timestamp_us;
      exposure_time = exposure_time;
      analogue_gain = analogue_gain;
      black_level = black_level;
      bit_depth = bit_depth;
      white_fraction = white_fraction;
      peak_fraction = peak_fraction;
      clipped_fraction = clipped_fraction;
      width = width;
      height = height;
      accumulate_ms = accumulate_ms;
    })

  -- The members of an array that is a member of `j`, if it is there and is one.
  abbrev pub members : Text → J → List J
  members key j = if contains key j && is_array (at key j) then elements (at key j) else []

  unfoldable pub parse_cameras : List J → Option (List DiscoveredCamera)
  parse_cameras [] = some []
  parse_cameras (c ∷ rest) = do
    id ← value_unsigned (codes "id") 0 c
    sensor_type ← value_text (codes "type") [] c
    later ← parse_cameras rest
    some (record { id = id; sensor_type = sensor_type } ∷ later)

  unfoldable pub parse_duration_limits : J → Option FrameDurationLimits
  parse_duration_limits j = do
    min ← value_int (codes "min") (pos 0) j
    max ← value_int (codes "max") (pos 0) j
    num_cameras ← value_int (codes "num_cameras") (pos 0) j
    let has_current = contains (codes "current") j && is_object (at (codes "current") j)
    let member = λ (key : Text).
        if has_current then value_int key (pos 0) (at (codes "current") j) else some (pos 0)
    current_min ← member (codes "min")
    current_max ← member (codes "max")
    some (record {
      valid = true;
      min = min;
      max = max;
      num_cameras = num_cameras;
      has_current = has_current;
      current_min = current_min;
      current_max = current_max;
    })

  -- The lambda `num`: a number, or none where it is absent or null.
  abbrev pub optional_double : Text → J → Option (Option ℕ)
  optional_double key j =
      if not (contains key j && not (is_null (at key j)))
      then some none
      else do d ← get_double (at key j); some (some d)

  unfoldable pub parse_lens_limits : J → Option LensPositionLimits
  parse_lens_limits j = do
    num_cameras ← value_int (codes "num_cameras") (pos 0) j
    min ← optional_double (codes "min") j
    max ← optional_double (codes "max") j
    def ← optional_double (codes "default") j
    some (record { valid = true; min = min; max = max; def = def; num_cameras = num_cameras })

  unfoldable pub parse_trigger_captures : List J → Option (List TriggerCapture)
  parse_trigger_captures [] = some []
  parse_trigger_captures (c ∷ rest) = do
    camera_id ← value_unsigned (codes "camera_id") 0 c
    frame_id ← value_unsigned (codes "frame_id") 0 c
    later ← parse_trigger_captures rest
    some (record { camera_id = camera_id; frame_id = frame_id } ∷ later)

  unfoldable pub parse_trigger_result : J → Option (TriggerResult J)
  unfolding parse_trigger_captures
  parse_trigger_result j = do
    trigger_id ← value_unsigned (codes "trigger_id") 0 j
    cancelled ← value_bool (codes "cancelled") false j
    captures ← parse_trigger_captures (members (codes "captures") j)
    some (record {
      valid = true;
      trigger_id = trigger_id;
      cancelled = cancelled;
      captures = captures;
      raw = j;
    })

  -- The captures of a stack, and the entries of those that did not fail.
  unfoldable pub parse_stack_captures : List J → Option (List StackCapture × List J)
  unfolding parse_stack_capture
  parse_stack_captures [] = some ([], [])
  parse_stack_captures (c ∷ rest) = do
    sc ← parse_stack_capture c
    (captures, entries) ← parse_stack_captures rest
    some (sc ∷ captures, if is_empty_text sc.error then c ∷ entries else entries)

  unfoldable pub parse_stack_result : J → Option (StackResult J × List J)
  unfolding parse_stack_captures
  parse_stack_result j = do
    stack_id ← value_unsigned (codes "stack_id") 0 j
    cancelled ← value_bool (codes "cancelled") false j
    (captures, entries) ← parse_stack_captures (members (codes "captures") j)
    some (
      record {
        valid = true;
        stack_id = stack_id;
        cancelled = cancelled;
        captures = captures;
        raw = j;
      },
      entries,
    )
