-- ===== src/Sidecar.antt =====
-- data/CaptureSaver.cpp: the names of files and directories, and the file beside a capture.
pub mod Names
mod Tests
use telefacet.Shared.{
  ℕ, ◌+◌, ◌/◌, ◌%◌, ◌^◌, ltb, leb, ◌==◌, Bool, true, false, not, ◌&&◌, ◌||◌, List, [], ◌∷◌, ◌++◌,
  map, Option, none, some, length, drop, replicate, Text, codes, to_string, ◌-◌, ℤ, pos, negsuc,
  if◌then◌else◌,
}
use telefacet.Frame.{Point, CornerSet, ArucoMarker, FrameBuffer}
use telefacet.Wire.{DetectionKind, detection_kind_of, stack_kind, trigger_kind}
use telefacet.Messages.{is_empty_text}
use telefacet.Json.{JsonMake}

abbrev pub is_stack : FrameBuffer → Bool
is_stack f = f.frame_kind == stack_kind

abbrev pub kind_name : FrameBuffer → Text
kind_name f =
    if f.frame_kind == stack_kind
    then codes "stack"
    else if f.frame_kind == trigger_kind
    then codes "trigger"
    else codes "live"

abbrev detection_text : Option DetectionKind → Text
detection_text (some DetectionKind.checkerboard) = codes "checkerboard"
detection_text (some DetectionKind.aruco) = codes "aruco"
detection_text (some DetectionKind.no_detection) = codes "none"
detection_text none = codes "none"

abbrev pub detection_name : ℕ → Text
detection_name kind = detection_text (detection_kind_of kind)

-- What `gmtime_r` and `localtime_r` give, for the years that have four digits, and the milliseconds.
pub record Moment : Type 0 where
  pub year : ℕ
  pub month : ℕ
  pub day : ℕ
  pub hour : ℕ
  pub minute : ℕ
  pub second : ℕ
  pub millisecond : ℕ

-- `%0<width>d` of a number.
abbrev pub padded : ℕ → ℕ → Text
padded width n = let t = to_string n in replicate (width - length t) b'0' ++ t

abbrev pub iso_utc : Moment → Text
iso_utc t =
    padded 4 t.year
    ++ codes "-"
    ++ padded 2 t.month
    ++ codes "-"
    ++ padded 2 t.day
    ++ codes "T"
    ++ padded 2 t.hour
    ++ codes ":"
    ++ padded 2 t.minute
    ++ codes ":"
    ++ padded 2 t.second
    ++ codes "."
    ++ padded 3 t.millisecond
    ++ codes "Z"

abbrev pub capture_session_dir_name : Moment → Text
capture_session_dir_name t =
    padded 4 t.year
    ++ padded 2 t.month
    ++ padded 2 t.day
    ++ codes "-"
    ++ padded 2 t.hour
    ++ padded 2 t.minute
    ++ padded 2 t.second
    ++ codes "-captures"

-- `rest.rfind(scheme, 0) == 0`
unfoldable pub is_prefix : Text → Text → Bool
is_prefix [] t = true
is_prefix (c ∷ p) [] = false
is_prefix (c ∷ p) (d ∷ t) = (c == d) && is_prefix p t

abbrev pub strip_scheme : Text → Text
unfolding is_prefix
strip_scheme t =
    if is_prefix (codes "ws://") t
    then drop 5 t
    else if is_prefix (codes "wss://") t
    then drop 6 t
    else t

-- The part before the first '/', all of it without one.
unfoldable pub before_slash : Text → Text
before_slash [] = []
before_slash (c ∷ t) = if c == b'/' then [] else c ∷ before_slash t

abbrev pub is_between : ℕ → ℕ → ℕ → Bool
is_between a b c = leb a c && leb c b

abbrev pub is_plain : ℕ → Bool
is_plain c =
    is_between b'A' b'Z' c
    || (is_between b'a' b'z' c
        || (is_between b'0' b'9' c || ((c == b'.') || ((c == b'_') || (c == b'-')))))

abbrev pub plain_char : ℕ → ℕ
plain_char c = if is_plain c then c else b'_'

unfoldable pub server_dir_name : Text → Text
unfolding strip_scheme before_slash
server_dir_name address =
    let rest = map plain_char (before_slash (strip_scheme address)) in
    if is_empty_text rest then codes "server" else rest

-- `std::isfinite` of a float: the exponent is not all ones.
abbrev pub is_finite : ℕ → Bool
is_finite bits = not (bits / 2 ^ 23 % 2 ^ 8 == 255)

-- The key of a capture of a camera in a run, and the name of its files.
unfoldable pub capture_key : FrameBuffer → Text
capture_key f =
    to_string f.frame_kind
    ++ codes ":"
    ++ to_string f.capture_id
    ++ codes ":"
    ++ to_string f.camera_id

unfoldable pub base_name : ℕ → FrameBuffer → Text
base_name run f =
    let base = codes "cam" ++ to_string f.camera_id ++ codes "-" ++ to_string f.frame_id in
    if ltb 0 run then base ++ codes "-run" ++ to_string run else base

module _ {J : Type 0} (make : JsonMake J) where
  open make use {null_value, object, array, text, unsigned, int, single, set}

  abbrev pub corners_json : List Point → J
  corners_json corners = array (map (λ c. array (single c.0 ∷ single c.1 ∷ [])) corners)

  abbrev pub marker_json : ArucoMarker → J
  marker_json m = object (
      (codes "marker_id", int m.marker_id)
      ∷ (codes "quadrant", unsigned m.quadrant)
      ∷ (codes "corners", corners_json m.corners)
      ∷ [])

  abbrev pub corner_set_json : CornerSet → J
  corner_set_json c =
      object ((codes "set_id", unsigned c.set_id) ∷ (codes "corners", corners_json c.corners) ∷ [])

  abbrev pub convert_command : FrameBuffer → Text → Text
  convert_command f image_file =
      codes "yuv420_convert --width "
      ++ to_string f.width
      ++ codes " --height "
      ++ to_string f.height
      ++ codes " --stride "
      ++ to_string f.bytes_per_line
      ++ codes " "
      ++ image_file
      ++ codes " out.png"

  unfoldable pub image_json : FrameBuffer → Text → J
  image_json f image_file =
      if is_empty_text image_file
      then null_value
      else if is_stack f
      then object (
          (codes "file", text image_file)
          ∷ (
            codes "format",
            text (
                codes "float32 .npy, shape (height, width): per 2x2 Bayer quad, the "
                ++ codes "mean raw value minus black, in left-justified 16-bit DN"),
          )
          ∷ (codes "width", unsigned f.width)
          ∷ (codes "height", unsigned f.height)
          ∷ [])
      else object (
          (codes "file", text image_file)
          ∷ (codes "format", text (codes "I420 (YUV420 planar, Y-plane stride padding preserved)"))
          ∷ (codes "width", unsigned f.width)
          ∷ (codes "height", unsigned f.height)
          ∷ (codes "stride", unsigned f.bytes_per_line)
          ∷ (codes "convert", text (convert_command f image_file))
          ∷ [])

  abbrev pub has_markers : FrameBuffer → Bool
  has_markers f = ltb 0 (length f.aruco_markers)

  abbrev pub coordinates : FrameBuffer → Text
  coordinates f =
      if is_stack f
      then codes "stack pixels: stack pixel (u, v) is centred on sensor pixel "
        ++ codes "(2u + 0.5, 2v + 0.5)"
      else codes "frame pixels (full-resolution Y plane)"

  unfoldable pub detection_json : FrameBuffer → J
  detection_json f =
      let detection = object (
        (codes "kind", text (detection_name f.detection_kind))
        ∷ (codes "coordinates", text (coordinates f))
        ∷ []) in
      if has_markers f
      then set (codes "markers") (array (map marker_json f.aruco_markers)) detection
      else set (codes "sets") (array (map corner_set_json f.corner_sets)) detection

  abbrev pub set_if : Bool → Text → J → J → J
  set_if test key v j = if test then set key v j else j

  abbrev pub is_not_negative : ℤ → Bool
  is_not_negative (pos n) = true
  is_not_negative (negsuc n) = false

  unfoldable pub capture_sidecar : Moment → FrameBuffer → J → Text → Text → J
  unfolding image_json detection_json
  capture_sidecar now f result address image_file =
      let j = object (
        (codes "written_by", text (codes "telefacet"))
        ∷ (codes "saved_at", text (iso_utc now))
        ∷ (codes "server", text address)
        ∷ (codes "kind", text (kind_name f))
        ∷ (if is_stack f then codes "stack_id" else codes "trigger_id", unsigned f.capture_id)
        ∷ (codes "camera_id", unsigned f.camera_id)
        ∷ (codes "frame_id", unsigned f.frame_id)
        ∷ (codes "timestamp_us", unsigned f.timestamp_us)
        ∷ (codes "frame_duration_us", unsigned f.frame_duration_us)
        ∷ (codes "lens_position", null_value)
        ∷ (codes "af_state", null_value)
        ∷ (codes "focus_fom", null_value)
        ∷ (codes "image", image_json f image_file)
        ∷ (codes "detection", detection_json f)
        ∷ (codes "result", result)
        ∷ []) in
      set_if (is_not_negative f.focus_fom) (codes "focus_fom") (int f.focus_fom) (
        set_if (not (f.af_state == 0xff)) (codes "af_state") (unsigned f.af_state)
          (set_if (is_finite f.lens_position) (codes "lens_position") (single f.lens_position) j))
