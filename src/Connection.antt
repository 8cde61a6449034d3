-- ===== src/Connection.antt =====
-- net/WebSocketClient.cpp: what a connection makes of the frames and the text messages of its server.
mod Tests
pub mod Faults
pub mod Frames
use telefacet.Shared.{
  same_text, ℕ, Bool, true, false, not, ◌&&◌, ◌||◌, ◌==◌, List, [], ◌∷◌, ◌++◌, Option, none, some,
  ◌>>=◌, Text, codes, ℤ, pos, if◌then◌else◌,
}
use telefacet.Frame.{FrameBuffer, FocusFomRegion, no_region}
use telefacet.Wire.{is_capture_frame_kind}
use telefacet.Json.{JsonOps}
use telefacet.Captures.{
  CaptureKind, trigger, stack, Captures, no_captures, note_capture_acked, refuse, reset_captures,
  match_frame,
}
use telefacet.Messages.{
  DiscoveredCamera, FrameDurationLimits, LensPositionLimits, RawStreamInfo, no_raw_stream,
  TriggerResult, StackResult, is_empty_text, parse_focus_fom_region, parse_raw_stream, members,
  parse_cameras, parse_duration_limits, parse_lens_limits, parse_trigger_captures,
  parse_trigger_result, parse_stack_result,
}

-- Which callbacks are set.
pub record Callbacks : Type 0 where
  pub on_frame : Bool
  pub on_discovery : Bool
  pub on_status : Bool
  pub on_conn : Bool
  pub on_trigger : Bool
  pub on_stack : Bool
  pub on_capture_frame : Bool
  pub on_capture_refused : Bool

-- What a connection does outside itself, in its order: the callbacks, and the commands that the
-- messages make it send.
pub data Event (J : Type 0) : Type 0 where
  frame : FrameBuffer → Event J
  discovery : List DiscoveredCamera → Event J
  status : Text → Text → Event J
  connection : Bool → Event J
  trigger_result : TriggerResult J → Event J
  stack_result : StackResult J → Event J
  capture_frame : FrameBuffer → J → Event J
  capture_refused : CaptureKind → Text → Event J
  send_discover : Event J
  send_get_state : Event J
  send_get_focus_fom_region : Event J

-- The results have `none` for a result that is not valid yet.
pub record Connection (J : Type 0) : Type 0 where
  pub connected : Bool
  pub slot_taken : Bool
  pub refused_upgrades : ℕ
  pub cameras : List DiscoveredCamera
  pub server_state : Text
  pub frame_duration_limits : Option FrameDurationLimits
  pub lens_position_limits : Option LensPositionLimits
  pub focus_fom_region : FocusFomRegion
  pub last_trigger_result : Option (TriggerResult J)
  pub last_stack_result : Option (StackResult J)
  pub raw_stream : RawStreamInfo
  pub captures : Captures J

-- The connection and the events so far, and whether an exception ended the handler there.
pub record Run (J : Type 0) : Type 0 where
  pub conn : Connection J
  pub events : List (Event J)
  pub threw : Bool

abbrev pub is_configured : Text → Bool
is_configured state = same_text state (codes "configured") || same_text state (codes "running")

module _ {J : Type 0} where
  abbrev pub done : List (Event J) → Connection J → Run J
  done events c = record { conn = c; events = events; threw = false }

  abbrev pub thrown : List (Event J) → Connection J → Run J
  thrown events c = record { conn = c; events = events; threw = true }

  abbrev pub call : Bool → Event J → List (Event J)
  call set event = if set then event ∷ [] else []

  -- What follows a read that may throw.
  unfoldable pub attempt :
      {A : Type 0} → List (Event J) → Connection J → Option A → (A → Run J) → Run J
  attempt events c none rest = thrown events c
  attempt events c (some a) rest = rest a

  -- `c` with the state that the server says it is in.
  unfoldable pub note_state : Text → Connection J → Connection J
  note_state state c = if is_configured state then record c { server_state = state } else record c {
    server_state = state;
    focus_fom_region = no_region;
    raw_stream = no_raw_stream;
  }

module _ {J : Type 0} (json : JsonOps J) (cb : Callbacks) where
  open json use {null, parse, contains, at, value_text, value_bool}

  unfoldable pub on_assembled : FrameBuffer → Connection J → Run J
  on_assembled buf c =
      let f = record buf { info = record buf.info { focus_fom_region = c.focus_fom_region } } in
      if not (is_capture_frame_kind f.frame_kind)
      then done (call cb.on_frame (frame f)) c
      else attempt [] c (match_frame json f c.captures)
          λ m. done (call cb.on_capture_frame (capture_frame f m.0)) (record c { captures = m.1 })

  unfoldable pub handle_discovery : J → Connection J → Run J
  handle_discovery j c =
      attempt [] c (parse_cameras json (members json (codes "cameras") j))
        λ cams. done (call cb.on_discovery (discovery cams)) (record c { cameras = cams })

  -- The log line reads two more members.
  unfoldable pub handle_state : J → Connection J → Run J
  unfolding note_state
  handle_state j c = attempt [] c (value_text (codes "state") [] j) λ state.
      let c' = note_state state c in
      let sent =
        call (is_configured state && not c'.focus_fom_region.valid) send_get_focus_fom_region in
      attempt sent c' (value_text (codes "cause") (codes "query") j) λ cause.
        attempt sent c' (value_bool (codes "observer_connected") false j) λ observer. done sent c'

  unfoldable pub handle_duration_limits : J → Connection J → Run J
  handle_duration_limits j c =
      attempt [] c (parse_duration_limits json j)
        λ fdl. done [] (record c { frame_duration_limits = some fdl })

  unfoldable pub handle_lens_limits : J → Connection J → Run J
  handle_lens_limits j c =
      attempt [] c (parse_lens_limits json j)
        λ lpl. done [] (record c { lens_position_limits = some lpl })

  unfoldable pub handle_region : J → Connection J → Run J
  handle_region j c =
      attempt [] c (parse_focus_fom_region json j) λ r. done [] (record c { focus_fom_region = r })

  unfoldable pub handle_trigger_result : J → Connection J → Run J
  handle_trigger_result j c = attempt [] c (parse_trigger_result json j) λ tr.
      done (call cb.on_trigger (trigger_result tr)) (record c {
        captures =
            note_capture_acked trigger tr.trigger_id (members json (codes "captures") j) c.captures;
        last_trigger_result = some tr;
      })

  unfoldable pub handle_stack_result : J → Connection J → Run J
  handle_stack_result j c = attempt [] c (parse_stack_result json j) λ r.
      let (sr, entries) = r in
      done (call cb.on_stack (stack_result sr)) (record c {
        captures = note_capture_acked stack sr.stack_id entries c.captures;
        last_stack_result = some sr;
      })

  -- `on_status_(type, j.value("message", ""))`, if it is set.
  abbrev pub call_status : List (Event J) → Text → J → Connection J → Run J
  call_status events type j c =
      if not cb.on_status
      then done events c
      else attempt events c (value_text (codes "message") [] j)
          λ message. done (events ++ status type message ∷ []) c

  -- The region is stored before the raw stream is read.
  unfoldable pub handle_status : J → Connection J → Run J
  handle_status j c =
      let finish = call_status [] (codes "status") j in
      if not (contains (codes "focus_fom_region") j)
      then finish c
      else attempt [] c (parse_focus_fom_region json (at (codes "focus_fom_region") j)) λ r.
        let c' = record c { focus_fom_region = r } in
        let raw =
          if contains (codes "raw") j
          then parse_raw_stream json (at (codes "raw") j)
          else some no_raw_stream in
        attempt [] c' raw λ stream. finish (record c' { raw_stream = stream })

  abbrev pub refusal_events : Option CaptureKind → Text → List (Event J)
  refusal_events none message = []
  refusal_events (some kind) message = call cb.on_capture_refused (capture_refused kind message)

  unfoldable pub handle_error : J → Connection J → Run J
  handle_error j c = attempt [] c (value_text (codes "code") [] j) λ code.
      attempt [] c (value_text (codes "message") [] j) λ message.
        let (refused, captures') =
          if is_empty_text code then refuse message c.captures else (none, c.captures) in
        call_status (refusal_events refused message) (codes "error") j
          (record c { captures = captures' })

  -- The chain of tests on the type of a message.
  unfoldable pub dispatch : Text → J → Connection J → Run J
  dispatch type j c =
      if same_text type (codes "discovery")
      then handle_discovery j c
      else if same_text type (codes "state")
      then handle_state j c
      else if same_text type (codes "frame_duration_limits")
      then handle_duration_limits j c
      else if same_text type (codes "lens_position_limits")
      then handle_lens_limits j c
      else if same_text type (codes "focus_fom_region")
      then handle_region j c
      else if same_text type (codes "trigger_result")
      then handle_trigger_result j c
      else if same_text type (codes "stack_result")
      then handle_stack_result j c
      else if same_text type (codes "status")
      then handle_status j c
      else if same_text type (codes "error")
      then handle_error j c
      else done [] c

  unfoldable pub handle_text : Text → Connection J → Run J
  unfolding dispatch
  handle_text text c = elim (parse text) [
    | none ↦ done [] c
    | some j ↦ attempt [] c (value_text (codes "type") [] j) λ type. dispatch type j c
  ]
