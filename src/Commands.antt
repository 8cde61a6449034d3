-- ===== src/Commands.antt =====
-- net/WebSocketClient.cpp: the commands of a connection, as the JSON that is sent.
pub mod Ranges
mod Tests
use telefacet.Shared.{
  ℕ, ltb, Bool, true, false, not, ◌&&◌, List, [], ◌∷◌, Option, none, some, Text, codes, ℤ, pos,
  negsuc, if◌then◌else◌,
}
use telefacet.Messages.{is_empty_text}
use telefacet.Json.{JsonMake}
use telefacet.Client.{StackRequest, is_positive_int}

-- A call of a method that sends a command. A double is its bit pattern.
pub data Command (J : Type 0) : Type 0 where
  discover : Text → Command J
  get_state unconfigure start_cameras stop_cameras reset_frame_counts : Command J
  configure_cameras : Option ℕ → Option ℕ → Bool → Command J
  set_save_mode : Text → J → Command J
  trigger_capture : Option ℕ → Option ℤ → Option Bool → Command J
  stack_capture : StackRequest → Command J
  start_stream stop_stream : ℕ → Command J
  set_header_only : Bool → Command J
  set_lens_position : ℕ → Command J
  set_exposure_time set_frame_duration : ℤ → Command J
  get_frame_duration_limits get_lens_position_limits get_focus_fom_region : Command J

-- `std::clamp(v, lo, hi)` with bounds that are not negative.
abbrev pub clamp_int : ℕ → ℕ → ℤ → ℤ
clamp_int lo hi (pos n) = pos (if ltb n lo then lo else if ltb hi n then hi else n)
clamp_int lo hi (negsuc n) = pos lo

-- `std::min(v, hi)`
abbrev pub min_int : ℕ → ℤ → ℤ
min_int hi (pos n) = pos (if ltb hi n then hi else n)
min_int hi (negsuc n) = negsuc n

-- The order of doubles is a parameter; `std::clamp` of one.
abbrev pub clamp_double : (ℕ → ℕ → Bool) → ℕ → ℕ → ℕ → ℕ
clamp_double less lo hi v = if less v lo then lo else if less hi v then hi else v

abbrev pub one : ℕ
one = 0x3ff0000000000000

abbrev pub sixty_four : ℕ
sixty_four = 0x4050000000000000

abbrev pub keep_if : {A : Type 0} → (A → Bool) → Option A → Option A
keep_if test none = none
keep_if test (some a) = if test a then some a else none

abbrev pub set_maybe : {A J : Type 0} → (Text → J → J → J) → Text → (A → J) → Option A → J → J
set_maybe set key value none j = j
set_maybe set key value (some a) j = set key (value a) j

abbrev pub command_named : {J : Type 0} → JsonMake J → Text → List (Text × J) → J
command_named make name rest = make.object ((codes "cmd", make.text name) ∷ rest)

module _ {J : Type 0} (make : JsonMake J) (less : ℕ → ℕ → Bool) where
  open make use {object, text, unsigned, int, bool, double, set}

  abbrev named : Text → List (Text × J) → J
  named name rest = command_named make name rest

  unfoldable pub discover_json : Text → J
  discover_json sensor =
      let cmd = named (codes "discover") [] in
      if not (is_empty_text sensor)
      then set (codes "params") (object ((codes "sensor", text sensor) ∷ [])) cmd
      else cmd

  unfoldable pub configure_json : Option ℕ → Option ℕ → Bool → J
  configure_json width height raw =
      let params =
        set_maybe set (codes "height") unsigned height
          (set_maybe set (codes "width") unsigned width (object [])) in
      let params' = if raw then set (codes "raw") (bool true) params else params in
      named (codes "configure") ((codes "params", params') ∷ [])

  unfoldable pub trigger_json : Option ℕ → Option ℤ → Option Bool → J
  trigger_json camera_id skip_frames send_image =
      set_maybe set (codes "send_image") bool send_image (
        set_maybe set (codes "skip_frames") (λ n. int (min_int 100 n))
          (keep_if is_positive_int skip_frames)
          (set_maybe set (codes "camera_id") unsigned camera_id
            (named (codes "trigger_capture") [])))

  unfoldable pub stack_json : StackRequest → J
  stack_json req = set_maybe set (codes "send_image") bool req.send_image (
      set_maybe set (codes "skip_frames") (λ n. int (clamp_int 0 100 n)) req.skip_frames
        (set_maybe set (codes "analogue_gain") (λ g. double (clamp_double less one sixty_four g))
          (keep_if (less 0) req.analogue_gain)
          (set_maybe set (codes "exposure_time") (λ n. int (min_int 10000000 n))
            (keep_if is_positive_int req.exposure_time_us)
            (set_maybe set (codes "num_frames") (λ n. int (clamp_int 1 1024 n)) req.num_frames
              (set_maybe set (codes "camera_id") unsigned req.camera_id
                (named (codes "stack_capture") []))))))

  unfoldable pub command_json : Command J → J
  unfolding discover_json configure_json trigger_json stack_json
  command_json (Command.discover sensor) = discover_json sensor
  command_json Command.get_state = named (codes "get_state") []
  command_json Command.unconfigure = named (codes "unconfigure") []
  command_json Command.start_cameras = named (codes "start_cameras") []
  command_json Command.stop_cameras = named (codes "stop_cameras") []
  command_json Command.reset_frame_counts = named (codes "reset_frame_counts") []
  command_json (Command.configure_cameras w h raw) = configure_json w h raw
  command_json (Command.set_save_mode mode params) =
      named (codes "set_process_mode") ((codes "mode", text mode) ∷ (codes "params", params) ∷ [])
  command_json (Command.trigger_capture camera skip image) = trigger_json camera skip image
  command_json (Command.stack_capture req) = stack_json req
  command_json (Command.start_stream camera) =
      named (codes "start_stream") ((codes "camera_id", unsigned camera) ∷ [])
  command_json (Command.stop_stream camera) =
      named (codes "stop_stream") ((codes "camera_id", unsigned camera) ∷ [])
  command_json (Command.set_header_only enabled) =
      named (codes "set_header_only") ((codes "enabled", bool enabled) ∷ [])
  command_json (Command.set_lens_position d) =
      named (codes "set_lens_position") ((codes "lens_position", double d) ∷ [])
  command_json (Command.set_exposure_time us) =
      named (codes "set_exposure_time") ((codes "exposure_time", int us) ∷ [])
  command_json (Command.set_frame_duration us) =
      named (codes "set_frame_duration") ((codes "frame_duration", int us) ∷ [])
  command_json Command.get_frame_duration_limits = named (codes "get_frame_duration_limits") []
  command_json Command.get_lens_position_limits = named (codes "get_lens_position_limits") []
  command_json Command.get_focus_fom_region = named (codes "get_focus_fom_region") []

  -- `sendCommand`: whether it was sent, and what the socket is then. None where `dump` throws.
  unfoldable pub send_command :
      {S : Type 0} → (Text → S → Bool × S) → Bool → J → S → Option (Bool × S)
  send_command send connected cmd socket = elim (make.dump cmd) [
    | none ↦ none
    | some s ↦ if not connected then some (false, socket) else some (send s socket)
  ]
