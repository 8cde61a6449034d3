-- ===== src/Connection/Tests.antt =====
-- A connection with a trigger under way, and the theorems at it.
use telefacet.Shared.{
  inr, arith, same_text, ℕ, ◌≡◌, refl, true, false, [], ◌∷◌, some, none, codes, pos, if◌then◌else◌,
}
use telefacet.Frame.{FrameBuffer, default_info, no_region}
use telefacet.Messages.{no_raw_stream}
use telefacet.Json.{JsonOps}
use telefacet.Captures.{no_captures}
use telefacet.Connection.{
  Connection, frame, capture_frame, attempt, on_assembled, handle_text, dispatch, handle_state,
}
use telefacet.Connection.Frames.{all_set, stamped, IsCaptured, IsAwaited, on_assembled_lem}
use telefacet.Connection.Faults.{SameRecords, handle_text_throws}

-- JSON values that are all objects of the type `state`, with numbers in their other members.
abbrev states : JsonOps ℕ
states = record {
  null = 0;
  parse = λ text. some 7;
  contains = λ key j. true;
  at = λ key j. j;
  is_object = λ j. true;
  is_array = λ j. false;
  is_null = λ j. false;
  elements = λ j. [];
  value_unsigned = λ key default j. some j;
  value_int = λ key default j. some (pos j);
  value_text = λ key default j. if same_text key (codes "type") then some (codes "state") else none;
  value_bool = λ key default j. none;
  value_double = λ key default j. none;
  get_double = λ j. none;
}

abbrev waiting : Connection ℕ
waiting = record {
  connected = true;
  slot_taken = false;
  refused_upgrades = 0;
  cameras = [];
  server_state = codes "running";
  frame_duration_limits = none;
  lens_position_limits = none;
  focus_fom_region = record no_region { width = 8 };
  last_trigger_result = none;
  last_stack_result = none;
  raw_stream = no_raw_stream;
  captures = record no_captures {
    capture_acked = true;
    capture_id = 65541;
    capture_entries = 3 ∷ 4 ∷ [];
  };
}

abbrev trigger_frame : FrameBuffer
trigger_frame = record {
  id = 0;
  bytes = [];
  info = record default_info { camera_id = 4; frame_kind = 2; capture_id = 5 };
  header_only = false;
}

-- The frame is of the capture that is waited for, and of camera 4.
on_assembled_lem_example :
    let g = stamped trigger_frame (record no_region { width = 8 }) in
    let outcome = on_assembled states all_set trigger_frame waiting in
    (¬ IsCaptured trigger_frame
      → outcome ≡ record { threw = false; events = frame g ∷ []; conn = waiting })
    × ((IsCaptured trigger_frame
          → IsAwaited trigger_frame waiting.captures
          → outcome ≡ record {
            threw = false;
            events = capture_frame g 4 ∷ [];
            conn = record waiting { captures = record waiting.captures { capture_received = 1 } };
          })
        × (IsCaptured trigger_frame
            → ¬ IsAwaited trigger_frame waiting.captures
            → outcome ≡ record { threw = false; events = capture_frame g 0 ∷ []; conn = waiting }))
on_assembled_lem_example = on_assembled_lem states (λ e. e) trigger_frame waiting (refl, (refl, tt))

trigger_frame-IsAwaited : IsCaptured trigger_frame × IsAwaited trigger_frame waiting.captures
trigger_frame-IsAwaited = (inr refl, (refl, (refl, (refl, omega arith))))

state_throws : (handle_text states all_set [] waiting).threw ≡ true
unfolding handle_text dispatch handle_state attempt
state_throws = refl

handle_text_throws_example : SameRecords (handle_text states all_set [] waiting).conn waiting
handle_text_throws_example = handle_text_throws states all_set [] waiting state_throws
