-- ===== src/Saver/Tests.antt =====
-- Two captures saved while a third is being written.
use telefacet.Shared.{
  ℕ, ◌≡◌, refl, true, false, List, [], ◌∷◌, ◌++◌, none, some, Text, codes, arith, to_string,
}
use telefacet.Frame.{FrameBuffer, default_info}
use telefacet.Json.{JsonMake}
use telefacet.Sidecar.{Moment}
use telefacet.Writing.{FileOps, Clock}
use telefacet.Saver.{Saver, is_idle, is_over}
use telefacet.Saver.Sequential.{
  Step, saved, switched, taken, finished, steps, accepted, IsSequential, steps_in_order,
}
use telefacet.Saver.Flush.{rounds, rounds_end}

abbrev Files : Type 0
Files = List (Text × List ℕ)

-- Every path can be written.
abbrev in_memory : FileOps Files
in_memory = record {
  join = λ a b. a ++ codes "/" ++ b;
  create_directories = λ path w. (none, w);
  open_file = λ path w. (true, w);
  put = λ path bytes w. (true, w ++ (path, bytes) ∷ []);
}

abbrev join_fields : List (Text × Text) → Text
join_fields [] = []
join_fields ((key, v) ∷ rest) = key ++ codes ":" ++ v ++ codes "," ++ join_fields rest

abbrev join_all : List Text → Text
join_all [] = []
join_all (t ∷ rest) = t ++ codes "," ++ join_all rest

-- JSON as the text that it prints.
abbrev printed : JsonMake Text
printed = record {
  null_value = codes "null";
  object = join_fields;
  array = join_all;
  text = λ t. t;
  unsigned = to_string;
  int = λ z. codes "int";
  bool = λ b. codes "bool";
  single = to_string;
  double = to_string;
  set = λ key v j. j ++ key ++ codes ":" ++ v ++ codes ",";
  dump = λ j. some j;
  dump_indented = λ n j. some j;
  dump_error = λ j. [];
}

abbrev noon : Moment
noon = record {
  year = 2026;
  month = 10;
  day = 24;
  hour = 12;
  minute = 0;
  second = 5;
  millisecond = 7;
}

abbrev clock : Clock
clock = record { local_time = noon; utc = noon }

abbrev empty_saver : Saver Text Files
empty_saver = record {
  root = codes "captures";
  enabled = true;
  queue = [];
  in_hand = none;
  stopping = false;
  pending = 0;
  progress = record {
    session_dir = [];
    servers = [];
    world = [];
    session_path = [];
    saved = 0;
    errors = 0;
    last_file = [];
    last_error = [];
    overran = false;
  };
  states = [];
}

abbrev trigger_frame : ℕ → FrameBuffer
trigger_frame camera = record {
  id = camera;
  bytes = 1 ∷ 2 ∷ [];
  info = record default_info { camera_id = camera; frame_kind = 2; capture_id = 1; frame_id = 40 };
  header_only = false;
}

abbrev some_steps : List (Step Text)
some_steps =
    saved (codes "ws://pi:9001") (some (trigger_frame 0)) [] (some 0)
    ∷ taken
    ∷ saved (codes "ws://pi:9001") (some (trigger_frame 1)) [] none
    ∷ finished clock
    ∷ switched false
    ∷ saved (codes "ws://pi:9001") (some (trigger_frame 2)) [] none
    ∷ taken
    ∷ []

steps_in_order_example :
    IsSequential printed in_memory empty_saver
      (steps printed in_memory some_steps empty_saver)
      (accepted printed in_memory some_steps empty_saver)
steps_in_order_example =
    steps_in_order printed in_memory empty_saver some_steps (refl, (refl, refl))

abbrev waiting_saver : Saver Text Files
waiting_saver = record empty_saver {
  queue =
      record { address = codes "ws://pi:9001"; frame = trigger_frame 1; result = []; state = none }
      ∷ [];
  in_hand = some (record {
    address = codes "ws://pi:9001";
    frame = trigger_frame 0;
    result = [];
    state = none;
  });
  stopping = true;
}

rounds_end_example :
    let s' = rounds printed in_memory (clock ∷ clock ∷ []) waiting_saver in
    (is_idle s' ≡ true) × (is_over s' ≡ true)
rounds_end_example = rounds_end printed in_memory waiting_saver (clock ∷ clock ∷ []) (omega arith)
