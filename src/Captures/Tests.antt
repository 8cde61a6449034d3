-- ===== src/Captures/Tests.antt =====
-- Captures of two cameras, and the theorems at them.
use mathlib.Core.List.{Perm, Permᴰ}
use telefacet.Shared.{ℕ, ◌≡◌, refl, true, false, List, [], ◌∷◌, some, none, Text, codes, arith}
use telefacet.Frame.{FrameBuffer, default_info}
use telefacet.Json.{JsonOps}
use telefacet.Captures.{
  trigger, stack, Captures, no_captures, note_capture_requested, note_capture_acked, refuse,
  capture_progress, looks_like_capture_refusal, send_capture_request, is_receiving,
}
use telefacet.Captures.Matching.{match_all, match_all-Perm}
use telefacet.Captures.Cycle.{
  Idle, refused_cycle, acked_cycle, refused_second, send_capture_request-fails,
}

-- JSON values that are all objects with one member, a number: `camera_id` has it.
abbrev numbers : JsonOps ℕ
numbers = record {
  null = 0;
  parse = λ text. none;
  contains = λ key j. true;
  at = λ key j. j;
  is_object = λ j. true;
  is_array = λ j. false;
  is_null = λ j. false;
  elements = λ j. [];
  value_unsigned = λ key default j. some j;
  value_int = λ key default j. none;
  value_text = λ key default j. none;
  value_bool = λ key default j. none;
  value_double = λ key default j. none;
  get_double = λ j. none;
}

abbrev start : Captures ℕ
start = no_captures

start-Idle : Idle start
unfolding is_receiving
start-Idle = (refl, refl)

-- A frame of trigger 5.
abbrev trigger_frame : ℕ → FrameBuffer
trigger_frame camera = record {
  id = 0;
  bytes = [];
  info = record default_info { camera_id = camera; frame_kind = 2; capture_id = 5 };
  header_only = false;
}

abbrev frames : List FrameBuffer
frames = trigger_frame 1 ∷ trigger_frame 0 ∷ []

abbrev acked : Captures ℕ
acked = record start { capture_acked = true; capture_id = 5; capture_entries = 0 ∷ 1 ∷ [] }

match_all-Perm_example :
    (es : List ℕ) × (c' : Captures ℕ) × (match_all numbers frames acked ≡ some (es, c'))
    × Perm es (0 ∷ 1 ∷ [])
match_all-Perm_example =
    match_all-Perm numbers (λ e. e) frames acked refl refl (refl, (refl, tt))
      ((omega arith, tt), (tt, tt)) ((refl, refl), ((refl, refl), tt)) ∣ Permᴰ.swap refl refl ∣₁

abbrev busy : Text
busy = codes "A capture is in progress"

busy_refuses : looks_like_capture_refusal busy ≡ true
unfolding looks_like_capture_refusal
busy_refuses = refl

refused_cycle_example :
    let requested = note_capture_requested stack start in
    let (refused, c') = refuse busy requested in
    (capture_progress requested ≡ record {
      in_progress = true;
      acked = false;
      kind = stack;
      id = 0;
      expected = 0;
      received = 0;
    })
    × (refused ≡ some stack)
    × Idle c'
    × ((capture_progress c').in_progress ≡ false)
    × (c'.last_capture_refusal ≡ busy)
refused_cycle_example = refused_cycle stack busy start start-Idle busy_refuses

send_capture_request-fails_example :
    send_capture_request stack (λ c'. (false, c')) start ≡ (false, start)
send_capture_request-fails_example = send_capture_request-fails stack start

acked_cycle_example :
    (c' : Captures ℕ) × (match_all numbers frames
        (note_capture_acked trigger 5 (0 ∷ 1 ∷ []) (note_capture_requested trigger start))
      ≡ some (1 ∷ 0 ∷ [], c'))
    × (capture_progress c' ≡ record {
      in_progress = false;
      acked = true;
      kind = trigger;
      id = 5;
      expected = 2;
      received = 2;
    })
    × (c'.capture_requests ≡ [])
acked_cycle_example =
    acked_cycle numbers (λ e. e) trigger 5 (0 ∷ 1 ∷ []) frames start start-Idle (refl, (refl, tt))
      ((refl, refl), ((refl, refl), tt)) (omega arith)

refused_second_example :
    let both = note_capture_requested stack (note_capture_requested trigger start) in
    let (refused, c') = refuse busy both in
    (refused ≡ some trigger)
    × (c'' : Captures ℕ) × (match_all numbers frames (note_capture_acked trigger 5 (0 ∷ 1 ∷ []) c')
        ≡ some (1 ∷ 0 ∷ [], c''))
    × (capture_progress c'' ≡ record {
      in_progress = true;
      acked = false;
      kind = stack;
      id = 0;
      expected = 0;
      received = 0;
    })
refused_second_example =
    refused_second numbers (λ e. e) 5 busy (0 ∷ 1 ∷ []) frames start start-Idle busy_refuses
      (refl, (refl, tt)) ((refl, refl), ((refl, refl), tt)) refl
