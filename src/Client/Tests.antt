-- ===== src/Client/Tests.antt =====
-- A trigger and a stack that two servers answered, and two cameras polled.
use mathlib.Core.List.{Permᴰ}
use telefacet.Shared.{
  ℕ, ◌≡◌, refl, true, false, List, [], ◌∷◌, some, map, Text, pos, All, IsSorted, ◌↔◌, codes, arith,
}
use telefacet.Frame.{FrameBuffer, default_info}
use telefacet.Pool.{empty_pool}
use telefacet.Captures.{CaptureKind}
use telefacet.Stats.{FloatOps}
use telefacet.Messages.{StackCapture}
use telefacet.Cameras.{CameraInfo, Store, find, find_in}
use telefacet.Cameras.Latest.{Publication}
use telefacet.Rendezvous.{fresh_pending, CaptureRun}
use telefacet.Client.{trigger_outcome, stack_outcome, is_taken, is_stacked, poll}
use telefacet.Client.Captured.{source_of, collected, IsLabelled, IsUncancelled, trigger_outcome_lem}
use telefacet.Client.Stacked.{
  report_of, reported, IsStackLabelled, IsStackUncancelled, IsStackedWell, stack_outcome_lem,
}
use telefacet.Client.Polling.{data_of, poll_each, AreRostered, poll_each_lem}

abbrev unit_numbers : FloatOps Unit
unit_numbers = record {
  single = λ n. tt;
  double = λ n. tt;
  zero_double = tt;
  mul_single = λ a b. tt;
  div_single = λ a b. tt;
  add_double = λ a b. tt;
  div_double = λ a b. tt;
  to_single = λ a. tt;
  is_positive = λ a. false;
}

abbrev camera_at : ℕ → ℕ → ℕ → CameraInfo
camera_at id server local = record {
  global_id = id;
  server_index = server;
  local_camera_id = local;
  label = [];
  sensor_type = [];
  streaming = true;
}

abbrev two_known : Store Unit
two_known = record {
  roster = camera_at 0 0 3 ∷ camera_at 1 1 0 ∷ [];
  slots = [];
  stats = [];
  captures = [];
  capture_seq = 0;
  pool = empty_pool;
}

abbrev shot : ℕ → ℕ → FrameBuffer
shot camera number = record {
  id = number;
  bytes = [];
  info = record default_info { camera_id = camera; frame_id = number };
  header_only = false;
}

abbrev answered : CaptureRun ℕ
answered = record {
  complete = true;
  refusals = [];
  got =
      (1, record fresh_pending { acked = true; done = true; expected = 1; frames = shot 0 8 ∷ [] })
      ∷ (
        0,
        record fresh_pending { acked = true; done = true; expected = 1; frames = shot 3 7 ∷ [] },
      )
      ∷ [];
  after = record {
    capture_active = false;
    capture_kind = CaptureKind.trigger;
    capture_pending = [];
  };
}

trigger_outcome_lem_example :
    let o = trigger_outcome two_known answered in
    IsSorted (λ c. c.global_camera_id) o.captures
    × (Permᴰ (map source_of o.captures) (collected answered.got)
        × (All (IsLabelled two_known) o.captures
            × ((is_taken o ≡ true) ↔ ((answered.complete ≡ true) × IsUncancelled answered.got))))
trigger_outcome_lem_example = trigger_outcome_lem two_known answered

abbrev reported_camera : ℕ → Text → StackCapture
reported_camera camera error = record {
  camera_id = camera;
  error = error;
  frames_stacked = pos 3;
  frames_rejected = pos 0;
  settle_frames = pos 0;
  first_frame_id = 6;
  last_frame_id = 8;
  first_timestamp_us = 10;
  last_timestamp_us = 20;
  exposure_time = pos 500;
  analogue_gain = 0;
  black_level = 0;
  bit_depth = pos 10;
  white_fraction = 0;
  peak_fraction = 0;
  clipped_fraction = 0;
  width = 0;
  height = 0;
  accumulate_ms = 7;
}

-- Server 1 reports an image and a camera in error, and sends the image.
abbrev stacked : CaptureRun ℕ
stacked = record answered {
  got =
      (
        1,
        record fresh_pending {
          acked = true;
          done = true;
          expected = 1;
          stack_result = some (record {
            valid = true;
            stack_id = 4;
            cancelled = false;
            captures = reported_camera 0 [] ∷ reported_camera 3 (codes "no frames") ∷ [];
            raw = 0;
          });
          frames = shot 0 8 ∷ [];
        },
      )
      ∷ [];
}

stack_outcome_lem_example :
    let o = stack_outcome two_known stacked in
    IsSorted (λ c. c.global_camera_id) o.cameras
    × (Permᴰ (map report_of o.cameras) (reported stacked.got)
        × (All (IsStackLabelled two_known) o.cameras
            × ((is_stacked o ≡ true) ↔ (
                (stacked.complete ≡ true)
                × (IsStackUncancelled stacked.got × All IsStackedWell o.cameras)))))
stack_outcome_lem_example = stack_outcome_lem two_known stacked

abbrev publications : List Publication
publications =
    record { camera = 1; frame = shot 0 5; owners = 1; created = 2; now = 3 }
    ∷ record { camera = 0; frame = shot 3 6; owners = 1; created = 2; now = 4 }
    ∷ record { camera = 1; frame = shot 0 9; owners = 1; created = 2; now = 5 }
    ∷ []

publications-AreRostered : AreRostered unit_numbers two_known publications
unfolding AreRostered find find_in
publications-AreRostered =
    ((camera_at 1 1 0, refl), ((camera_at 0 0 3, refl), ((camera_at 1 1 0, refl), tt)))

poll_each_lem_example :
    let (out, (s', cursors')) = poll_each unit_numbers publications two_known [] in
    (out ≡ map (λ p. data_of two_known.roster p.camera p.frame ∷ []) publications)
    × ((poll s' cursors').0 ≡ [])
poll_each_lem_example =
    poll_each_lem unit_numbers publications two_known []
      (((λ q. absurd (omega (arith, q))), tt), (tt, tt)) publications-AreRostered (refl, (refl, tt))
