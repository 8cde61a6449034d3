-- ===== src/Reassembly/Tests.antt =====
-- The reassembler run on small messages, and its theorems at them.
use mathlib.Core.List.{flatten}
use telefacet.Shared.{
  zero, suc, ℕ, ◌<◌, ◌≤◌, ◌≡◌, refl, List, [], ◌∷◌, some, none, ◌>>=◌, arith, negsuc, lookup,
  length, inr, true, false,
}
use telefacet.Frame.{FrameBuffer}
use telefacet.Wire.{ChunkHeader}
use telefacet.Wire.Layout.{IsHeader}
use telefacet.Pool.{empty_pool, acquire}
use telefacet.Reassembly.{
  InFlight, State, Callback, Clock, deliver, frame_info, on_binary, handle_start, sweep_stale,
  parse_detection,
}
use telefacet.Reassembly.Bounds.{IsValid, Safe, on_binary-Safe}
use telefacet.Reassembly.Delivery.{
  chunk_header, Arrival, IsChunkOf, chunk_message, arrives, receive,
}
use telefacet.Reassembly.WholeFrame.{start_message, whole_frame}
use telefacet.Reassembly.Staleness.{sweep_stale_keeps, sweep_stale_frees}

-- A callback that logs the frames, newest first.
abbrev log : Callback (List FrameBuffer)
log buf (pool, frames) = (pool, buf ∷ frames)

abbrev fresh : State (List FrameBuffer)
fresh = record { in_flight = []; last_sweep = 0; pool = empty_pool; world = [] }

abbrev two_chunk_header : ChunkHeader
two_chunk_header = record {
  frame_uuid = 7;
  frame_id = 40;
  camera_id = 1;
  total_chunks = 2;
  total_size = 3;
  bytes_per_line = 3;
  width = 3;
  height = 1;
  pixel_format = 0x32315559;
  frames_saved = 0;
  timestamp_us = 1000;
  frame_duration_us = 33;
  corner_block_size = 0;
  num_corner_sets = 0;
  capture_id = 0;
  lens_position = 0;
  af_state = 0xff;
  detection_kind = 0;
  frame_kind = 0;
  reserved2 = 0;
  focus_fom = negsuc 0;
}

two_chunk_header-IsHeader : IsHeader two_chunk_header
two_chunk_header-IsHeader = omega arith

abbrev two_chunks : List (List ℕ)
two_chunks = (1 ∷ 2 ∷ []) ∷ (3 ∷ []) ∷ []

abbrev first_chunk : Arrival
first_chunk = record { time = 12; index = 0; payload = 1 ∷ 2 ∷ [] }

abbrev second_chunk : Arrival
second_chunk = record { time = 11; index = 1; payload = 3 ∷ [] }

-- The second chunk comes first, and twice.
abbrev shuffled : List Arrival
shuffled = second_chunk ∷ second_chunk ∷ first_chunk ∷ []

first_own : IsChunkOf two_chunks first_chunk
first_own = record { own = refl; nonempty = refl; sized = omega arith }

second_own : IsChunkOf two_chunks second_chunk
second_own = record { own = refl; nonempty = refl; sized = omega arith }

shuffled-covers : (j : ℕ) → j < 2 → arrives j shuffled ≡ true
shuffled-covers zero h = refl
shuffled-covers (suc zero) h = refl
shuffled-covers (suc (suc j)) h = absurd (omega arith)

whole_frame_example :
    (handle_start log 10 (start_message two_chunk_header []) fresh >>= receive log 7 shuffled)
    ≡ some (
        deliver log
          (record ((acquire 0 empty_pool).0) {
            bytes = 1 ∷ 2 ∷ 3 ∷ [];
            info = frame_info two_chunk_header [] [];
            header_only = false;
          })
          (record fresh { pool = (acquire 0 empty_pool).1 }))
unfolding parse_detection flatten
whole_frame_example =
    whole_frame log 10 two_chunk_header [] [] [] two_chunks shuffled fresh two_chunk_header-IsHeader
      refl refl (omega arith) refl refl tt refl (second_own, (second_own, (first_own, tt)))
      shuffled-covers

-- Frame 7 with its second chunk there, at time 11.
abbrev half_arrived : InFlight
half_arrived = record {
  buf = (acquire 0 empty_pool).0;
  total_chunks = 2;
  total_size = 3;
  received = 1;
  chunks = [] ∷ (3 ∷ []) ∷ [];
  last_chunk = 11;
}

abbrev waiting : State (List FrameBuffer)
waiting = record fresh { in_flight = (7, half_arrived) ∷ [] }

waiting-IsValid : IsValid waiting
waiting-IsValid = record {
  entries = (
    record {
      slots = refl;
      small = omega arith;
      progress = omega arith;
      unfinished = inr (omega arith);
    },
    tt,
  );
  distinct = (tt, tt);
}

abbrev clock : Clock
clock = record { handled = 12; checked = 13; swept = 14 }

on_binary-Safe_example : Safe (on_binary log clock (chunk_message 7 first_chunk) waiting)
unfolding chunk_header
on_binary-Safe_example =
    on_binary-Safe log clock (chunk_message 7 first_chunk) waiting (omega arith) waiting-IsValid

sweep_stale_keeps_example :
    (16 ≤ 16 → lookup 7 (sweep_stale 16 5 waiting).in_flight ≡ some half_arrived)
    × (16 < 16 → lookup 7 (sweep_stale 16 5 waiting).in_flight ≡ none)
sweep_stale_keeps_example = sweep_stale_keeps waiting 16 5 7 half_arrived (tt, tt) refl

-- Beside it frame 8, whose last chunk came at 15.
abbrev recent : InFlight
recent = record half_arrived { last_chunk = 15 }

sweep_stale_frees_example :
    let two = record waiting { in_flight = (7, half_arrived) ∷ (8, recent) ∷ [] } in
    let swept = sweep_stale 17 5 two in
    (swept.in_flight ≡ (8, recent) ∷ [])
    × ((swept.pool.free ≡ half_arrived.buf ∷ []) × (length swept.pool.free ≡ 1))
sweep_stale_frees_example =
    sweep_stale_frees (record waiting { in_flight = (7, half_arrived) ∷ (8, recent) ∷ [] }) 17 5
      (omega arith)
