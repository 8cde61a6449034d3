-- ===== src/Cameras/Tests.antt =====
-- The camera store run on a small roster, and its theorems at it.
use mathlib.Core.List.{Perm, Permᴰ}
use telefacet.Shared.{
  ℕ, ◌+◌, ◌*◌, ◌/◌, ◌≡◌, refl, List, [], ◌∷◌, ◌++◌, none, some, false, codes, arith, ltb, get_elem?,
  false, to_string, map,
}
use telefacet.Frame.{FrameBuffer, default_info}
use telefacet.Pool.{empty_pool}
use telefacet.Stats.{FloatOps, fresh_stats}
use telefacet.Stats.Window.{update_all, last_ten, server_durations-update_all}
use telefacet.Cameras.{
  CameraInfo, rediscover, find_by_server_in, sort, insert_sorted, number, Store, add_camera,
  rebuild_global_ids_sorted, find, find_by_server, consume_if_new,
}
use telefacet.Cameras.Ids.{
  discovered, OncePerCamera, add_camera-OncePerCamera, find-rebuild, find-find_by_server,
}
use telefacet.Cameras.Order.{rebuild-Ordered, rebuild_order, Ordered}
use telefacet.Cameras.Latest.{
  Publication, publish_all, consume-rebuild_stale, consume-publish_all, consume-rebuild_stale,
}

-- Whole numbers in place of the floating-point ones.
abbrev whole : FloatOps ℕ
whole = record {
  single = λ n. n;
  double = λ n. n;
  zero_double = 0;
  mul_single = ◌*◌;
  div_single = ◌/◌;
  add_double = ◌+◌;
  div_double = ◌/◌;
  to_single = λ n. n;
  is_positive = ltb 0;
}

abbrev empty_store : Store ℕ
empty_store = record {
  roster = [];
  slots = [];
  stats = [];
  captures = [];
  capture_seq = 0;
  pool = empty_pool;
}

abbrev discover_both : Store ℕ
discover_both = (add_camera 0 2 [] (add_camera 1 0 [] empty_store).1).1

abbrev discover_swapped : Store ℕ
discover_swapped = (add_camera 1 0 [] (add_camera 0 2 [] empty_store).1).1

discover_both-OncePerCamera : OncePerCamera discover_both.roster
unfolding add_camera rediscover
discover_both-OncePerCamera = ((refl, tt), (tt, tt))

add_camera-OncePerCamera_example :
    OncePerCamera (add_camera 1 0 (codes "IMX296") discover_both).1.roster
add_camera-OncePerCamera_example =
    add_camera-OncePerCamera 1 0 (codes "IMX296") discover_both discover_both-OncePerCamera

abbrev rebuilt : Store ℕ
rebuilt = rebuild_global_ids_sorted whole 5 discover_both

find-rebuild_example :
    let s' = rebuild_global_ids_sorted whole 5 discover_both in
    (find 1 s' ≡ get_elem? s'.roster 1)
    × ((c : CameraInfo)
        → find 1 s' ≡ some c
        → (c.global_id ≡ 1) × (c.label ≡ codes "cam" ++ to_string 1))
find-rebuild_example = find-rebuild whole 5 discover_both 1

abbrev second : CameraInfo
second = record {
  global_id = 1;
  server_index = 1;
  local_camera_id = 0;
  label = codes "cam" ++ to_string 1;
  sensor_type = [];
  streaming = false;
}

second_found : find_by_server 1 0 rebuilt ≡ some second
unfolding find_by_server find_by_server_in rebuild_global_ids_sorted sort insert_sorted number
    add_camera rediscover
second_found = refl

find-find_by_server_example :
    (find 1 rebuilt ≡ some second) × (second.server_index ≡ 1) × (second.local_camera_id ≡ 0)
find-find_by_server_example = find-find_by_server whole 5 discover_both 1 0 second second_found

rebuild-Ordered_example : Ordered rebuilt.roster
rebuild-Ordered_example = rebuild-Ordered whole 5 discover_both discover_both-OncePerCamera

swapped : Perm (map discovered discover_both.roster) (map discovered discover_swapped.roster)
unfolding add_camera rediscover
swapped = ∣ Permᴰ.swap refl refl ∣₁

rebuild_order_example :
    (rebuild_global_ids_sorted whole 5 discover_both).roster
    ≡ (rebuild_global_ids_sorted whole 6 discover_swapped).roster
rebuild_order_example =
    rebuild_order whole 5 6 discover_both discover_swapped discover_both-OncePerCamera swapped

abbrev frame : ℕ → ℕ → FrameBuffer
frame id timestamp = record {
  id = id;
  bytes = [];
  info = record default_info { frame_id = id; timestamp_us = timestamp };
  header_only = false;
}

abbrev published : List Publication
published =
    record { camera = 3; frame = frame 1 100; owners = 1; created = 0; now = 0 }
    ∷ record { camera = 4; frame = frame 2 200; owners = 1; created = 0; now = 1 }
    ∷ record { camera = 3; frame = frame 3 300; owners = 1; created = 0; now = 2 }
    ∷ []

consume-publish_all_example :
    ((consume_if_new 3 0 (publish_all whole published empty_store)).0 ≡ some (frame 3 300))
    × ((consume_if_new 3
          (consume_if_new 3 0 (publish_all whole published empty_store)).1
          (publish_all whole published empty_store)).0
        ≡ none)
consume-publish_all_example =
    consume-publish_all whole 3 published empty_store (omega arith) (omega arith)

server_durations-update_all_example :
    (update_all whole
      ((0, frame 1 100) ∷ (1, frame 3 300) ∷ [])
      (fresh_stats whole 0)).server_durations
    ≡ last_ten (100 ∷ [])
server_durations-update_all_example =
    server_durations-update_all whole 0 ((0, frame 1 100) ∷ (1, frame 3 300) ∷ [])

consume-rebuild_stale_example : (consume_if_new 3 2 (publish_all whole published rebuilt)).0 ≡ none
consume-rebuild_stale_example =
    consume-rebuild_stale whole 5 3 published discover_both (omega arith)
