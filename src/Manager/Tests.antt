-- ===== src/Manager/Tests.antt =====
-- Two cameras of one server discovered, and the theorems at them.
use telefacet.Shared.{ℕ, ◌≡◌, refl, ◌==◌, ◌&&◌, false, List, [], ◌∷◌, some, none, codes}
use telefacet.Frame.{FrameBuffer, default_info}
use telefacet.Pool.{empty_pool}
use telefacet.Stats.{FloatOps}
use telefacet.Messages.{DiscoveredCamera}
use telefacet.Cameras.{CameraInfo, Store, find_by_server, consume_if_new}
use telefacet.Manager.{on_discovery, on_frame}
use telefacet.Manager.Roster.{find_by_server-on_discovery}
use telefacet.Manager.Routing.{consume-on_frame}

-- An arithmetic that has one number.
abbrev one_number : FloatOps Unit
one_number = record {
  single = λ n. tt;
  double = λ n. tt;
  zero_double = tt;
  mul_single = λ a b. tt;
  div_single = λ a b. tt;
  add_double = λ a b. tt;
  div_double = λ a b. tt;
  to_single = λ a. tt;
  is_positive = λ a. false;
}

abbrev nothing_known : Store Unit
nothing_known = record {
  roster = [];
  slots = [];
  stats = [];
  captures = [];
  capture_seq = 0;
  pool = empty_pool;
}

abbrev two_cameras : List DiscoveredCamera
two_cameras =
    record { id = 1; sensor_type = codes "IMX296" }
    ∷ record { id = 0; sensor_type = codes "IMX296" }
    ∷ []

abbrev frame : FrameBuffer
frame = record {
  id = 0;
  bytes = [];
  info = record default_info { camera_id = 0 };
  header_only = false;
}

find_by_server-on_discovery_example :
    (info : CameraInfo) × (find_by_server 2 0
        (on_discovery one_number 5 2 two_cameras nothing_known)
      ≡ some info)
find_by_server-on_discovery_example =
    find_by_server-on_discovery 2 0 one_number 5 two_cameras nothing_known refl

consume-on_frame_example :
    let s' = on_discovery one_number 5 2 two_cameras nothing_known in
    let s'' = on_frame one_number 1 6 7 2 frame s' in
    (info : CameraInfo) × (find_by_server 2 0 s' ≡ some info)
    × (consume_if_new info.global_id 0 s'' ≡ (some frame, 1))
    × ((si li : ℕ) (other : CameraInfo)
        → find_by_server si li s' ≡ some other
        → ((si == 2) && (li == 0)) ≡ false
        → consume_if_new other.global_id 0 s'' ≡ (none, 0))
consume-on_frame_example =
    consume-on_frame one_number 5 2 two_cameras nothing_known 1 6 7 frame refl
