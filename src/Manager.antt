-- ===== src/Manager.antt =====
-- net/MultiServerManager.cpp: how discoveries, frames and captures of the connections reach the store.
pub mod Roster
pub mod Routing
mod Tests
use telefacet.Shared.{ℕ, List, [], ◌∷◌, Option, none, some}
use telefacet.Frame.{FrameBuffer}
use telefacet.Pool.{release}
use telefacet.Stats.{FloatOps}
use telefacet.Messages.{DiscoveredCamera}
use telefacet.Cameras.{
  Capture, Store, add_camera, rebuild_global_ids_sorted, find_by_server, publish_frame,
  publish_capture,
}

module _ {F : Type 0} where
  unfoldable pub add_cameras : ℕ → List DiscoveredCamera → Store F → Store F
  add_cameras server [] s = s
  add_cameras server (dc ∷ rest) s =
      add_cameras server rest (add_camera server dc.id dc.sensor_type s).1

  -- The store, and what the callback for capture frames is told: the camera's global id and the
  -- capture, if the camera is known.
  unfoldable pub on_capture_frame : ℕ → ℕ → FrameBuffer → Store F → Option (ℕ × Capture) × Store F
  on_capture_frame now server f s = elim (find_by_server server f.camera_id s) [
    | none ↦ (none, s)
    | some info ↦
        let (c, s') = publish_capture now info.global_id f s in (some (info.global_id, c), s')
  ]

module _ {F : Type 0} (fl : FloatOps F) where
  unfoldable pub on_discovery : ℕ → ℕ → List DiscoveredCamera → Store F → Store F
  unfolding add_cameras
  on_discovery created server cams s =
      rebuild_global_ids_sorted fl created (add_cameras server cams s)

  -- `owners` is the number of owners of the buffer that is released: the frame itself, if its camera
  -- is not known, or the one that it evicts.
  unfoldable pub on_frame : ℕ → ℕ → ℕ → ℕ → FrameBuffer → Store F → Store F
  on_frame owners created now server buf s = elim (find_by_server server buf.camera_id s) [
    | none ↦ record s { pool = release owners (some buf) s.pool }
    | some info ↦ publish_frame fl owners created now info.global_id (some buf) s
  ]
