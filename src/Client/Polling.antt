-- ===== src/Client/Polling.antt =====
-- client/Client.cpp: `poll` after frames were published.
use telefacet.Shared.{
  ℕ, ◌+◌, ◌%◌, ◌^◌, ◌==◌, Bool-cases, List, [], ◌∷◌, map, some, lookup, lookup-insert, All,
  if◌then◌else◌, ◌≡◌, refl, ◌≢◌, ap, ap₂, sym, ◌∙◌, inl, inr, arith,
}
use telefacet.Frame.{FrameBuffer}
use telefacet.Stats.{FloatOps}
use telefacet.Cameras.{
  CameraInfo, Slot, empty_slot, Store, find, find_in, get_or, snapshot, publish_frame,
}
use telefacet.Cameras.Latest.{Publication}
use telefacet.Client.{
  CameraMarkers, no_markers, Cursors, cursor_of, copy_out, with_server, poll_cameras, poll,
}
use telefacet.Client.Cursors.{
  seq_of, NoRepeat, All-map_lem, find_in_All, IsSeen, poll_cameras-seen, AreOthersSeen,
  poll_cameras-new,
}

-- The server of a camera of the roster, 0 for one that it does not have.
abbrev pub server_of : ℕ → List CameraInfo → ℕ
server_of id [] = 0
server_of id (c ∷ rest) =
    let later = server_of id rest in if c.global_id == id then c.server_index else later

-- A frame's data, under the camera's id and its server in the roster.
abbrev pub data_of : List CameraInfo → ℕ → FrameBuffer → CameraMarkers
data_of roster id f = record {
  global_camera_id = id;
  server_index = server_of id roster;
  local_camera_id = f.camera_id;
  frame_id = f.frame_id;
  timestamp_us = f.timestamp_us;
  lens_position = f.lens_position;
  width = f.width;
  height = f.height;
  markers = f.aruco_markers;
}

with_server_lem :
    (id : ℕ) (f : FrameBuffer) (cams : List CameraInfo)
    → with_server (find_in id cams) (copy_out id f no_markers) ≡ data_of cams id f
unfolding find_in
with_server_lem id f [] = refl
with_server_lem id f (c ∷ rest) = elim (Bool-cases (c.global_id == id)) [
  | inl hit ↦ rw hit refl
  | inr miss ↦ rw miss (with_server_lem id f rest)
]

module _ {F : Type 0} (fl : FloatOps F) where
  pub roster-publish_frame :
      (owners created now id : ℕ) (buf : FrameBuffer) (s : Store F)
      → (publish_frame fl owners created now id (some buf) s).roster ≡ s.roster
  unfolding publish_frame
  roster-publish_frame owners created now id buf s = refl

  slot-publish_frame :
      (owners created now id : ℕ) (buf : FrameBuffer) (s : Store F)
      → lookup id (publish_frame fl owners created now id (some buf) s).slots
        ≡ some (record { latest = some buf; seq = (seq_of id s + 1) % 2 ^ 64 })
  unfolding publish_frame
  slot-publish_frame owners created now id buf s = rw lookup-insert ground arith

  seq_of-publish_frame :
      (owners created now id j : ℕ) (buf : FrameBuffer) (s : Store F)
      → seq_of j (publish_frame fl owners created now id (some buf) s)
        ≡ (if id == j then (seq_of id s + 1) % 2 ^ 64 else seq_of j s)
  unfolding publish_frame
  seq_of-publish_frame owners created now id j buf s =
      let slot : Slot = record { latest = some buf; seq = (seq_of id s + 1) % 2 ^ 64 } in
      ap (λ o. (get_or o empty_slot).seq) (lookup-insert id j slot s.slots) ∙ ground arith

  poll-publish_frame :
      (p : Publication) (s : Store F) (cursors : Cursors) (info : CameraInfo)
      → NoRepeat s.roster
      → find_in p.camera s.roster ≡ some info
      → All (IsSeen s cursors) s.roster
      → let s' = publish_frame fl p.owners p.created p.now p.camera (some p.frame) s in
        ((poll s' cursors).0 ≡ data_of s.roster p.camera p.frame ∷ [])
        × All (IsSeen s' (poll s' cursors).1) s'.roster
  unfolding poll find snapshot publish_frame
  poll-publish_frame p s cursors info d e h =
      let id = p.camera in
      let s' = publish_frame fl p.owners p.created p.now id (some p.frame) s in
      let next = (seq_of id s + 1) % 2 ^ 64 in
      let seen : cursor_of id cursors ≡ seq_of id s =
        find_in_All id s.roster info (λ j. cursor_of j cursors ≡ seq_of j s) e h in
      let now_at = λ (j : ℕ). seq_of-publish_frame p.owners p.created p.now id j p.frame s in
      let others : AreOthersSeen s' cursors id s.roster =
        All-map_lem (IsSeen s cursors) (λ c. c.global_id ≢ id → IsSeen s' cursors c) s.roster
          (λ c k n. k ∙ sym (now_at c.global_id ∙ ground (arith, n))) h in
      let out =
        poll_cameras-new s' cursors id p.frame next s.roster info d e
          (slot-publish_frame p.owners p.created p.now id p.frame s)
          (λ q. absurd (omega (arith, q, seen))) others in
      (
        out.0 ∙ ap (λ m. m ∷ []) (with_server_lem id p.frame s.roster),
        All-map_lem (IsSeen s cursors) (IsSeen s' (poll_cameras s' cursors s.roster).1) s.roster
            (λ c k. out.1 c.global_id ∙ ground (arith, k) ∙ sym (now_at c.global_id)) h,
      )

  -- Each publication is followed by a poll: what the polls give, the store and the cursors.
  abbrev pub poll_each :
      List Publication → Store F → Cursors → List (List CameraMarkers) × (Store F × Cursors)
  unfolding publish_frame poll
  poll_each [] s cursors = ([], (s, cursors))
  poll_each (p ∷ rest) s cursors =
      let s' = publish_frame fl p.owners p.created p.now p.camera (some p.frame) s in
      let (out, cursors') = poll s' cursors in
      let (later, end) = poll_each rest s' cursors' in (out ∷ later, end)

  -- The frames are of cameras in the roster.
  unfoldable pub AreRostered : Store F → List Publication → Type 0
  unfolding find
  AreRostered s published = All (λ p. (info : CameraInfo) × (find p.camera s ≡ some info)) published

  -- A client that has seen the latest frame of each camera in the roster, whose ids differ, and polls
  -- after each of a sequence of publications of frames of these cameras, gets from each poll that
  -- frame's camera and number, time, lens position, size and markers, under the camera's id and the
  -- server that the roster has for it, and no other; one more poll gives nothing.
  pub poll_each_lem :
      (published : List Publication) (s : Store F) (cursors : Cursors)
      → NoRepeat s.roster
      → AreRostered s published
      → All (IsSeen s cursors) s.roster
      → let (out, (s', cursors')) = poll_each published s cursors in
        (out ≡ map (λ p. data_of s.roster p.camera p.frame ∷ []) published)
        × ((poll s' cursors').0 ≡ [])
  unfolding poll find snapshot publish_frame AreRostered
  poll_each_lem [] s cursors d e h = (refl, (poll_cameras-seen s cursors s.roster h).0)
  poll_each_lem (p ∷ rest) s cursors d e h =
      let (info, found) = e.0 in
      let step = poll-publish_frame p s cursors info d found h in
      let s' = publish_frame fl p.owners p.created p.now p.camera (some p.frame) s in
      let ih = poll_each_lem rest s' (poll s' cursors).1 d e.1 step.1 in
      (ap₂ (λ x y. x ∷ y) step.0 ih.0, ih.1)
