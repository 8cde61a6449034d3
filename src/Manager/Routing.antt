-- ===== src/Manager/Routing.antt =====
-- A live frame reaches the slot of the camera that sent it, and no other.
use telefacet.Shared.{
  ℕ, ◌≡◌, refl, ap, sym, ◌∙◌, ◌==◌, ◌&&◌, inl, inr, false, true, Bool-cases, ==_iff, List, [], some,
  none, arith,
}
use telefacet.Frame.{FrameBuffer}
use telefacet.Stats.{FloatOps}
use telefacet.Messages.{DiscoveredCamera}
use telefacet.Cameras.{
  CameraInfo, Store, find, find_by_server, consume_slot, consume_if_new, publish_frame,
  rebuild_global_ids_sorted,
}
use telefacet.Cameras.Ids.{find-find_by_server}
use telefacet.Manager.{add_cameras, on_discovery, on_frame}
use telefacet.Manager.Roster.{announces, find_by_server-on_discovery}

module _ {F : Type 0} (fl : FloatOps F) (owners fresh now id : ℕ) where
  first_frame :
      (buf : FrameBuffer) (t : Store F)
      → t.slots ≡ []
      → consume_if_new id 0 (publish_frame fl owners fresh now id (some buf) t) ≡ (some buf, 1)
  unfolding publish_frame consume_if_new consume_slot
  first_frame buf t e = rw e (ground arith)

  no_frame :
      (j : ℕ) (buf : FrameBuffer) (t : Store F)
      → t.slots ≡ []
      → (id == j) ≡ false
      → consume_if_new j 0 (publish_frame fl owners fresh now id (some buf) t) ≡ (none, 0)
  unfolding publish_frame consume_if_new consume_slot
  no_frame j buf t e apart = rw (e, apart) refl

module _ {F : Type 0} (fl : FloatOps F) (created server : ℕ) (cams : List DiscoveredCamera)
    (s : Store F) where
  -- Two cameras that are found have one global id only if they are the same camera.
  same_camera :
      (si li sj lj : ℕ) (a b : CameraInfo)
      → let s' = on_discovery fl created server cams s in
        find_by_server si li s' ≡ some a
        → find_by_server sj lj s' ≡ some b
        → a.global_id ≡ b.global_id
        → (si ≡ sj) × (li ≡ lj)
  unfolding on_discovery
  same_camera si li sj lj a b e f g =
      let known = add_cameras server cams s in
      let (at_a, a_server, a_local) = find-find_by_server fl created known si li a e in
      let (at_b, b_server, b_local) = find-find_by_server fl created known sj lj b f in
      let both : some a ≡ some b =
        sym at_a ∙ ap (λ k. find k (rebuild_global_ids_sorted fl created known)) g ∙ at_b in
      ground (arith, both, a_server, a_local, b_server, b_local)

  no_slots : (on_discovery fl created server cams s).slots ≡ []
  unfolding on_discovery rebuild_global_ids_sorted
  no_slots = refl

  -- After a discovery, the first frame of a camera that it lists is what a new consumer of that
  -- camera gets, and a consumer of any other camera gets nothing.
  pub consume-on_frame :
      (owners fresh now : ℕ) (buf : FrameBuffer)
      → announces buf.camera_id cams ≡ true
      → let s' = on_discovery fl created server cams s in
        let s'' = on_frame fl owners fresh now server buf s' in
        (info : CameraInfo) × (find_by_server server buf.camera_id s' ≡ some info)
        × (consume_if_new info.global_id 0 s'' ≡ (some buf, 1))
        × ((si li : ℕ) (other : CameraInfo)
            → find_by_server si li s' ≡ some other
            → ((si == server) && (li == buf.camera_id)) ≡ false
            → consume_if_new other.global_id 0 s'' ≡ (none, 0))
  unfolding on_frame
  consume-on_frame owners fresh now buf h =
      let s' = on_discovery fl created server cams s in
      let (info, found) = find_by_server-on_discovery server buf.camera_id fl created cams s h in
      (
        info,
        found,
        rw (found, on_frame) (first_frame fl owners fresh now info.global_id buf s' no_slots),
        λ si li other e differs.
            let apart : (info.global_id == other.global_id) ≡ false =
              elim (Bool-cases (info.global_id == other.global_id)) [
                | inr unmet ↦ unmet
                | inl met ↦
                    let (same_server, same_local) =
                      same_camera si li server buf.camera_id other info e found
                        (sym ((==_iff info.global_id other.global_id).0 met)) in
                    ground (arith, same_server, same_local, differs)
              ] in
            rw (found, on_frame)
              (no_frame fl owners fresh now info.global_id other.global_id buf s' no_slots apart),
      )
