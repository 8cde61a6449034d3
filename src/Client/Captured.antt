-- ===== src/Client/Captured.antt =====
-- client/Client.cpp: what `triggerCapture` and `stackCapture` return of what was collected.
use mathlib.Core.List.{Permᴰ}
use telefacet.Shared.{
  ℕ, true, false, ◌==◌, ◌&&◌, Option, none, some, Bool-cases, inl, inr, sym, if◌then◌else◌, List,
  [], ◌∷◌, ◌++◌, map, All, All-append, All-Permᴰ, map-Permᴰ, symm-Permᴰ, sort_on, IsSorted,
  sort_on-IsSorted, sort_on-Permᴰ, ◌≡◌, ◌↔◌, refl, ap, subst, ◌∙◌, arith,
}
use telefacet.Frame.{FrameBuffer}
use telefacet.Cameras.{CameraInfo, Store, is_camera, find_by_server_in, find_by_server}
use telefacet.Messages.{TriggerResult}
use telefacet.Rendezvous.{Pending, CaptureRun}
use telefacet.Client.{
  CapturedFrame, global_id_or_zero, captured_frames, is_trigger_cancelled, any_trigger_cancelled,
  all_captures, trigger_outcome, is_taken,
}

-- The roster's id of a server's camera, 0 for one that it does not have.
abbrev pub id_in : ℕ → ℕ → List CameraInfo → ℕ
id_in server local [] = 0
id_in server local (c ∷ rest) =
    let later = id_in server local rest in
    if c.server_index == server && c.local_camera_id == local then c.global_id else later

pub find_by_server-id_in :
    (server local : ℕ) (cams : List CameraInfo)
    → global_id_or_zero (find_by_server_in server local cams) ≡ id_in server local cams
unfolding find_by_server_in
find_by_server-id_in server local [] = refl
find_by_server-id_in server local (c ∷ rest) = elim (Bool-cases (is_camera server local c)) [
  | inl hit ↦ rw hit refl
  | inr miss ↦ rw miss (find_by_server-id_in server local rest)
]

module _ {J : Type 0} where
  -- Every frame that was collected, with its server.
  abbrev pub collected : List (ℕ × Pending J) → List (ℕ × FrameBuffer)
  collected [] = []
  collected ((server, p) ∷ rest) = map (λ f. (server, f)) p.frames ++ collected rest

  -- No server says that the trigger was cancelled.
  abbrev pub IsUncancelled : List (ℕ × Pending J) → Type 0
  IsUncancelled got =
      All (λ e. (tr : TriggerResult J) → e.1.trigger_result ≡ some tr → tr.cancelled ≡ false) got

  is_trigger_cancelled_iff :
      (o : Option (TriggerResult J))
      → (is_trigger_cancelled o ≡ false)
        ↔ ((tr : TriggerResult J) → o ≡ some tr → tr.cancelled ≡ false)
  is_trigger_cancelled_iff none = (λ e tr q. cc, λ h. refl)
  is_trigger_cancelled_iff (some t) = (λ e tr q. ap is_trigger_cancelled (sym q) ∙ e, λ h. h t refl)

  any_trigger_cancelled-IsUncancelled :
      (got : List (ℕ × Pending J)) → (any_trigger_cancelled got ≡ false) ↔ IsUncancelled got
  unfolding any_trigger_cancelled
  any_trigger_cancelled-IsUncancelled [] = (λ e. tt, λ h. refl)
  any_trigger_cancelled-IsUncancelled ((server, p) ∷ rest) =
      let (to, from) = is_trigger_cancelled_iff p.trigger_result in
      let (rest_to, rest_from) = any_trigger_cancelled-IsUncancelled rest in
      (
        λ e. (to (ground (arith, e)), rest_to (ground (arith, e))),
        λ h. rw (from h.0) (rest_from h.1),
      )

module _ {F : Type 0} where
  -- A capture says which frame it holds, under the camera's id in the roster, or 0.
  abbrev pub IsLabelled : Store F → CapturedFrame → Type 0
  IsLabelled store c =
      (c.local_camera_id ≡ c.frame.camera_id)
      × ((c.frame_id ≡ c.frame.frame_id)
          × (c.global_camera_id ≡ id_in c.server_index c.frame.camera_id store.roster))

  captured_frames-IsLabelled :
      (store : Store F) (server : ℕ) (frames : List FrameBuffer)
      → All (IsLabelled store) (captured_frames store server frames)
  unfolding captured_frames find_by_server
  captured_frames-IsLabelled store server [] = tt
  captured_frames-IsLabelled store server (f ∷ rest) = (
    (refl, (refl, find_by_server-id_in server f.camera_id store.roster)),
    captured_frames-IsLabelled store server rest,
  )

abbrev pub source_of : CapturedFrame → ℕ × FrameBuffer
source_of c = (c.server_index, c.frame)

map-captured :
    {F : Type 0} (store : Store F) (server : ℕ) (frames : List FrameBuffer)
    (rest : List CapturedFrame)
    → map source_of (captured_frames store server frames ++ rest)
      ≡ map (λ f. (server, f)) frames ++ map source_of rest
unfolding captured_frames
map-captured store server [] rest = refl
map-captured store server (f ∷ frames) rest =
    ap (◌∷◌ (server, f)) (map-captured store server frames rest)

module _ {J F : Type 0} where
  all_captures-IsLabelled :
      (store : Store F) (got : List (ℕ × Pending J))
      → All (IsLabelled store) (all_captures store got)
  unfolding all_captures
  all_captures-IsLabelled store [] = tt
  all_captures-IsLabelled store ((server, p) ∷ rest) =
      All-append (IsLabelled store) (captured_frames store server p.frames)
        (all_captures store rest) (captured_frames-IsLabelled store server p.frames)
        (all_captures-IsLabelled store rest)

  all_captures-collected :
      (store : Store F) (got : List (ℕ × Pending J))
      → map source_of (all_captures store got) ≡ collected got
  unfolding all_captures
  all_captures-collected store [] = refl
  all_captures-collected store ((server, p) ∷ rest) =
      map-captured store server p.frames (all_captures store rest)
      ∙ ap (λ l. map (λ f. (server, f)) p.frames ++ l) (all_captures-collected store rest)

  -- What a trigger returns of a capture that ran: every frame that was collected with its server,
  -- each as often as it was collected, in the order of the global camera ids; each under the frame's
  -- own ids and the roster's id of that server's camera, 0 for one that the roster does not have. It
  -- counts as taken exactly if the capture was complete and no server says that it was cancelled.
  pub trigger_outcome_lem :
      (store : Store F) (run : CaptureRun J)
      → let o = trigger_outcome store run in
        IsSorted (λ c. c.global_camera_id) o.captures
        × (Permᴰ (map source_of o.captures) (collected run.got)
            × (All (IsLabelled store) o.captures
                × ((is_taken o ≡ true) ↔ ((run.complete ≡ true) × IsUncancelled run.got))))
  unfolding trigger_outcome
  trigger_outcome_lem store run =
      let raw = all_captures store run.got in
      let perm = sort_on-Permᴰ (λ c. c.global_camera_id) raw in
      (
        sort_on-IsSorted (λ c. c.global_camera_id) raw,
        (
          subst (λ l. Permᴰ (map source_of (sort_on (λ c. c.global_camera_id) raw)) l)
              (all_captures-collected store run.got) (map-Permᴰ source_of perm),
          (
            All-Permᴰ (IsLabelled store) (symm-Permᴰ perm) (all_captures-IsLabelled store run.got),
            ground (arith, any_trigger_cancelled-IsUncancelled run.got),
          ),
        ),
      )
