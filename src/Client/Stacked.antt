-- ===== src/Client/Stacked.antt =====
-- client/Client.cpp: what `stackCapture` returns of what was collected.
use mathlib.Core.List.{Permᴰ}
use mathlib.Core.Option.{some-injective}
use telefacet.Shared.{
  ℕ, Text, ◌==◌, ==_iff, Bool-cases, true, false, List, [], ◌∷◌, ◌++◌, map, Option, none, some, All,
  All-append, All-Permᴰ, map-Permᴰ, symm-Permᴰ, sort_on, IsSorted, sort_on-IsSorted, sort_on-Permᴰ,
  if◌then◌else◌, ◌≡◌, ◌↔◌, refl, ap, ap₂, sym, subst, ◌∙◌, inl, inr, arith,
}
use telefacet.Frame.{FrameBuffer}
use telefacet.Messages.{StackCapture, StackResult, is_empty_text}
use telefacet.Client.Captured.{id_in, find_by_server-id_in}
use telefacet.Cameras.{Store, find_by_server}
use telefacet.Rendezvous.{Pending, CaptureRun}
use telefacet.Client.{
  StackedCamera, last_frame_of, stacked_cameras, is_stack_cancelled, captures_of,
  any_stack_cancelled, all_stacked, stack_outcome, has_image, all_stacked_well, is_stacked,
}

-- The frames of one camera.
abbrev pub of_camera : ℕ → List FrameBuffer → List FrameBuffer
of_camera camera [] = []
of_camera camera (f ∷ rest) =
    let later = of_camera camera rest in if f.camera_id == camera then f ∷ later else later

-- The last element, if there is one, and else what is given.
abbrev pub last_or : {A : Type 0} → Option A → List A → Option A
last_or found [] = found
last_or found (a ∷ rest) = last_or (some a) rest

last_frame_of_lem :
    (camera : ℕ) (found : Option FrameBuffer) (frames : List FrameBuffer)
    → last_frame_of camera found frames ≡ last_or found (of_camera camera frames)
unfolding last_frame_of
last_frame_of_lem camera found [] = refl
last_frame_of_lem camera found (f ∷ rest) = elim (Bool-cases (f.camera_id == camera)) [
  | inl hit ↦ rw hit (last_frame_of_lem camera (some f) rest)
  | inr miss ↦ rw miss (last_frame_of_lem camera found rest)
]

-- A camera that a server lists, with the last of the server's frames that is of that camera.
abbrev pub with_image :
    ℕ → List FrameBuffer → StackCapture → ℕ × (StackCapture × Option FrameBuffer)
with_image server frames c = (server, (c, last_or none (of_camera c.camera_id frames)))

module _ {J : Type 0} where
  -- The cameras that a result lists, none without a result.
  abbrev pub listed : Option (StackResult J) → List StackCapture
  listed none = []
  listed (some sr) = sr.captures

  captures_of-listed : (o : Option (StackResult J)) → captures_of o ≡ listed o
  captures_of-listed none = refl
  captures_of-listed (some sr) = refl

  -- What every server says of its cameras, with the server and the camera's image.
  abbrev pub reported : List (ℕ × Pending J) → List (ℕ × (StackCapture × Option FrameBuffer))
  reported [] = []
  reported ((server, p) ∷ rest) =
      map (with_image server p.frames) (listed p.stack_result) ++ reported rest

  -- No server says that the stack was cancelled.
  abbrev pub IsStackUncancelled : List (ℕ × Pending J) → Type 0
  IsStackUncancelled got =
      All (λ e. (sr : StackResult J) → e.1.stack_result ≡ some sr → sr.cancelled ≡ false) got

  is_stack_cancelled_iff :
      (o : Option (StackResult J))
      → (is_stack_cancelled o ≡ false) ↔ ((sr : StackResult J) → o ≡ some sr → sr.cancelled ≡ false)
  is_stack_cancelled_iff none = (λ e sr q. cc, λ h. refl)
  is_stack_cancelled_iff (some t) = (λ e sr q. ap is_stack_cancelled (sym q) ∙ e, λ h. h t refl)

  any_stack_cancelled-IsUncancelled :
      (got : List (ℕ × Pending J)) → (any_stack_cancelled got ≡ false) ↔ IsStackUncancelled got
  unfolding any_stack_cancelled
  any_stack_cancelled-IsUncancelled [] = (λ e. tt, λ h. refl)
  any_stack_cancelled-IsUncancelled ((server, p) ∷ rest) =
      let (to, from) = is_stack_cancelled_iff p.stack_result in
      let (rest_to, rest_from) = any_stack_cancelled-IsUncancelled rest in
      (
        λ e. (to (ground (arith, e)), rest_to (ground (arith, e))),
        λ h. rw (from h.0) (rest_from h.1),
      )

-- A camera without an error, whose image has arrived.
abbrev pub IsStackedWell : StackedCamera → Type 0
IsStackedWell c = (c.stats.error ≡ []) × ((f : FrameBuffer) × (c.frame ≡ some f))

is_empty_text_iff : (t : Text) → (is_empty_text t ≡ true) ↔ (t ≡ [])
is_empty_text_iff [] = (λ e. refl, λ e. refl)
is_empty_text_iff (c ∷ t) = (λ e. cc, λ e. cc)

has_image_iff : (o : Option FrameBuffer) → (has_image o ≡ true) ↔ ((f : FrameBuffer) × (o ≡ some f))
has_image_iff none = (λ e. cc, λ h. absurd (cc h.1))
has_image_iff (some f) = (λ e. (f, refl), λ h. refl)

all_stacked_well_iff :
    (cameras : List StackedCamera) → (all_stacked_well cameras ≡ true) ↔ All IsStackedWell cameras
unfolding all_stacked_well
all_stacked_well_iff [] = (λ e. tt, λ h. refl)
all_stacked_well_iff (c ∷ rest) =
    let (silent_to, silent_from) = is_empty_text_iff c.stats.error in
    let (image_to, image_from) = has_image_iff c.frame in
    let (to, from) = all_stacked_well_iff rest in
    (
      λ e. ((silent_to (ground (arith, e)), image_to (ground (arith, e))), to (ground (arith, e))),
      λ h. rw (silent_from h.0.0, image_from h.0.1) (from h.1),
    )

last_frame_of-camera :
    (camera : ℕ) (found : Option FrameBuffer) (frames : List FrameBuffer) (f : FrameBuffer)
    → ((g : FrameBuffer) → found ≡ some g → g.camera_id ≡ camera)
    → last_frame_of camera found frames ≡ some f
    → f.camera_id ≡ camera
unfolding last_frame_of
last_frame_of-camera camera found [] f h e = h f e
last_frame_of-camera camera found (g ∷ rest) f h e = elim (Bool-cases (g.camera_id == camera)) [
  | inl hit ↦
      last_frame_of-camera camera (some g) rest f
        (λ k q.
          ap (λ b. b.camera_id) (sym (some-injective g k q)) ∙ (==_iff g.camera_id camera).0 hit)
        (ground (arith, e))
  | inr miss ↦ last_frame_of-camera camera found rest f h (ground (arith, e))
]

module _ {F : Type 0} where
  -- The camera's id in the roster, or 0; and an image is of that camera.
  abbrev pub IsStackLabelled : Store F → StackedCamera → Type 0
  IsStackLabelled store c =
      (c.local_camera_id ≡ c.stats.camera_id)
      × ((c.global_camera_id ≡ id_in c.server_index c.stats.camera_id store.roster)
          × ((f : FrameBuffer) → c.frame ≡ some f → f.camera_id ≡ c.stats.camera_id))

  stacked_cameras-IsLabelled :
      (store : Store F) (server : ℕ) (frames : List FrameBuffer) (l : List StackCapture)
      → All (IsStackLabelled store) (stacked_cameras store server frames l)
  unfolding stacked_cameras find_by_server
  stacked_cameras-IsLabelled store server frames [] = tt
  stacked_cameras-IsLabelled store server frames (c ∷ rest) = (
    (
      refl,
      (
        find_by_server-id_in server c.camera_id store.roster,
        λ f e. last_frame_of-camera c.camera_id none frames f (λ g q. cc) e,
      ),
    ),
    stacked_cameras-IsLabelled store server frames rest,
  )

abbrev pub report_of : StackedCamera → ℕ × (StackCapture × Option FrameBuffer)
report_of c = (c.server_index, (c.stats, c.frame))

map-stacked :
    {F : Type 0} (store : Store F) (server : ℕ) (frames : List FrameBuffer) (l : List StackCapture)
    (rest : List StackedCamera)
    → map report_of (stacked_cameras store server frames l ++ rest)
      ≡ map (with_image server frames) l ++ map report_of rest
unfolding stacked_cameras
map-stacked store server frames [] rest = refl
map-stacked store server frames (c ∷ l) rest =
    ap₂ (λ image later. (server, (c, image)) ∷ later) (last_frame_of_lem c.camera_id none frames)
      (map-stacked store server frames l rest)

module _ {J F : Type 0} where
  all_stacked-IsLabelled :
      (store : Store F) (got : List (ℕ × Pending J))
      → All (IsStackLabelled store) (all_stacked store got)
  unfolding all_stacked
  all_stacked-IsLabelled store [] = tt
  all_stacked-IsLabelled store ((server, p) ∷ rest) =
      let l = captures_of p.stack_result in
      All-append (IsStackLabelled store) (stacked_cameras store server p.frames l)
        (all_stacked store rest) (stacked_cameras-IsLabelled store server p.frames l)
        (all_stacked-IsLabelled store rest)

  all_stacked-reported :
      (store : Store F) (got : List (ℕ × Pending J))
      → map report_of (all_stacked store got) ≡ reported got
  unfolding all_stacked
  all_stacked-reported store [] = refl
  all_stacked-reported store ((server, p) ∷ rest) =
      let l = captures_of p.stack_result in
      map-stacked store server p.frames l (all_stacked store rest)
      ∙ ap₂ (λ a b. map (with_image server p.frames) a ++ b) (captures_of-listed p.stack_result)
          (all_stacked-reported store rest)

  -- What a stack returns of a capture that ran: every camera that a server's result lists, with the
  -- server and, as its image, the last frame of that camera among the server's frames, none if there
  -- is none; each as often as it is listed, in the order of the global camera ids, under the roster's
  -- id, 0 for one that the roster does not have; an image is of its camera. It counts as stacked exactly if the capture was complete, no server says that it was
  -- cancelled, and each camera has an image and no error.
  pub stack_outcome_lem :
      (store : Store F) (run : CaptureRun J)
      → let o = stack_outcome store run in
        IsSorted (λ c. c.global_camera_id) o.cameras
        × (Permᴰ (map report_of o.cameras) (reported run.got)
            × (All (IsStackLabelled store) o.cameras
                × ((is_stacked o ≡ true) ↔ (
                    (run.complete ≡ true)
                    × (IsStackUncancelled run.got × All IsStackedWell o.cameras)))))
  unfolding stack_outcome is_stacked
  stack_outcome_lem store run =
      let raw = all_stacked store run.got in
      let perm = sort_on-Permᴰ (λ c. c.global_camera_id) raw in
      let well = all_stacked_well_iff (sort_on (λ c. c.global_camera_id) raw) in
      (
        sort_on-IsSorted (λ c. c.global_camera_id) raw,
        (
          subst (λ l. Permᴰ (map report_of (sort_on (λ c. c.global_camera_id) raw)) l)
              (all_stacked-reported store run.got) (map-Permᴰ report_of perm),
          (
            All-Permᴰ (IsStackLabelled store) (symm-Permᴰ perm)
                (all_stacked-IsLabelled store run.got),
            ground (arith, any_stack_cancelled-IsUncancelled run.got, well),
          ),
        ),
      )
