-- ===== src/Cameras/Latest.antt =====
-- The latest frame of each camera and its capture: what the consumers get of what is published.
use telefacet.Shared.{
  ℕ, suc, ◌+◌, ◌%◌, ◌^◌, ◌<◌, ◌==◌, ◌≡◌, refl, ap, ◌∙◌, inl, inr, List, [], ◌∷◌, Option, none, some,
  arith, length, lookup, lookup-insert, insert, Bool-cases, ==_iff, Option-cases, if◌then◌else◌,
}
use telefacet.Frame.{FrameBuffer}
use telefacet.Stats.{FloatOps}
use telefacet.Cameras.{
  Slot, empty_slot, Store, get_or, consume_slot, consume_if_new, publish_frame,
  rebuild_global_ids_sorted, publish_capture, last_capture, capture_count,
}

-- A call of `publishFrame`: its frame, the camera's id, the owners of the frame that it evicts, and
-- the clock.
pub record Publication : Type 0 where
  pub camera : ℕ
  pub frame : FrameBuffer
  pub owners : ℕ
  pub created : ℕ
  pub now : ℕ

-- The frames of one camera, in the order of publication.
abbrev pub frames_of : ℕ → List Publication → List FrameBuffer
frames_of id [] = []
frames_of id (p ∷ rest) =
    let later = frames_of id rest in if p.camera == id then p.frame ∷ later else later

abbrev pub last_frame : Option FrameBuffer → List FrameBuffer → Option FrameBuffer
last_frame o [] = o
last_frame o (f ∷ rest) = last_frame (some f) rest

abbrev next_slot : FrameBuffer → Option Slot → Slot
next_slot f o = record { latest = some f; seq = ((get_or o empty_slot).seq + 1) % 2 ^ 64 }

abbrev slot_after : Option Slot → List FrameBuffer → Option Slot
slot_after o [] = o
slot_after o (f ∷ rest) = slot_after (some (next_slot f o)) rest

slot_after_lem :
    (f : FrameBuffer) (q : ℕ) (frames : List FrameBuffer)
    → q < 2 ^ 64
    → slot_after (some (record { latest = some f; seq = q })) frames
      ≡ some (record { latest = last_frame (some f) frames; seq = (q + length frames) % 2 ^ 64 })
slot_after_lem f q [] h = ground arith
slot_after_lem f q (g ∷ rest) h =
    slot_after_lem g ((q + 1) % 2 ^ 64) rest (omega arith)
    ∙ ap (λ n. some (record { latest = last_frame (some g) rest; seq = n })) (omega arith)

last_frame-some :
    (f : FrameBuffer) (frames : List FrameBuffer)
    → (g : FrameBuffer) × (last_frame (some f) frames ≡ some g)
last_frame-some f [] = (f, refl)
last_frame-some f (g ∷ rest) = last_frame-some g rest

consume-slot_after :
    (o : Option Slot) (frames : List FrameBuffer)
    → (get_or o empty_slot).seq < 2 ^ 64
    → length frames < 2 ^ 64
    → let seq = (get_or o empty_slot).seq in
      consume_slot (slot_after o frames) seq
      ≡ (last_frame none frames, (seq + length frames) % 2 ^ 64)
unfolding consume_slot
consume-slot_after none [] h n = ground arith
consume-slot_after (some slot) [] h n = elim (Option-cases slot.latest) [
  | inl e ↦ rw e (ap (λ k. (none, k)) (omega arith))
  | inr (g, e) ↦ rw e (ground arith)
]
consume-slot_after o (f ∷ rest) h n =
    let seq = (get_or o empty_slot).seq in
    let (g, e) = last_frame-some f rest in
    rw (slot_after_lem f ((seq + 1) % 2 ^ 64) rest (omega arith), e) (ground arith)

consume_slot_again :
    (o : Option Slot) (seen : ℕ) → (consume_slot o (consume_slot o seen).1).0 ≡ none
unfolding consume_slot
consume_slot_again none seen = refl
consume_slot_again (some slot) seen = elim (Option-cases slot.latest) [
  | inl e ↦ rw e refl
  | inr (g, e) ↦ rw e (ground arith)
]

length-insert :
    {V : Type 0} (k : ℕ) (v : V) (m : List (ℕ × V))
    → length (insert k v m) ≡ elim (lookup k m) [ none ↦ length m + 1 | some _ ↦ length m ]
length-insert k v [] = refl
length-insert k v ((i, w) ∷ m) = ground (arith, length-insert k v m)

module _ {F : Type 0} (fl : FloatOps F) where
  abbrev pub publish_all : List Publication → Store F → Store F
  publish_all [] s = s
  publish_all (p ∷ rest) s =
      publish_all rest (publish_frame fl p.owners p.created p.now p.camera (some p.frame) s)

  publish_all-slot :
      (id : ℕ) (published : List Publication) (s : Store F)
      → lookup id (publish_all published s).slots
        ≡ slot_after (lookup id s.slots) (frames_of id published)
  unfolding publish_frame
  publish_all-slot id [] s = refl
  publish_all-slot id (p ∷ rest) s =
      let s' = publish_frame fl p.owners p.created p.now p.camera (some p.frame) s in
      elim (Bool-cases (p.camera == id)) [
        | inl hit ↦
            let same : p.camera ≡ id = (==_iff p.camera id).0 hit in
            publish_all-slot id rest s'
            ∙ rw hit (
                ap (λ o. slot_after o (frames_of id rest))
                  (lookup-insert p.camera id (next_slot p.frame (lookup p.camera s.slots)) s.slots
                    ∙ rw hit (ap (λ k. some (next_slot p.frame (lookup k s.slots))) same)))
        | inr miss ↦
            publish_all-slot id rest s'
            ∙ rw miss (
                ap (λ o. slot_after o (frames_of id rest))
                  (lookup-insert p.camera id (next_slot p.frame (lookup p.camera s.slots)) s.slots
                    ∙ rw miss refl))
      ]

  -- A consumer that has seen all of a camera's frames, and looks again after fewer than 2^64 further
  -- frames of it, among those of other cameras, gets the last of these, or nothing if there was
  -- none; and nothing when it looks again at once.
  pub consume-publish_all :
      (id : ℕ) (published : List Publication) (s : Store F)
      → let seen = (get_or (lookup id s.slots) empty_slot).seq in
        let s' = publish_all published s in
        seen < 2 ^ 64
        → length (frames_of id published) < 2 ^ 64
        → ((consume_if_new id seen s').0 ≡ last_frame none (frames_of id published))
          × ((consume_if_new id (consume_if_new id seen s').1 s').0 ≡ none)
  unfolding consume_if_new
  consume-publish_all id published s h n =
      let seen = (get_or (lookup id s.slots) empty_slot).seq in
      let slot : lookup id (publish_all published s).slots
          ≡ slot_after (lookup id s.slots) (frames_of id published) =
        publish_all-slot id published s in
      let e : consume_if_new id seen (publish_all published s) ≡ _ =
        ap (λ o. consume_slot o seen) slot
        ∙ consume-slot_after (lookup id s.slots) (frames_of id published) h n in
      (ap (λ r. r.0) e, consume_slot_again (lookup id (publish_all published s).slots) seen)

stale_cursor :
    (frames : List FrameBuffer)
    → length frames < 2 ^ 64
    → (consume_slot (slot_after none frames) (length frames)).0 ≡ none
unfolding consume_slot
stale_cursor [] n = refl
stale_cursor (f ∷ rest) n =
    let (g, e) = last_frame-some f rest in
    let count : (1 + length rest) % 2 ^ 64 ≡ suc (length rest) = omega arith in
    rw (slot_after_lem f 1 rest (omega arith), e, count) (ground arith)

module _ {F : Type 0} (fl : FloatOps F) where
  -- A rebuild of the global ids starts the count of each camera's frames again: a consumer that
  -- keeps its cursor over it gets nothing, although the frames are new to it, when as many frames of
  -- the camera as its cursor says were published since.
  pub consume-rebuild_stale :
      (created id : ℕ) (published : List Publication) (s : Store F)
      → length (frames_of id published) < 2 ^ 64
      → (consume_if_new id
          (length (frames_of id published))
          (publish_all fl published (rebuild_global_ids_sorted fl created s))).0
        ≡ none
  unfolding consume_if_new rebuild_global_ids_sorted
  consume-rebuild_stale created id published s n =
      let start = rebuild_global_ids_sorted fl created s in
      ap (λ o. (consume_slot o (length (frames_of id published))).0)
        (publish_all-slot fl id published start)
      ∙ stale_cursor (frames_of id published) n

module _ {F : Type 0} where
  -- What is published as the last capture of one camera is the last capture of that camera, as new
  -- and not yet saved, and of no other; the counts are of the cameras that have one.
  pub last_capture-publish_capture :
      (now id j : ℕ) (frame : FrameBuffer) (s : Store F)
      → let (c, s') = publish_capture now id frame s in
        (last_capture j s' ≡ (if id == j then some c else last_capture j s))
        × (capture_count s'
            ≡ elim (last_capture id s) [ none ↦ capture_count s + 1 | some _ ↦ capture_count s ])
  unfolding publish_capture last_capture capture_count
  last_capture-publish_capture now id j frame s =
      (lookup-insert id j _ s.captures, length-insert id _ s.captures)
