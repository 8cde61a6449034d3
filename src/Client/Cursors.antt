-- ===== src/Client/Cursors.antt =====
-- client/Client.cpp: `poll`, and the cursors that it keeps.
use telefacet.Shared.{
  ℕ, ◌==◌, ==_iff, Bool-cases, Option-cases, List, [], ◌∷◌, Option, none, some, lookup, insert,
  lookup-insert, All, if◌then◌else◌, ◌≡◌, refl, ◌≢◌, ap, sym, subst, ◌∙◌, inl, inr, arith,
}
use telefacet.Frame.{FrameBuffer}
use telefacet.Cameras.{
  CameraInfo, Slot, empty_slot, Store, find, find_in, get_or, consume_if_new, consume_slot,
}
use telefacet.Client.{
  CameraMarkers, no_markers, Cursors, cursor_of, copy_out, with_server, poll_cameras,
}

-- The number of the last frame of a camera, 0 before the first.
abbrev pub seq_of : {F : Type 0} → ℕ → Store F → ℕ
seq_of id s = (get_or (lookup id s.slots) empty_slot).seq

abbrev pub NoRepeat : List CameraInfo → Type 0
NoRepeat [] = Unit {0}
NoRepeat (c ∷ rest) = All (λ d. d.global_id ≢ c.global_id) rest × NoRepeat rest

-- Cursors that agree on every camera.
abbrev pub IsSame : Cursors → Cursors → Type 0
IsSame a b = (j : ℕ) → cursor_of j a ≡ cursor_of j b

pub All-map_lem {ℓ} :
    {A : Type ℓ} (P Q : A → Type 0) (l : List A) → ((a : A) → P a → Q a) → All P l → All Q l
All-map_lem P Q [] f h = tt
All-map_lem P Q (a ∷ rest) f h = (f a h.0, All-map_lem P Q rest f h.1)

pub find_in_All :
    (id : ℕ) (cams : List CameraInfo) (info : CameraInfo) (P : ℕ → Type 0)
    → find_in id cams ≡ some info
    → All (λ c. P c.global_id) cams
    → P id
unfolding find_in
find_in_All id [] info P e h = cc
find_in_All id (c ∷ rest) info P e h = elim (Bool-cases (c.global_id == id)) [
  | inl hit ↦ subst P ((==_iff c.global_id id).0 hit) h.0
  | inr miss ↦ find_in_All id rest info P (ground (arith, e)) h.1
]

cursor_of-insert :
    (id j seen : ℕ) (cursors : Cursors)
    → cursor_of j (insert id seen cursors) ≡ (if j == id then seen else cursor_of j cursors)
cursor_of-insert id j seen cursors = rw lookup-insert ground arith

consume_slot-seen :
    (o : Option Slot) (seen : ℕ)
    → seen ≡ (get_or o empty_slot).seq
    → consume_slot o seen ≡ (none, seen)
unfolding consume_slot
consume_slot-seen none seen h = refl
consume_slot-seen (some slot) seen h = elim (Option-cases slot.latest) [
  | inl e ↦ rw e refl
  | inr (buf, e) ↦ rw e ground (arith, h)
]

consume_slot-new :
    (buf : FrameBuffer) (seq seen : ℕ)
    → seq ≢ seen
    → consume_slot (some (record { latest = some buf; seq = seq })) seen ≡ (some buf, seq)
unfolding consume_slot
consume_slot-new buf seq seen h = ground (arith, h)

module _ {F : Type 0} where
  -- A camera's latest frame has been seen.
  abbrev pub IsSeen : Store F → Cursors → CameraInfo → Type 0
  IsSeen s cursors c = cursor_of c.global_id cursors ≡ seq_of c.global_id s

  consume_if_new-seen :
      (s : Store F) (cursors : Cursors) (c : CameraInfo)
      → IsSeen s cursors c
      → consume_if_new c.global_id (cursor_of c.global_id cursors) s
        ≡ (none, cursor_of c.global_id cursors)
  unfolding consume_if_new
  consume_if_new-seen s cursors c h =
      consume_slot-seen (lookup c.global_id s.slots) (cursor_of c.global_id cursors) h

  consume_if_new-new :
      (s : Store F) (cursors : Cursors) (id : ℕ) (buf : FrameBuffer) (seq : ℕ)
      → lookup id s.slots ≡ some (record { latest = some buf; seq = seq })
      → seq ≢ cursor_of id cursors
      → consume_if_new id (cursor_of id cursors) s ≡ (some buf, seq)
  unfolding consume_if_new
  consume_if_new-new s cursors id buf seq e h =
      rw e (consume_slot-new buf seq (cursor_of id cursors) h)

  All-IsSeen :
      (s : Store F) (a b : Cursors) (cams : List CameraInfo)
      → IsSame b a
      → All (IsSeen s a) cams
      → All (IsSeen s b) cams
  All-IsSeen s a b [] e h = tt
  All-IsSeen s a b (c ∷ rest) e h = (e c.global_id ∙ h.0, All-IsSeen s a b rest e h.1)

  pub poll_cameras-seen :
      (s : Store F) (cursors : Cursors) (cams : List CameraInfo)
      → All (IsSeen s cursors) cams
      → ((poll_cameras s cursors cams).0 ≡ []) × IsSame (poll_cameras s cursors cams).1 cursors
  unfolding poll_cameras
  poll_cameras-seen s cursors [] h = (refl, λ j. refl)
  poll_cameras-seen s cursors (c ∷ rest) h =
      let after = insert c.global_id (cursor_of c.global_id cursors) cursors in
      let same : IsSame after cursors = λ j.
        cursor_of-insert c.global_id j (cursor_of c.global_id cursors) cursors ∙ ground arith in
      let ih = poll_cameras-seen s after rest (All-IsSeen s cursors after rest same h.1) in
      rw (consume_if_new-seen s cursors c h.0) (ih.0, λ j. ih.1 j ∙ same j)

  -- What a caller gets of a camera's frame.
  abbrev pub delivery : Store F → ℕ → FrameBuffer → CameraMarkers
  unfolding find
  delivery s id buf = with_server (find id s) (copy_out id buf no_markers)

  -- Every camera but one is seen.
  abbrev pub AreOthersSeen : Store F → Cursors → ℕ → List CameraInfo → Type 0
  AreOthersSeen s cursors id cams = All (λ c. c.global_id ≢ id → IsSeen s cursors c) cams

  AreOthersSeen-after :
      (s : Store F) (a b : Cursors) (id : ℕ) (cams : List CameraInfo)
      → ((j : ℕ) → j ≢ id → cursor_of j b ≡ cursor_of j a)
      → AreOthersSeen s a id cams
      → AreOthersSeen s b id cams
  AreOthersSeen-after s a b id [] e h = tt
  AreOthersSeen-after s a b id (c ∷ rest) e h =
      (λ n. e c.global_id n ∙ h.0 n, AreOthersSeen-after s a b id rest e h.1)

  others-IsSeen :
      (s : Store F) (cursors : Cursors) (id : ℕ) (cams : List CameraInfo)
      → All (λ d. d.global_id ≢ id) cams
      → AreOthersSeen s cursors id cams
      → All (IsSeen s cursors) cams
  others-IsSeen s cursors id [] d h = tt
  others-IsSeen s cursors id (c ∷ rest) d h = (h.0 d.0, others-IsSeen s cursors id rest d.1 h.1)

  -- The poll gives the frame of one camera, and moves its cursor.
  abbrev pub IsDelivered : Store F → Cursors → ℕ → FrameBuffer → ℕ → List CameraInfo → Type 0
  unfolding poll_cameras find
  IsDelivered s cursors id buf seq cams =
      ((poll_cameras s cursors cams).0 ≡ delivery s id buf ∷ [])
      × ((j : ℕ)
          → cursor_of j (poll_cameras s cursors cams).1
            ≡ (if j == id then seq else cursor_of j cursors))

  poll_cameras-first :
      (s : Store F) (cursors : Cursors) (c : CameraInfo) (rest : List CameraInfo)
      (buf : FrameBuffer) (seq : ℕ)
      → All (λ d. d.global_id ≢ c.global_id) rest
      → lookup c.global_id s.slots ≡ some (record { latest = some buf; seq = seq })
      → seq ≢ cursor_of c.global_id cursors
      → AreOthersSeen s cursors c.global_id rest
      → IsDelivered s cursors c.global_id buf seq (c ∷ rest)
  unfolding poll_cameras find
  poll_cameras-first s cursors c rest buf seq d held n h =
      let after = insert c.global_id seq cursors in
      let moved = λ (j : ℕ). cursor_of-insert c.global_id j seq cursors in
      let others =
        AreOthersSeen-after s cursors after c.global_id rest (λ j m. moved j ∙ ground (arith, m))
          h in
      let ih = poll_cameras-seen s after rest (others-IsSeen s after c.global_id rest d others) in
      rw (consume_if_new-new s cursors c.global_id buf seq held n)
        (ap (◌∷◌ (delivery s c.global_id buf)) ih.0, λ j. ih.1 j ∙ moved j)

  pub poll_cameras-new :
      (s : Store F) (cursors : Cursors) (id : ℕ) (buf : FrameBuffer) (seq : ℕ)
      (cams : List CameraInfo) (info : CameraInfo)
      → NoRepeat cams
      → find_in id cams ≡ some info
      → lookup id s.slots ≡ some (record { latest = some buf; seq = seq })
      → seq ≢ cursor_of id cursors
      → AreOthersSeen s cursors id cams
      → IsDelivered s cursors id buf seq cams
  unfolding poll_cameras find_in find
  poll_cameras-new s cursors id buf seq [] info d e held n h = cc
  poll_cameras-new s cursors id buf seq (c ∷ rest) info d e held n h =
      elim (Bool-cases (c.global_id == id)) [
        | inl hit ↦
            let same : id ≡ c.global_id = sym ((==_iff c.global_id id).0 hit) in
            subst (λ i. IsDelivered s cursors i buf seq (c ∷ rest)) (sym same)
              (poll_cameras-first s cursors c rest buf seq d.0
                (subst (λ i. lookup i s.slots ≡ some (record { latest = some buf; seq = seq })) same
                  held)
                (subst (λ i. seq ≢ cursor_of i cursors) same n)
                (subst (λ i. AreOthersSeen s cursors i rest) same h.1))
        | inr miss ↦
            let other : c.global_id ≢ id = ground arith in
            let here = cursor_of c.global_id cursors in
            let after = insert c.global_id here cursors in
            let stays : IsSame after cursors =
              λ j. cursor_of-insert c.global_id j here cursors ∙ ground arith in
            let ih =
              poll_cameras-new s after id buf seq rest info d.1 (ground (arith, e)) held
                (λ q. n (q ∙ stays id))
                (AreOthersSeen-after s cursors after id rest (λ j m. stays j) h.1) in
            rw (consume_if_new-seen s cursors c (h.0 other))
              (ih.0, λ j. ih.1 j ∙ ap (λ k. if j == id then seq else k) (stays j))
      ]
