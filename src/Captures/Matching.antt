-- ===== src/Captures/Matching.antt =====
-- Which entry of a capture's result goes with each of its frames.
use mathlib.Core.List.{Perm, Permᴰ, map-map}
use mathlib.Core.List.Perm
use mathlib.Core.Logic.{∥∥₁_elim}
use native.Mathlib.Nat.{ℕ_set}
use telefacet.Shared.{
  ℕ, suc, ◌+◌, ◌-◌, ◌%◌, ◌^◌, ◌≤◌, ◌<◌, ◌==◌, ltb, ◌≡◌, ◌≢◌, refl, ap, sym, subst, ◌∙◌, true, false,
  ==_iff, List, [], ◌∷◌, map, Option, some, ◌>>=◌, arith, length, All, codes, if◌then◌else◌,
}
use telefacet.Frame.{FrameBuffer}
use telefacet.Json.{JsonOps}
use telefacet.Captures.{
  CaptureKind, trigger, stack, Captures, is_kind, kind_of_frame, find_entry, is_expected,
  match_frame,
}

-- A frame of the capture: its kind, and the low 16 bits of its id.
abbrev pub IsFrameOf : CaptureKind → ℕ → FrameBuffer → Type 0
IsFrameOf kind id f = (kind_of_frame f ≡ kind) × (f.capture_id ≡ id % 2 ^ 16)

pub is_kind_self : (k : CaptureKind) → is_kind k k ≡ true
is_kind_self trigger = refl
is_kind_self stack = refl

==_self : (n : ℕ) → (n == n) ≡ true
==_self n = (==_iff n n).1 refl

length-Permᴰ : {A : Type 0} {l₁ l₂ : List A} → Permᴰ l₁ l₂ → length l₁ ≡ length l₂
length-Permᴰ Permᴰ.nil = refl
length-Permᴰ (Permᴰ.cons e p) = ap suc (length-Permᴰ p)
length-Permᴰ (Permᴰ.swap {l = l} e f) = refl
length-Permᴰ (Permᴰ.trans p q) = length-Permᴰ p ∙ length-Permᴰ q

length-map : {A B : Type 0} (f : A → B) (l : List A) → length (map f l) ≡ length l
length-map f [] = refl
length-map f (a ∷ rest) = ap suc (length-map f rest)

module _ {J : Type 0} (json : JsonOps J) where
  abbrev pub match_all : List FrameBuffer → Captures J → Option (List J × Captures J)
  match_all [] c = some ([], c)
  match_all (f ∷ rest) c = do
    (e, c') ← match_frame json f c
    (es, c'') ← match_all rest c'
    some (e ∷ es, c'')

  module _ (camera_of : J → ℕ) where
    -- `camera_of` is the `camera_id` of each entry, which can be read.
    abbrev pub Readable : List J → Type 0
    Readable entries =
        All (λ e. json.value_unsigned (codes "camera_id") (2 ^ 32 - 1) e ≡ some (camera_of e))
          entries

    -- No two entries are of one camera.
    abbrev pub OfDistinctCameras : List J → Type 0
    OfDistinctCameras [] = Unit {0}
    OfDistinctCameras (e ∷ rest) =
        All (λ d. camera_of d ≢ camera_of e) rest × OfDistinctCameras rest

    abbrev pub entry_of : List J → ℕ → J
    entry_of [] camera = json.null
    entry_of (e ∷ rest) camera =
        let later = entry_of rest camera in if camera_of e == camera then e else later

    pub find_entry-entry_of :
        (camera : ℕ) (entries : List J)
        → Readable entries
        → find_entry json camera entries ≡ some (entry_of entries camera)
    unfolding find_entry
    find_entry-entry_of camera [] h = refl
    find_entry-entry_of camera (e ∷ rest) h =
        rw (h.0, find_entry-entry_of camera rest h.1) (ground arith)

    match_frame-entry_of :
        (f : FrameBuffer) (c : Captures J)
        → c.capture_acked ≡ true
        → Readable c.capture_entries
        → IsFrameOf c.capture_kind c.capture_id f
        → c.capture_received < length c.capture_entries
        → match_frame json f c
          ≡ some (
            entry_of c.capture_entries f.camera_id,
            record c { capture_received = c.capture_received + 1 },
          )
    unfolding match_frame is_expected
    match_frame-entry_of f c a r h n =
        let room : ltb c.capture_received (length c.capture_entries) ≡ true = ground arith in
        rw
          (
            a,
            h.0,
            is_kind_self c.capture_kind,
            h.1,
            ==_self (c.capture_id % 2 ^ 16),
            room,
            find_entry-entry_of f.camera_id c.capture_entries r,
          )
          refl

    pub match_all_lem :
        (frames : List FrameBuffer) (c : Captures J)
        → c.capture_acked ≡ true
        → Readable c.capture_entries
        → All (IsFrameOf c.capture_kind c.capture_id) frames
        → c.capture_received + length frames ≤ length c.capture_entries
        → match_all frames c
          ≡ some (
            map (λ f. entry_of c.capture_entries f.camera_id) frames,
            record c { capture_received = c.capture_received + length frames },
          )
    match_all_lem [] c a r h n =
        ap (λ k. some ([], record c { capture_received = k })) (omega arith)
    match_all_lem (f ∷ rest) c a r h n =
        rw
          (
            match_frame-entry_of f c a r h.0 (omega arith),
            match_all_lem rest (record c { capture_received = c.capture_received + 1 }) a r h.1
                (omega arith),
          )
          (ap
            (λ k. some (
              map (λ g. entry_of c.capture_entries g.camera_id) (f ∷ rest),
              record c { capture_received = k },
            ))
            (omega arith))

    entry_of_others :
        (e : J) (ids : List J)
        → All (λ d. camera_of d ≢ camera_of e) ids
        → (entries : List J)
        → map (λ d. entry_of (e ∷ entries) (camera_of d)) ids
          ≡ map (λ d. entry_of entries (camera_of d)) ids
    entry_of_others e [] h entries = refl
    entry_of_others e (d ∷ rest) h entries =
        let other : (camera_of e == camera_of d) ≡ false = ground (arith, h.0) in
        rw (other, entry_of_others e rest h.1 entries) refl

    entry_of_all :
        (entries : List J)
        → OfDistinctCameras entries
        → map (λ e. entry_of entries (camera_of e)) entries ≡ entries
    entry_of_all [] h = refl
    entry_of_all (e ∷ rest) h =
        rw (==_self (camera_of e))
          (ap (λ l. e ∷ l) (entry_of_others e rest h.0 rest ∙ entry_of_all rest h.1))

    -- When the frames of a capture come from the cameras of its entries, one from each, in any
    -- order, each entry goes with exactly one of the frames.
    pub match_all-Perm :
        (frames : List FrameBuffer) (c : Captures J)
        → c.capture_acked ≡ true
        → c.capture_received ≡ 0
        → Readable c.capture_entries
        → OfDistinctCameras c.capture_entries
        → All (IsFrameOf c.capture_kind c.capture_id) frames
        → Perm (map (λ f. f.camera_id) frames) (map camera_of c.capture_entries)
        → (es : List J) × (c' : Captures J) × (match_all frames c ≡ some (es, c'))
          × Perm es c.capture_entries
    match_all-Perm frames c a none_yet r distinct h p = (
      map (λ f. entry_of c.capture_entries f.camera_id) frames,
      record c { capture_received = c.capture_received + length frames },
      match_all_lem frames c a r h fits,
      subst (λ l. Perm l c.capture_entries)
          (map-map (entry_of c.capture_entries) (λ f. f.camera_id) frames)
          (subst (Perm (map (entry_of c.capture_entries) (map (λ f. f.camera_id) frames)))
            (map-map (entry_of c.capture_entries) camera_of c.capture_entries
              ∙ entry_of_all c.capture_entries distinct)
            (Perm.map (entry_of c.capture_entries) p)),
    )
      where
        same_count :
            length (map (λ f. f.camera_id) frames) ≡ length (map camera_of c.capture_entries)
        same_count = ∥∥₁_elim p (ℕ_set _ _) length-Permᴰ

        fits : c.capture_received + length frames ≤ length c.capture_entries
        fits =
            let e : length frames ≡ length c.capture_entries =
              sym (length-map (λ f. f.camera_id) frames)
              ∙ same_count
              ∙ length-map camera_of c.capture_entries in
            omega arith
