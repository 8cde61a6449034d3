-- ===== src/Commands/Ranges.antt =====
-- net/WebSocketClient.cpp: the fields of a capture request are in the ranges that the server accepts.
use mathlib.Core.Option.{some-injective}
use telefacet.Shared.{
  ℕ, ◌≤◌, ltb, Bool, true, false, List, [], ◌∷◌, Option, none, some, Text, codes, ℤ, pos, negsuc,
  same_text, if◌then◌else◌, Bool-cases, ◌≡◌, refl, sym, subst, ◌∙◌, inl, inr, arith,
}
use telefacet.Json.{JsonMake}
use telefacet.Client.{StackRequest, is_positive_int}
use telefacet.Commands.{
  clamp_int, min_int, clamp_double, one, sixty_four, keep_if, set_maybe, command_named,
  trigger_json, stack_json,
}

-- What reading back an object gives, as nlohmann::json documents it: a field that was set is there,
-- and the others are as they were.
pub record JsonLaws {J : Type 0} (make : JsonMake J) : Type 0 where
  pub field : Text → J → Option J
  pub field-set :
      (key other : Text) (v j : J)
      → field key (make.set other v j) ≡ (if same_text key other then some v else field key j)
  pub field-object :
      (key other : Text) (v : J) (rest : List (Text × J))
      → same_text key other ≡ false
      → field key (make.object ((other, v) ∷ rest)) ≡ field key (make.object rest)
  pub field-empty : (key : Text) → field key (make.object []) ≡ none

module _ {J : Type 0} (make : JsonMake J) (laws : JsonLaws make) where
  -- A field, if it is there, is as `P` says.
  abbrev pub FieldIs : (J → Type 0) → Text → J → Type 0
  FieldIs P key j = (v : J) → laws.field key j ≡ some v → P v

  -- A number from `lo` to `hi`.
  abbrev pub IsWithin : ℕ → ℕ → J → Type 0
  IsWithin lo hi v = (n : ℕ) × (v ≡ make.int (pos n)) × (lo ≤ n) × (n ≤ hi)

  only_named :
      (P : J → Type 0) (key name : Text)
      → same_text key (codes "cmd") ≡ false
      → FieldIs P key (command_named make name [])
  only_named P key name d v h =
      let gone =
        sym (laws.field-object key (codes "cmd") (make.text name) [] d ∙ laws.field-empty key) in
      absurd (none-some v (gone ∙ h))
    where
      none-some : (w : J) → ¬ (Path (Option J) none (some w))
      none-some w e = cc

  set_other :
      {A : Type 0} (P : J → Type 0) (key other : Text) (value : A → J) (o : Option A) (j : J)
      → same_text key other ≡ false
      → FieldIs P key j
      → FieldIs P key (set_maybe make.set other value o j)
  set_other P key other value none j d h = h
  set_other P key other value (some a) j d h =
      λ v e. h v (sym (laws.field-set key other (value a) j ∙ rw d refl) ∙ e)

  set_same :
      {A : Type 0} (P : J → Type 0) (key : Text) (value : A → J) (o : Option A) (j : J)
      → same_text key key ≡ true
      → ((a : A) → o ≡ some a → P (value a))
      → FieldIs P key j
      → FieldIs P key (set_maybe make.set key value o j)
  set_same P key value none j d r h = h
  set_same P key value (some a) j d r h = λ v e.
      let found : some (value a) ≡ some v =
        sym (laws.field-set key key (value a) j ∙ rw d refl) ∙ e in
      subst P (some-injective (value a) v found) (r a refl)

  clamp_int-IsWithin : (lo hi : ℕ) (z : ℤ) → lo ≤ hi → IsWithin lo hi (make.int (clamp_int lo hi z))
  clamp_int-IsWithin lo hi (pos n) h = (
    if ltb n lo then lo else if ltb hi n then hi else n,
    refl,
    ground (arith, h),
    ground (arith, h),
  )
  clamp_int-IsWithin lo hi (negsuc n) h = (lo, refl, omega arith, h)

  min_int-IsWithin :
      (hi : ℕ) (o : Option ℤ) (z : ℤ)
      → 1 ≤ hi
      → keep_if is_positive_int o ≡ some z
      → IsWithin 1 hi (make.int (min_int hi z))
  min_int-IsWithin hi none z h e = cc
  min_int-IsWithin hi (some (pos n)) z h e = elim (Bool-cases (ltb 0 n)) [
    | inl p ↦
        let same : some (pos n) ≡ some z = sym (rw p refl) ∙ e in
        subst (λ k. IsWithin 1 hi (make.int (min_int hi k))) (some-injective (pos n) z same)
          (if ltb hi n then hi else n, refl, ground (arith, p, h), ground (arith, p, h))
    | inr p ↦ absurd (nothing (sym (rw p refl) ∙ e))
  ]
    where
      nothing : ¬ (Path (Option ℤ) none (some z))
      nothing q = cc
  min_int-IsWithin hi (some (negsuc n)) z h e = cc

  -- A double from 1.0 to 64.0.
  abbrev pub IsClamped : (ℕ → ℕ → Bool) → J → Type 0
  IsClamped less v =
      (g : ℕ) × (v ≡ make.double g) × (less g one ≡ false) × (less sixty_four g ≡ false)

  clamp_double-IsClamped :
      (less : ℕ → ℕ → Bool) (g : ℕ)
      → ((x : ℕ) → less x x ≡ false)
      → less sixty_four one ≡ false
      → IsClamped less (make.double (clamp_double less one sixty_four g))
  clamp_double-IsClamped less g same apart = elim (Bool-cases (less g one)) [
    | inl low ↦ rw low (one, refl, same one, apart)
    | inr enough ↦ rw enough (elim (Bool-cases (less sixty_four g)) [
      | inl high ↦ rw high (sixty_four, refl, apart, same sixty_four)
      | inr well ↦ rw well (g, refl, enough, well)
    ])
  ]

  -- A stack request, field by field.
  abbrev stack_start : StackRequest → J
  stack_start req =
      set_maybe make.set (codes "camera_id") make.unsigned req.camera_id
        (command_named make (codes "stack_capture") [])

  abbrev with_frames : StackRequest → J
  with_frames req =
      set_maybe make.set (codes "num_frames") (λ n. make.int (clamp_int 1 1024 n)) req.num_frames
        (stack_start req)

  abbrev with_exposure : StackRequest → J
  with_exposure req =
      set_maybe make.set (codes "exposure_time") (λ n. make.int (min_int 10000000 n))
        (keep_if is_positive_int req.exposure_time_us) (with_frames req)

  abbrev with_gain : (ℕ → ℕ → Bool) → StackRequest → J
  with_gain less req =
      set_maybe make.set (codes "analogue_gain")
        (λ g. make.double (clamp_double less one sixty_four g)) (keep_if (less 0) req.analogue_gain)
        (with_exposure req)

  abbrev with_skip : (ℕ → ℕ → Bool) → StackRequest → J
  with_skip less req =
      set_maybe make.set (codes "skip_frames") (λ n. make.int (clamp_int 0 100 n)) req.skip_frames
        (with_gain less req)

  start-FieldIs :
      (P : J → Type 0) (key : Text) (req : StackRequest)
      → same_text key (codes "cmd") ≡ false
      → same_text key (codes "camera_id") ≡ false
      → FieldIs P key (stack_start req)
  start-FieldIs P key req c d =
      set_other P key (codes "camera_id") make.unsigned req.camera_id
        (command_named make (codes "stack_capture") []) d
        (only_named P key (codes "stack_capture") c)

  past_exposure :
      (req : StackRequest) (P : J → Type 0) (key : Text)
      → same_text key (codes "exposure_time") ≡ false
      → FieldIs P key (with_frames req)
      → FieldIs P key (with_exposure req)
  past_exposure req P key =
      set_other P key (codes "exposure_time") (λ n. make.int (min_int 10000000 n))
        (keep_if is_positive_int req.exposure_time_us) (with_frames req)

  past_gain :
      (less : ℕ → ℕ → Bool) (req : StackRequest) (P : J → Type 0) (key : Text)
      → same_text key (codes "analogue_gain") ≡ false
      → FieldIs P key (with_exposure req)
      → FieldIs P key (with_gain less req)
  past_gain less req P key =
      set_other P key (codes "analogue_gain")
        (λ g. make.double (clamp_double less one sixty_four g)) (keep_if (less 0) req.analogue_gain)
        (with_exposure req)

  past_skip :
      (less : ℕ → ℕ → Bool) (req : StackRequest) (P : J → Type 0) (key : Text)
      → same_text key (codes "skip_frames") ≡ false
      → FieldIs P key (with_gain less req)
      → FieldIs P key (with_skip less req)
  past_skip less req P key =
      set_other P key (codes "skip_frames") (λ n. make.int (clamp_int 0 100 n)) req.skip_frames
        (with_gain less req)

  past_image :
      (less : ℕ → ℕ → Bool) (req : StackRequest) (P : J → Type 0) (key : Text)
      → same_text key (codes "send_image") ≡ false
      → FieldIs P key (with_skip less req)
      → FieldIs P key (stack_json make less req)
  unfolding stack_json
  past_image less req P key =
      set_other P key (codes "send_image") make.bool req.send_image (with_skip less req)

  -- The fields that come before, past the field of a lemma below.
  before_exposure :
      (P : J → Type 0) (key : Text) (req : StackRequest)
      → same_text key (codes "cmd") ≡ false
      → same_text key (codes "camera_id") ≡ false
      → same_text key (codes "num_frames") ≡ false
      → FieldIs P key (with_frames req)
  before_exposure P key req c d f =
      set_other P key (codes "num_frames") (λ n. make.int (clamp_int 1 1024 n)) req.num_frames
        (stack_start req) f (start-FieldIs P key req c d)

  num_frames_in_range :
      (less : ℕ → ℕ → Bool) (req : StackRequest)
      → FieldIs (IsWithin 1 1024) (codes "num_frames") (stack_json make less req)
  num_frames_in_range less req =
      let key = codes "num_frames" in
      let here : FieldIs (IsWithin 1 1024) key (with_frames req) =
        set_same (IsWithin 1 1024) key (λ n. make.int (clamp_int 1 1024 n)) req.num_frames
          (stack_start req) refl (λ z e. clamp_int-IsWithin 1 1024 z (omega arith))
          (start-FieldIs (IsWithin 1 1024) key req refl refl) in
      past_image less req (IsWithin 1 1024) key refl (
        past_skip less req (IsWithin 1 1024) key refl (
          past_gain less req (IsWithin 1 1024) key refl
            (past_exposure req (IsWithin 1 1024) key refl here)))

  exposure_in_range :
      (less : ℕ → ℕ → Bool) (req : StackRequest)
      → FieldIs (IsWithin 1 10000000) (codes "exposure_time") (stack_json make less req)
  exposure_in_range less req =
      let key = codes "exposure_time" in
      let P = IsWithin 1 10000000 in
      let here : FieldIs P key (with_exposure req) =
        set_same P key (λ n. make.int (min_int 10000000 n))
          (keep_if is_positive_int req.exposure_time_us) (with_frames req) refl
          (λ z e. min_int-IsWithin 10000000 req.exposure_time_us z (omega arith) e)
          (before_exposure P key req refl refl refl) in
      past_image less req P key refl
        (past_skip less req P key refl (past_gain less req P key refl here))

  gain_in_range :
      (less : ℕ → ℕ → Bool)
      → ((x : ℕ) → less x x ≡ false)
      → less sixty_four one ≡ false
      → (req : StackRequest)
      → FieldIs (IsClamped less) (codes "analogue_gain") (stack_json make less req)
  gain_in_range less same apart req =
      let key = codes "analogue_gain" in
      let P = IsClamped less in
      let here : FieldIs P key (with_gain less req) =
        set_same P key (λ g. make.double (clamp_double less one sixty_four g))
          (keep_if (less 0) req.analogue_gain) (with_exposure req) refl
          (λ g e. clamp_double-IsClamped less g same apart)
          (past_exposure req P key refl (before_exposure P key req refl refl refl)) in
      past_image less req P key refl (past_skip less req P key refl here)

  skip_in_range :
      (less : ℕ → ℕ → Bool) (req : StackRequest)
      → FieldIs (IsWithin 0 100) (codes "skip_frames") (stack_json make less req)
  skip_in_range less req =
      let key = codes "skip_frames" in
      let P = IsWithin 0 100 in
      past_image less req P key refl (
        set_same P key (λ n. make.int (clamp_int 0 100 n)) req.skip_frames (with_gain less req) refl
          (λ z e. clamp_int-IsWithin 0 100 z (omega arith))
          (past_gain less req P key refl
            (past_exposure req P key refl (before_exposure P key req refl refl refl))))

  trigger_skip_in_range :
      (less : ℕ → ℕ → Bool) (camera : Option ℕ) (skip : Option ℤ) (image : Option Bool)
      → FieldIs (IsWithin 1 100) (codes "skip_frames") (trigger_json make less camera skip image)
  unfolding trigger_json
  trigger_skip_in_range less camera skip image =
      let key = codes "skip_frames" in
      let P = IsWithin 1 100 in
      let start = command_named make (codes "trigger_capture") [] in
      let with_camera = set_maybe make.set (codes "camera_id") make.unsigned camera start in
      let counted =
        set_maybe make.set key (λ n. make.int (min_int 100 n)) (keep_if is_positive_int skip)
          with_camera in
      set_other P key (codes "send_image") make.bool image counted refl (
        set_same P key (λ n. make.int (min_int 100 n)) (keep_if is_positive_int skip) with_camera
          refl (λ z e. min_int-IsWithin 100 skip z (omega arith) e)
          (set_other P key (codes "camera_id") make.unsigned camera start refl
            (only_named P key (codes "trigger_capture") refl)))

  -- For any request, the command that is sent holds for each of these fields, if it holds the field
  -- at all, a value in the range that the server accepts: 1 to 1024 frames of a stack, 1 to 10000000
  -- microseconds of exposure, a gain of 1.0 to 64.0, and 0 to 100 frames to skip, 1 to 100 for a
  -- trigger. The order of doubles has only to put no number below itself, and 64.0 not below 1.0.
  pub requests_in_range :
      (less : ℕ → ℕ → Bool)
      → ((x : ℕ) → less x x ≡ false)
      → less sixty_four one ≡ false
      → (req : StackRequest) (camera : Option ℕ) (skip : Option ℤ) (image : Option Bool)
      → FieldIs (IsWithin 1 1024) (codes "num_frames") (stack_json make less req)
        × (FieldIs (IsWithin 1 10000000) (codes "exposure_time") (stack_json make less req)
            × (FieldIs (IsClamped less) (codes "analogue_gain") (stack_json make less req)
                × (FieldIs (IsWithin 0 100) (codes "skip_frames") (stack_json make less req)
                    × FieldIs
                        (IsWithin 1 100)
                        (codes "skip_frames")
                        (trigger_json make less camera skip image))))
  requests_in_range less same apart req camera skip image = (
    num_frames_in_range less req,
    (
      exposure_in_range less req,
      (
        gain_in_range less same apart req,
        (skip_in_range less req, trigger_skip_in_range less camera skip image),
      ),
    ),
  )
