-- ===== src/Cameras/Order.antt =====
-- The order of the roster: by server, then by camera, whatever order the cameras were found in.
use mathlib.Core.List.{Perm, Permᴰ}
use mathlib.Core.Logic.{∥∥₁_elim}
use telefacet.Shared.{
  ◌<◌, ◌⊎◌, All-Permᴰ, ℕ, ◌+◌, ◌≡◌, refl, ap, sym, ◌∙◌, subst, true, false, List, [], ◌∷◌, map,
  arith, All, Bool-cases, inl, inr,
}
use telefacet.Stats.{FloatOps}
use telefacet.Cameras.{
  CameraInfo, Store, is_camera, before, insert_sorted, sort, number, rebuild_global_ids_sorted,
}
use telefacet.Cameras.Ids.{
  OncePerCamera, discovered, sort-discovered, number-discovered, insert_sorted_comm,
}

is_camera_sym :
    (a b : CameraInfo)
    → is_camera a.server_index a.local_camera_id b ≡ is_camera b.server_index b.local_camera_id a
is_camera_sym a b = ground arith

abbrev Apart : CameraInfo → CameraInfo → Type 0
Apart c d = is_camera c.server_index c.local_camera_id d ≡ false

OncePerCamera-Permᴰ : {l₁ l₂ : List CameraInfo} → Permᴰ l₁ l₂ → OncePerCamera l₁ → OncePerCamera l₂
OncePerCamera-Permᴰ Permᴰ.nil h = h
OncePerCamera-Permᴰ (Permᴰ.cons {b = b} {l₂ = l₂} e p) h =
    (subst (λ c. All (Apart c) l₂) e (All-Permᴰ _ p h.0), OncePerCamera-Permᴰ p h.1)
OncePerCamera-Permᴰ (Permᴰ.swap {a = a} {b = b} {a' = a'} {b' = b'} {l = l} e f) h = (
  (is_camera_swap, subst (λ c. All (Apart c) l) f h.1.0),
  (subst (λ c. All (Apart c) l) e h.0.1, h.1.1),
)
  where
    is_camera_swap : Apart a' b'
    is_camera_swap = subst (λ c. Apart c b') f (subst (Apart b) e (is_camera_sym b a ∙ h.0.0))
OncePerCamera-Permᴰ (Permᴰ.trans p q) h = OncePerCamera-Permᴰ q (OncePerCamera-Permᴰ p h)

sort-Permᴰ : {l₁ l₂ : List CameraInfo} → Permᴰ l₁ l₂ → OncePerCamera l₁ → sort l₁ ≡ sort l₂
unfolding sort
sort-Permᴰ Permᴰ.nil h = refl
sort-Permᴰ (Permᴰ.cons e p) h = rw (e, sort-Permᴰ p h.1)
sort-Permᴰ (Permᴰ.swap {a = a} {b = b} {l = l} e f) h =
    insert_sorted_comm a b (sort l) h.0.0 ∙ rw (e, f)
sort-Permᴰ (Permᴰ.trans p q) h = sort-Permᴰ p h ∙ sort-Permᴰ q (OncePerCamera-Permᴰ p h)

OncePerCamera-discovered :
    (cameras : List CameraInfo) → OncePerCamera cameras → OncePerCamera (map discovered cameras)
OncePerCamera-discovered [] h = tt
OncePerCamera-discovered (c ∷ rest) h = (apart rest h.0, OncePerCamera-discovered rest h.1)
  where
    apart : (l : List CameraInfo) → All (Apart c) l → All (Apart (discovered c)) (map discovered l)
    apart [] a = tt
    apart (d ∷ l) a = (a.0, apart l a.1)

roster_set : IsSet (List CameraInfo)
roster_set = hlevel

-- Each camera is before the ones after it, by the comparison of the code.
abbrev IsRanked : List CameraInfo → Type 0
IsRanked [] = Unit {0}
IsRanked (c ∷ rest) = All (λ d. before c d ≡ true) rest × IsRanked rest

insert_sorted-All :
    (P : CameraInfo → Type 0) (c : CameraInfo) (l : List CameraInfo)
    → P c
    → All P l
    → All P (insert_sorted c l)
unfolding insert_sorted
insert_sorted-All P c [] p h = (p, tt)
insert_sorted-All P c (d ∷ rest) p h = elim (Bool-cases (before d c)) [
  | inl e ↦ rw e (h.0, insert_sorted-All P c rest p h.1)
  | inr e ↦ rw e (p, h)
]

before-All :
    (c d : CameraInfo) (l : List CameraInfo)
    → before c d ≡ true
    → All (λ x. before d x ≡ true) l
    → All (λ x. before c x ≡ true) l
before-All c d [] e h = tt
before-All c d (x ∷ l) e h = (ground (arith, h.0), before-All c d l e h.1)

insert_sorted-IsRanked :
    (c : CameraInfo) (l : List CameraInfo)
    → All (Apart c) l
    → IsRanked l
    → IsRanked (insert_sorted c l)
unfolding insert_sorted
insert_sorted-IsRanked c [] a h = (tt, tt)
insert_sorted-IsRanked c (d ∷ rest) a h = elim (Bool-cases (before d c)) [
  | inl e ↦ rw e (insert_sorted-All _ c rest e h.0, insert_sorted-IsRanked c rest a.1 h.1)
  | inr e ↦
      let first : before c d ≡ true = ground (arith, a.0) in
      rw e ((first, before-All c d rest first h.0), h)
]

sort-All : (P : CameraInfo → Type 0) (l : List CameraInfo) → All P l → All P (sort l)
unfolding sort
sort-All P [] h = tt
sort-All P (c ∷ rest) h = insert_sorted-All P c (sort rest) h.0 (sort-All P rest h.1)

sort-IsRanked : (l : List CameraInfo) → OncePerCamera l → IsRanked (sort l)
unfolding sort
sort-IsRanked [] h = tt
sort-IsRanked (c ∷ rest) h =
    insert_sorted-IsRanked c (sort rest) (sort-All (Apart c) rest h.0) (sort-IsRanked rest h.1)

number-All :
    (c : CameraInfo) (i : ℕ) (l : List CameraInfo)
    → All (λ d. before c d ≡ true) l
    → All (λ d. before c d ≡ true) (number i l)
unfolding number
number-All c i [] h = tt
number-All c i (d ∷ rest) h = (h.0, number-All c (i + 1) rest h.1)

number-IsRanked : (i : ℕ) (l : List CameraInfo) → IsRanked l → IsRanked (number i l)
unfolding number
number-IsRanked i [] h = tt
number-IsRanked i (c ∷ rest) h = (number-All c (i + 1) rest h.0, number-IsRanked (i + 1) rest h.1)

-- A lower server comes first, and of one server the lower camera.
abbrev ComesFirst : CameraInfo → CameraInfo → Type 0
ComesFirst c d =
    (c.server_index < d.server_index)
    ⊎ ((c.server_index ≡ d.server_index) × (c.local_camera_id < d.local_camera_id))

-- Each camera comes ahead of all after it.
abbrev pub Ordered : List CameraInfo → Type 0
Ordered [] = Unit {0}
Ordered (c ∷ rest) = All (ComesFirst c) rest × Ordered rest

before-ComesFirst : (c d : CameraInfo) → before c d ≡ true → ComesFirst c d
before-ComesFirst c d e = ground (arith, e)

IsRanked-Ordered : (l : List CameraInfo) → IsRanked l → Ordered l
IsRanked-Ordered [] h = tt
IsRanked-Ordered (c ∷ rest) h = (ahead rest h.0, IsRanked-Ordered rest h.1)
  where
    ahead : (l : List CameraInfo) → All (λ d. before c d ≡ true) l → All (ComesFirst c) l
    ahead [] a = tt
    ahead (d ∷ l) a = (before-ComesFirst c d a.0, ahead l a.1)

module _ {F : Type 0} (fl : FloatOps F) where
  -- With each camera once in the roster, rebuilding puts it in the order of the server's index and,
  -- within a server, of the camera's id there: each camera comes ahead of all after it.
  pub rebuild-Ordered :
      (created : ℕ) (s : Store F)
      → OncePerCamera s.roster
      → Ordered (rebuild_global_ids_sorted fl created s).roster
  unfolding rebuild_global_ids_sorted
  rebuild-Ordered created s h =
      IsRanked-Ordered (number 0 (sort s.roster))
        (number-IsRanked 0 (sort s.roster) (sort-IsRanked s.roster h))

  -- Two stores that discovered the same cameras, in whatever order, have the same roster once it is
  -- rebuilt: ids and labels included, if each camera stands in it once.
  pub rebuild_order :
      (created later : ℕ) (s t : Store F)
      → OncePerCamera s.roster
      → Perm (map discovered s.roster) (map discovered t.roster)
      → (rebuild_global_ids_sorted fl created s).roster
        ≡ (rebuild_global_ids_sorted fl later t).roster
  unfolding rebuild_global_ids_sorted
  rebuild_order created later s t h p = ∥∥₁_elim p (roster_set _ _) λ q.
      sym (number-discovered 0 (sort s.roster))
      ∙ ap (number 0) (
          sym (sort-discovered s.roster)
          ∙ sort-Permᴰ q (OncePerCamera-discovered s.roster h)
          ∙ sort-discovered t.roster)
      ∙ number-discovered 0 (sort t.roster)
