-- ===== src/Cameras/Ids.antt =====
-- The roster's global ids: what `find` and `findByServer` give once they are rebuilt.
use telefacet.Shared.{
  ℕ, zero, suc, ◌+◌, ◌<◌, ◌==◌, ◌&&◌, ◌≡◌, refl, ap, sym, subst, ◌∙◌, inl, inr, false, List, [],
  ◌∷◌, ◌++◌, map, Option, some, none, arith, length, get_elem?, All, All-append, Text, codes,
  to_string, Bool-cases, Option-cases,
}
use telefacet.Stats.{FloatOps}
use telefacet.Cameras.{
  CameraInfo, Store, is_camera, keep_first, rediscover, new_camera, before, insert_sorted, sort,
  number, find_in, find_by_server_in, add_camera, find, find_by_server, rebuild_global_ids_sorted,
}

-- No camera of a server stands twice in the roster.
abbrev pub OncePerCamera : List CameraInfo → Type 0
OncePerCamera [] = Unit {0}
OncePerCamera (c ∷ rest) =
    All (λ d. is_camera c.server_index c.local_camera_id d ≡ false) rest × OncePerCamera rest

find_in_above : (i j : ℕ) (cameras : List CameraInfo) → j < i → find_in j (number i cameras) ≡ none
unfolding find_in number
find_in_above i j [] h = refl
find_in_above i j (c ∷ rest) h = ground (arith, find_in_above (i + 1) j rest)

find_in-number :
    (i k : ℕ) (cameras : List CameraInfo)
    → find_in (i + k) (number i cameras) ≡ get_elem? (number i cameras) k
unfolding find_in number
find_in-number i k [] = refl
find_in-number i zero (c ∷ rest) = ground arith
find_in-number i (suc k) (c ∷ rest) = ground (arith, find_in-number (i + 1) k rest)

-- What the search by server returns is that camera, and the search by its id returns it again.
find_by_server_in-number :
    (server local i : ℕ) (cameras : List CameraInfo) (c : CameraInfo)
    → find_by_server_in server local (number i cameras) ≡ some c
    → (find_in c.global_id (number i cameras) ≡ some c)
      × (c.server_index ≡ server)
      × (c.local_camera_id ≡ local)
      × (i < suc c.global_id)
unfolding find_in number find_by_server_in
find_by_server_in-number server local i [] c e = cc
find_by_server_in-number server local i (d ∷ rest) c e =
    ground (arith, find_by_server_in-number server local (i + 1) rest c)

-- The entry as it was discovered, whatever its tentative id and label.
abbrev pub discovered : CameraInfo → CameraInfo
discovered c = record c { global_id = 0; label = [] }

insert_sorted-discovered :
    (c : CameraInfo) (cameras : List CameraInfo)
    → insert_sorted (discovered c) (map discovered cameras)
      ≡ map discovered (insert_sorted c cameras)
unfolding insert_sorted
insert_sorted-discovered c [] = refl
insert_sorted-discovered c (d ∷ rest) = elim (Bool-cases (before d c)) [
  | inl e ↦ rw (e, insert_sorted-discovered c rest)
  | inr e ↦ rw e
]

pub sort-discovered :
    (cameras : List CameraInfo) → sort (map discovered cameras) ≡ map discovered (sort cameras)
unfolding sort
sort-discovered [] = refl
sort-discovered (c ∷ rest) =
    ap (insert_sorted (discovered c)) (sort-discovered rest)
    ∙ insert_sorted-discovered c (sort rest)

pub number-discovered :
    (i : ℕ) (cameras : List CameraInfo) → number i (map discovered cameras) ≡ number i cameras
unfolding number
number-discovered i [] = refl
number-discovered i (c ∷ rest) = rw (number-discovered (i + 1) rest)

-- Two cameras of different keys go in either order.
pub insert_sorted_comm :
    (a b : CameraInfo) (cameras : List CameraInfo)
    → is_camera a.server_index a.local_camera_id b ≡ false
    → insert_sorted a (insert_sorted b cameras) ≡ insert_sorted b (insert_sorted a cameras)
unfolding insert_sorted
insert_sorted_comm a b [] h = ground arith
insert_sorted_comm a b (c ∷ rest) h = ground (arith, insert_sorted_comm a b rest h)

get_elem?-number :
    (i k : ℕ) (cameras : List CameraInfo) (c : CameraInfo)
    → get_elem? (number i cameras) k ≡ some c
    → (c.global_id ≡ i + k) × (c.label ≡ codes "cam" ++ to_string (i + k))
unfolding number
get_elem?-number i k [] c e = cc
get_elem?-number i zero (d ∷ rest) c e =
    let here : i ≡ i + 0 = omega arith in
    subst (λ n. (c.global_id ≡ n) × (c.label ≡ codes "cam" ++ to_string n)) here (ground arith)
get_elem?-number i (suc k) (d ∷ rest) c e =
    let next : i + 1 + k ≡ i + suc k = omega arith in
    subst (λ n. (c.global_id ≡ n) × (c.label ≡ codes "cam" ++ to_string n)) next
      (get_elem?-number (i + 1) k rest c e)

rediscover-keys :
    (P : ℕ → ℕ → Type 0) (server local : ℕ) (sensor : Text) (cameras cameras' : List CameraInfo)
    (id : ℕ)
    → rediscover server local sensor cameras ≡ some (id, cameras')
    → All (λ d. P d.server_index d.local_camera_id) cameras
    → All (λ d. P d.server_index d.local_camera_id) cameras'
unfolding rediscover
rediscover-keys P server local sensor [] cameras' id e h = cc
rediscover-keys P server local sensor (c ∷ rest) cameras' id e h =
    elim (Bool-cases (is_camera server local c)) [
      | inl hit ↦
          let found : record c { sensor_type = sensor } ∷ rest ≡ cameras' = ground (arith, hit) in
          subst (All (λ d. P d.server_index d.local_camera_id)) found h
      | inr miss ↦ elim (Option-cases (rediscover server local sensor rest)) [
        | inl gone ↦ ground (arith, miss, gone)
        | inr ((id', rest'), more) ↦
            let found : c ∷ rest' ≡ cameras' = ground (arith, miss, more) in
            subst (All (λ d. P d.server_index d.local_camera_id)) found
              (h.0, rediscover-keys P server local sensor rest rest' id' more h.1)
      ]
    ]

rediscover-OncePerCamera :
    (server local : ℕ) (sensor : Text) (cameras cameras' : List CameraInfo) (id : ℕ)
    → rediscover server local sensor cameras ≡ some (id, cameras')
    → OncePerCamera cameras
    → OncePerCamera cameras'
unfolding rediscover
rediscover-OncePerCamera server local sensor [] cameras' id e h = cc
rediscover-OncePerCamera server local sensor (c ∷ rest) cameras' id e h =
    elim (Bool-cases (is_camera server local c)) [
      | inl hit ↦
          let found : record c { sensor_type = sensor } ∷ rest ≡ cameras' = ground (arith, hit) in
          subst OncePerCamera found h
      | inr miss ↦ elim (Option-cases (rediscover server local sensor rest)) [
        | inl gone ↦ ground (arith, miss, gone)
        | inr ((id', rest'), more) ↦
            let found : c ∷ rest' ≡ cameras' = ground (arith, miss, more) in
            subst OncePerCamera found (
              rediscover-keys
                  (λ si li. ((si == c.server_index) && (li == c.local_camera_id)) ≡ false) server
                  local sensor rest rest' id' more h.0,
              rediscover-OncePerCamera server local sensor rest rest' id' more h.1,
            )
      ]
    ]

append-OncePerCamera :
    (server local id : ℕ) (sensor : Text) (cameras : List CameraInfo)
    → rediscover server local sensor cameras ≡ none
    → OncePerCamera cameras
    → OncePerCamera (cameras ++ new_camera server local sensor id ∷ [])
unfolding rediscover
append-OncePerCamera server local id sensor [] e h = (tt, tt)
append-OncePerCamera server local id sensor (c ∷ rest) e h =
    elim (Bool-cases (is_camera server local c)) [
      | inl hit ↦ ground (arith, hit)
      | inr miss ↦
          let gone : rediscover server local sensor rest ≡ none =
            absent c (rediscover server local sensor rest) (rw miss at e) in
          (
            All-append _ rest (new_camera server local sensor id ∷ []) h.0
                (ground (arith, miss), tt),
            append-OncePerCamera server local id sensor rest gone h.1,
          )
    ]
  where
    absent : (d : CameraInfo) (r : Option (ℕ × List CameraInfo)) → keep_first d r ≡ none → r ≡ none
    absent d none p = refl
    absent d (some (k, l)) p = cc

module _ {F : Type 0} where
  -- Discovering a camera, for the first time or again, keeps each camera once in the roster.
  pub add_camera-OncePerCamera :
      (server local : ℕ) (sensor : Text) (s : Store F)
      → OncePerCamera s.roster
      → OncePerCamera (add_camera server local sensor s).1.roster
  unfolding add_camera
  add_camera-OncePerCamera server local sensor s h =
      elim (Option-cases (rediscover server local sensor s.roster)) [
        | inl e ↦
            rw (e, add_camera)
              (append-OncePerCamera server local (length s.roster) sensor s.roster e h)
        | inr ((id, cameras'), e) ↦
            rw (e, add_camera)
              (rediscover-OncePerCamera server local sensor s.roster cameras' id e h)
      ]

module _ {F : Type 0} (fl : FloatOps F) (created : ℕ) (s : Store F) where
  -- After a rebuild the global ids are the positions in the roster, 0, 1, 2, …, with the labels cam0,
  -- cam1, cam2, …, and `find` returns the camera at the position that it is asked for.
  pub find-rebuild :
      (id : ℕ)
      → let s' = rebuild_global_ids_sorted fl created s in
        (find id s' ≡ get_elem? s'.roster id)
        × ((c : CameraInfo)
            → find id s' ≡ some c
            → (c.global_id ≡ id) × (c.label ≡ codes "cam" ++ to_string id))
  unfolding rebuild_global_ids_sorted find
  find-rebuild id = (
    here,
    λ c e.
        let base : 0 + id ≡ id = omega arith in
        subst (λ k. (c.global_id ≡ k) × (c.label ≡ codes "cam" ++ to_string k)) base
          (get_elem?-number 0 id (sort s.roster) c (sym here ∙ e)),
  )
    where
      here : find_in id (number 0 (sort s.roster)) ≡ get_elem? (number 0 (sort s.roster)) id
      here =
          let e : 0 + id ≡ id = omega arith in
          subst
            (λ k. find_in k (number 0 (sort s.roster)) ≡ get_elem? (number 0 (sort s.roster)) id) e
            (find_in-number 0 id (sort s.roster))

  -- After a rebuild, a camera that `findByServer` returns is the one asked for, and `find` returns
  -- it again by its global id.
  pub find-find_by_server :
      (server local : ℕ) (c : CameraInfo)
      → let s' = rebuild_global_ids_sorted fl created s in
        find_by_server server local s' ≡ some c
        → (find c.global_id s' ≡ some c) × (c.server_index ≡ server) × (c.local_camera_id ≡ local)
  unfolding rebuild_global_ids_sorted find find_by_server
  find-find_by_server server local c e =
      let (found, same_server, same_local, _) =
        find_by_server_in-number server local 0 (sort s.roster) c e in
      (found, same_server, same_local)
