-- ===== src/Manager/Roster.antt =====
-- Which cameras the roster has after a discovery.
use telefacet.Shared.{
  ℕ, ◌+◌, ◌==◌, ◌||◌, ◌≡◌, refl, ap, sym, ◌∙◌, inl, inr, Bool, true, false, Bool-cases, ==_iff,
  Option-cases, List, [], ◌∷◌, ◌++◌, some, arith, length, Text,
}
use telefacet.Stats.{FloatOps}
use telefacet.Messages.{DiscoveredCamera}
use telefacet.Cameras.{
  CameraInfo, Store, is_camera, rediscover, new_camera, before, insert_sorted, sort, number,
  find_by_server_in, find_by_server, add_camera, rebuild_global_ids_sorted,
}
use telefacet.Manager.{add_cameras, on_discovery}

abbrev pub has_camera : ℕ → ℕ → List CameraInfo → Bool
has_camera server local [] = false
has_camera server local (c ∷ rest) = is_camera server local c || has_camera server local rest

abbrev pub announces : ℕ → List DiscoveredCamera → Bool
announces local [] = false
announces local (dc ∷ rest) = dc.id == local || announces local rest

module _ (server local : ℕ) where
  has_camera-insert_sorted :
      (c : CameraInfo) (l : List CameraInfo)
      → has_camera server local (insert_sorted c l)
        ≡ (is_camera server local c || has_camera server local l)
  unfolding insert_sorted
  has_camera-insert_sorted c [] = refl
  has_camera-insert_sorted c (d ∷ rest) = elim (Bool-cases (before d c)) [
    | inl e ↦ rw (e, has_camera-insert_sorted c rest) (ground arith)
    | inr e ↦ rw e refl
  ]

  has_camera-sort :
      (l : List CameraInfo) → has_camera server local (sort l) ≡ has_camera server local l
  unfolding sort
  has_camera-sort [] = refl
  has_camera-sort (c ∷ rest) =
      has_camera-insert_sorted c (sort rest)
      ∙ ap (λ b. is_camera server local c || b) (has_camera-sort rest)

  has_camera-number :
      (i : ℕ) (l : List CameraInfo)
      → has_camera server local (number i l) ≡ has_camera server local l
  unfolding number
  has_camera-number i [] = refl
  has_camera-number i (c ∷ rest) =
      ap (λ b. is_camera server local c || b) (has_camera-number (i + 1) rest)

  has_camera-append :
      (l : List CameraInfo) (c : CameraInfo)
      → has_camera server local (l ++ c ∷ [])
        ≡ (has_camera server local l || is_camera server local c)
  has_camera-append [] c = ground arith
  has_camera-append (d ∷ rest) c = rw (has_camera-append rest c) (ground arith)

  has_camera-find :
      (l : List CameraInfo)
      → has_camera server local l ≡ true
      → (c : CameraInfo) × (find_by_server_in server local l ≡ some c)
  unfolding find_by_server_in
  has_camera-find [] h = cc
  has_camera-find (c ∷ rest) h = elim (Bool-cases (is_camera server local c)) [
    | inl hit ↦ (c, rw hit refl)
    | inr miss ↦ let (d, e) = has_camera-find rest (rw miss at h) in (d, rw miss e)
  ]

  -- The cameras of a roster in which one was discovered again.
  has_camera-rediscover :
      (si li : ℕ) (sensor : Text) (l l' : List CameraInfo) (id : ℕ)
      → rediscover si li sensor l ≡ some (id, l')
      → has_camera server local l' ≡ has_camera server local l
  unfolding rediscover
  has_camera-rediscover si li sensor [] l' id e = cc
  has_camera-rediscover si li sensor (c ∷ rest) l' id e = elim (Bool-cases (is_camera si li c)) [
    | inl hit ↦
        let found : record c { sensor_type = sensor } ∷ rest ≡ l' = ground (arith, hit) in
        ap (has_camera server local) (sym found)
    | inr miss ↦ elim (Option-cases (rediscover si li sensor rest)) [
      | inl gone ↦ ground (arith, miss, gone)
      | inr ((id', rest'), more) ↦
          let found : c ∷ rest' ≡ l' = ground (arith, miss, more) in
          ap (has_camera server local) (sym found)
          ∙ ap (λ b. is_camera server local c || b)
              (has_camera-rediscover si li sensor rest rest' id' more)
    ]
  ]

  rediscovered :
      (sensor : Text) (l l' : List CameraInfo) (id : ℕ)
      → rediscover server local sensor l ≡ some (id, l')
      → has_camera server local l ≡ true
  unfolding rediscover
  rediscovered sensor [] l' id e = cc
  rediscovered sensor (c ∷ rest) l' id e = elim (Bool-cases (is_camera server local c)) [
    | inl hit ↦ rw hit refl
    | inr miss ↦ elim (Option-cases (rediscover server local sensor rest)) [
      | inl gone ↦ ground (arith, miss, gone)
      | inr ((id', rest'), more) ↦ rw (miss, rediscovered sensor rest rest' id' more) refl
    ]
  ]

  module _ {F : Type 0} where
    has_camera-add_camera :
        (si li : ℕ) (sensor : Text) (s : Store F)
        → has_camera server local s.roster ≡ true
        → has_camera server local (add_camera si li sensor s).1.roster ≡ true
    unfolding add_camera
    has_camera-add_camera si li sensor s h =
        elim (Option-cases (rediscover si li sensor s.roster)) [
          | inl e ↦
              rw (e, add_camera)
                (has_camera-append s.roster (new_camera si li sensor (length s.roster)) ∙ rw h refl)
          | inr ((id, l'), e) ↦
              rw (e, add_camera) (has_camera-rediscover si li sensor s.roster l' id e ∙ h)
        ]

    added :
        (sensor : Text) (s : Store F)
        → has_camera server local (add_camera server local sensor s).1.roster ≡ true
    unfolding add_camera
    added sensor s = elim (Option-cases (rediscover server local sensor s.roster)) [
      | inl e ↦
          rw (e, add_camera)
            (has_camera-append s.roster (new_camera server local sensor (length s.roster))
              ∙ ground arith)
      | inr ((id, l'), e) ↦
          rw (e, add_camera)
            (has_camera-rediscover server local sensor s.roster l' id e
              ∙ rediscovered sensor s.roster l' id e)
    ]

    add_cameras_keep :
        (si : ℕ) (cams : List DiscoveredCamera) (s : Store F)
        → has_camera server local s.roster ≡ true
        → has_camera server local (add_cameras si cams s).roster ≡ true
    unfolding add_cameras
    add_cameras_keep si [] s h = h
    add_cameras_keep si (dc ∷ rest) s h =
        add_cameras_keep si rest _ (has_camera-add_camera si dc.id dc.sensor_type s h)

module _ {F : Type 0} (server local : ℕ) where
  has_camera-add_cameras :
      (cams : List DiscoveredCamera) (s : Store F)
      → announces local cams ≡ true
      → has_camera server local (add_cameras server cams s).roster ≡ true
  unfolding add_cameras
  has_camera-add_cameras [] s h = cc
  has_camera-add_cameras (dc ∷ rest) s h = elim (Bool-cases (dc.id == local)) [
    | inl hit ↦
        let same : local ≡ dc.id = sym ((==_iff dc.id local).0 hit) in
        add_cameras_keep server local server rest _ (rw same (added server dc.id dc.sensor_type s))
    | inr miss ↦ has_camera-add_cameras rest _ (rw miss at h)
  ]

  -- Every camera that a discovery lists is found by its server and number, whatever was discovered
  -- before.
  pub find_by_server-on_discovery :
      (fl : FloatOps F) (created : ℕ) (cams : List DiscoveredCamera) (s : Store F)
      → announces local cams ≡ true
      → (info : CameraInfo) × (find_by_server server local (on_discovery fl created server cams s)
          ≡ some info)
  unfolding on_discovery rebuild_global_ids_sorted find_by_server
  find_by_server-on_discovery fl created cams s h =
      let found = add_cameras server cams s in
      has_camera-find server local (number 0 (sort found.roster)) (
        has_camera-number server local 0 (sort found.roster)
        ∙ has_camera-sort server local found.roster
        ∙ has_camera-add_cameras cams s h)
