-- ===== src/Cameras.antt =====
-- data/CameraStore.cpp: the camera roster, the latest frame of each camera, and its last capture.
pub mod Ids
pub mod Order
pub mod Latest
mod Tests
use telefacet.Shared.{
  ℕ, ◌+◌, ◌%◌, ◌^◌, ◌==◌, ltb, Bool, false, ◌&&◌, List, [], ◌∷◌, ◌++◌, Option, none, some, length,
  lookup, insert, Text, codes, to_string, if◌then◌else◌,
}
use telefacet.Frame.{FrameBuffer}
use telefacet.Pool.{Pool, release}
use telefacet.Stats.{FloatOps, LiveStats, fresh_stats, update_stats}

pub record CameraInfo : Type 0 where
  pub global_id : ℕ
  pub server_index : ℕ
  pub local_camera_id : ℕ
  pub label : Text
  pub sensor_type : Text
  pub streaming : Bool

pub data CaptureSaveState : Type 0 where
  not_saved saving saved failed : CaptureSaveState

pub record Capture : Type 0 where
  pub frame : FrameBuffer
  pub received : ℕ
  pub seq : ℕ
  pub save : CaptureSaveState

pub record Slot : Type 0 where
  pub latest : Option FrameBuffer
  pub seq : ℕ

abbrev pub empty_slot : Slot
empty_slot = record { latest = none; seq = 0 }

pub record Store (F : Type 0) : Type 0 where
  pub roster : List CameraInfo
  pub slots : List (ℕ × Slot)
  pub stats : List (ℕ × LiveStats F)
  pub captures : List (ℕ × Capture)
  pub capture_seq : ℕ
  pub pool : Pool

abbrev pub is_camera : ℕ → ℕ → CameraInfo → Bool
is_camera server local c = c.server_index == server && c.local_camera_id == local

abbrev pub keep_first : CameraInfo → Option (ℕ × List CameraInfo) → Option (ℕ × List CameraInfo)
keep_first c none = none
keep_first c (some (id, rest)) = some (id, c ∷ rest)

-- The loop of `addCamera`: the id of the camera, if it is there, and the roster with its sensor.
unfoldable pub rediscover : ℕ → ℕ → Text → List CameraInfo → Option (ℕ × List CameraInfo)
rediscover server local sensor [] = none
rediscover server local sensor (c ∷ rest) =
    if is_camera server local c
    then some (c.global_id, record c { sensor_type = sensor } ∷ rest)
    else keep_first c (rediscover server local sensor rest)

abbrev pub new_camera : ℕ → ℕ → Text → ℕ → CameraInfo
new_camera server local sensor id = record {
  global_id = id;
  server_index = server;
  local_camera_id = local;
  label = [];
  sensor_type = sensor;
  streaming = false;
}

-- The comparison that `rebuildGlobalIdsSorted` sorts by.
abbrev pub before : CameraInfo → CameraInfo → Bool
before a b =
    if a.server_index == b.server_index
    then ltb a.local_camera_id b.local_camera_id
    else ltb a.server_index b.server_index

-- `std::sort`, as an insertion sort. Entries that compare equal have no order there.
unfoldable pub insert_sorted : CameraInfo → List CameraInfo → List CameraInfo
insert_sorted c [] = c ∷ []
insert_sorted c (d ∷ rest) = if before d c then d ∷ insert_sorted c rest else c ∷ d ∷ rest

unfoldable pub sort : List CameraInfo → List CameraInfo
sort [] = []
sort (c ∷ rest) = insert_sorted c (sort rest)

-- Ids and labels by position, from `i` on.
unfoldable pub number : ℕ → List CameraInfo → List CameraInfo
number i [] = []
number i (c ∷ rest) =
    record c { global_id = i; label = codes "cam" ++ to_string i } ∷ number (i + 1) rest

unfoldable pub find_in : ℕ → List CameraInfo → Option CameraInfo
find_in id [] = none
find_in id (c ∷ rest) = if c.global_id == id then some c else find_in id rest

unfoldable pub find_by_server_in : ℕ → ℕ → List CameraInfo → Option CameraInfo
find_by_server_in server local [] = none
find_by_server_in server local (c ∷ rest) =
    if is_camera server local c then some c else find_by_server_in server local rest

-- The frame that a consumer has not seen, and what it has seen now.
unfoldable pub consume_slot : Option Slot → ℕ → Option FrameBuffer × ℕ
consume_slot none seen = (none, seen)
consume_slot (some slot) seen = elim slot.latest [
  | none ↦ (none, seen)
  | some buf ↦ if slot.seq == seen then (none, seen) else (some buf, slot.seq)
]

module _ {F : Type 0} where
  unfoldable pub clear : Store F → Store F
  clear s = record s { roster = []; slots = []; stats = []; captures = [] }

  unfoldable pub add_camera : ℕ → ℕ → Text → Store F → ℕ × Store F
  add_camera server local sensor s = elim (rediscover server local sensor s.roster) [
    | some (id, roster') ↦ (id, record s { roster = roster' })
    | none ↦ (
      length s.roster,
      record s { roster = s.roster ++ new_camera server local sensor (length s.roster) ∷ [] },
    )
  ]

  unfoldable pub snapshot : Store F → List CameraInfo
  snapshot s = s.roster

  unfoldable pub live_stats : ℕ → Store F → Option (LiveStats F)
  live_stats id s = lookup id s.stats

  unfoldable pub find : ℕ → Store F → Option CameraInfo
  find id s = find_in id s.roster

  unfoldable pub find_by_server : ℕ → ℕ → Store F → Option CameraInfo
  find_by_server server local s = find_by_server_in server local s.roster

  unfoldable pub consume_if_new : ℕ → ℕ → Store F → Option FrameBuffer × ℕ
  unfolding consume_slot
  consume_if_new id seen s = consume_slot (lookup id s.slots) seen

  unfoldable pub publish_capture : ℕ → ℕ → FrameBuffer → Store F → Capture × Store F
  publish_capture now id frame s =
      let seq' = (s.capture_seq + 1) % 2 ^ 64 in
      let c : Capture = record { frame = frame; received = now; seq = seq'; save = not_saved } in
      (c, record s { capture_seq = seq'; captures = insert id c s.captures })

  unfoldable pub last_capture : ℕ → Store F → Option Capture
  last_capture id s = lookup id s.captures

  unfoldable pub capture_count : Store F → ℕ
  capture_count s = length s.captures

abbrev pub get_or : {A : Type 0} → Option A → A → A
get_or none d = d
get_or (some a) d = a

module _ {F : Type 0} (fl : FloatOps F) where
  -- The loop of `rebuildGlobalIdsSorted` over the statistics: one for each id below `n`.
  unfoldable pub ensure_stats :
      ℕ → List CameraInfo → List (ℕ × LiveStats F) → List (ℕ × LiveStats F)
  ensure_stats created [] stats = stats
  ensure_stats created (c ∷ rest) stats =
      ensure_stats created rest (elim (lookup c.global_id stats) [
        | none ↦ insert c.global_id (fresh_stats fl created) stats
        | some _ ↦ stats
      ])

  unfoldable pub rebuild_global_ids_sorted : ℕ → Store F → Store F
  rebuild_global_ids_sorted created s =
      let roster' = number 0 (sort s.roster) in
      record s {
        roster = roster';
        captures = [];
        slots = [];
        stats = ensure_stats created roster' s.stats;
      }

  -- `owners` is the number of owners of the evicted buffer when it is released. `created` and `now`
  -- are the clock where the statistics are made, if they are new, and where they are updated.
  unfoldable pub publish_frame : ℕ → ℕ → ℕ → ℕ → Option FrameBuffer → Store F → Store F
  publish_frame owners created now id none s = s
  publish_frame owners created now id (some buf) s =
      let slot = get_or (lookup id s.slots) empty_slot in
      let stats = get_or (lookup id s.stats) (fresh_stats fl created) in
      record s {
        slots = insert id (record { latest = some buf; seq = (slot.seq + 1) % 2 ^ 64 }) s.slots;
        stats = insert id (update_stats fl now buf stats) s.stats;
        pool = release owners slot.latest s.pool;
      }
