-- ===== src/Config/Load.antt =====
-- config/ConfigLoader.cpp: reading the configuration.
pub mod Checks
pub mod Steps
pub mod Loaded
mod Tests
use telefacet.Shared.{
  ℕ, zero, suc, ◌+◌, ltb, ◌==◌, Bool, true, false, not, ◌&&◌, ◌||◌, List, [], ◌∷◌, ◌++◌, Option,
  none, some, Text, codes, ℤ, pos, negsuc, same_text, to_string, if◌then◌else◌,
}
use telefacet.Messages.{is_empty_text}
use telefacet.Sidecar.{is_prefix}
use telefacet.Config.{
  ServerCfg, FrameSavingCfg, CaptureSavingCfg, Config, default_server, default_saving,
  default_captures,
}
use telefacet.Config.Validation.{
  Checked, ◌>>=◌, YamlOps, DoubleOrder, is_outside, has_scheme, validate_address, valid_modes,
  is_listed, valid_list, is_any, validate_mode, check_int, check_window, check_exposure, is_gain,
  check_gain, chain, accept, for_mode, with_valid_mode, ok, failed,
}

module _ {Y : Type 0} (yaml : YamlOps Y) where
  open yaml use {
    get, is_sequence, size, elem, as_text, as_bool, as_unsigned, as_size, as_int, as_int64,
    as_double,
  }

  -- A key that may be missing: its value, converted and checked, is put in place.
  unfoldable pub read :
      {A C : Type 0}
      → Text
      → (Y → Checked A)
      → (A → Checked (Unit {0}))
      → (A → C → C)
      → Y
      → C
      → Checked C
  read key convert check place node c = get key node >>= λ found. elim found [
    | none ↦ ok c
    | some n ↦ convert n >>= λ a. check a >>= λ _. ok (place a c)
  ]

  unfoldable pub require_key : Text → Y → Checked Y
  require_key key node = get key node >>= λ found. elim found [
    | none ↦ failed (codes "missing required key: " ++ key)
    | some n ↦ ok n
  ]

  unfoldable pub server_steps : Y → List (ServerCfg → Checked ServerCfg)
  unfolding read
  server_steps s =
      read (codes "sensor") as_text accept (λ v c. record c { sensor = v }) s
      ∷ read (codes "width") as_unsigned accept (λ v c. record c { width = some v }) s
      ∷ read (codes "height") as_unsigned accept (λ v c. record c { height = some v }) s
      ∷ read (codes "raw") as_bool accept (λ v c. record c { raw = v }) s
      ∷ []

  unfoldable pub load_server : ℕ → Y → Checked ServerCfg
  unfolding require_key validate_address chain server_steps
  load_server index s = do
    n ← require_key (codes "address") s
    address ← as_text n
    _ ← validate_address address index
    chain (server_steps s) (record default_server { address = address })

  -- The loop over the servers: `count` of them, from `index` on.
  unfoldable pub load_servers : ℕ → ℕ → Y → Checked (List ServerCfg)
  unfolding load_server
  load_servers zero index node = ok []
  load_servers (suc count) index node = do
    c ← load_server index (elem index node)
    rest ← load_servers count (index + 1) node
    ok (c ∷ rest)

  unfoldable pub file_steps : Y → List (FrameSavingCfg → Checked FrameSavingCfg)
  unfolding read
  file_steps f =
      read (codes "save_frames") as_bool accept (λ v c. record c { save_frames = v }) f
      ∷ read (codes "output_dir") as_text accept (λ v c. record c { output_dir = v }) f
      ∷ read (codes "prepend_timestamp_to_dir") as_bool accept
          (λ v c. record c { prepend_timestamp_to_dir = v }) f
      ∷ read (codes "batch_size") as_size accept (λ v c. record c { batch_size = v }) f
      ∷ read (codes "writer_threads") as_size accept (λ v c. record c { writer_threads = v }) f
      ∷ read (codes "backlog_max_bytes") as_size accept (λ v c. record c { backlog_max_bytes = v })
          f
      ∷ read (codes "disk_write_bytes_per_sec") as_size accept
          (λ v c. record c { disk_write_bytes_per_sec = v }) f
      ∷ read (codes "allow_overcommit") as_bool accept (λ v c. record c { allow_overcommit = v }) f
      ∷ []

  unfoldable pub load_files : Y → FrameSavingCfg → Checked FrameSavingCfg
  unfolding chain file_steps
  load_files f = chain (file_steps f)

  unfoldable pub checkerboard_steps : Y → List (FrameSavingCfg → Checked FrameSavingCfg)
  unfolding read check_window
  checkerboard_steps f =
      read (codes "checkerboard_rows") as_int accept (λ v c. record c { checkerboard_rows = v }) f
      ∷ read (codes "checkerboard_cols") as_int accept (λ v c. record c { checkerboard_cols = v }) f
      ∷ read (codes "checkerboard_full_res_detection") as_bool accept
          (λ v c. record c { checkerboard_full_res_detection = v }) f
      ∷ read (codes "checkerboard_num_threads") as_int accept
          (λ v c. record c { checkerboard_num_threads = v }) f
      ∷ read (codes "checkerboard_subpix_window") as_int check_window
          (λ v c. record c { checkerboard_subpix_window = some v }) f
      ∷ []

  unfoldable pub load_checkerboard : Y → FrameSavingCfg → Checked FrameSavingCfg
  unfolding chain checkerboard_steps
  load_checkerboard f = chain (checkerboard_steps f)

  unfoldable pub aruco_steps : Y → List (FrameSavingCfg → Checked FrameSavingCfg)
  unfolding read
  aruco_steps f =
      read (codes "aruco_full_res_detection") as_bool accept
        (λ v c. record c { aruco_full_res_detection = v }) f
      ∷ read (codes "aruco_num_threads") as_int accept (λ v c. record c { aruco_num_threads = v }) f
      ∷ read (codes "aruco_corner_refine") as_bool accept
          (λ v c. record c { aruco_corner_refine = v }) f
      ∷ []

  unfoldable pub load_aruco : Y → FrameSavingCfg → Checked FrameSavingCfg
  unfolding chain aruco_steps
  load_aruco f = chain (aruco_steps f)

  -- The defaults of capture requests.
  unfoldable pub request_steps : DoubleOrder → Y → List (FrameSavingCfg → Checked FrameSavingCfg)
  unfolding read check_int check_exposure check_gain
  request_steps order f =
      read (codes "trigger_skip_frames") as_int (check_int (codes "trigger_skip_frames") 0 100)
        (λ v c. record c { trigger_skip_frames = v }) f
      ∷ read (codes "stack_num_frames") as_int (check_int (codes "stack_num_frames") 1 1024)
          (λ v c. record c { stack_num_frames = v }) f
      ∷ read (codes "stack_skip_frames") as_int (check_int (codes "stack_skip_frames") 0 100)
          (λ v c. record c { stack_skip_frames = v }) f
      ∷ read (codes "stack_exposure_time") as_int64 check_exposure
          (λ v c. record c { stack_exposure_time = v }) f
      ∷ read (codes "stack_analogue_gain") as_double (check_gain order)
          (λ v c. record c { stack_analogue_gain = v }) f
      ∷ []

  unfoldable pub load_requests : DoubleOrder → Y → FrameSavingCfg → Checked FrameSavingCfg
  unfolding chain request_steps
  load_requests order f = chain (request_steps order f)

  unfoldable pub body_steps : DoubleOrder → Y → List (FrameSavingCfg → Checked FrameSavingCfg)
  unfolding load_files load_checkerboard load_requests load_aruco
  body_steps order f =
      load_files f
      ∷ for_mode (codes "checkerboard") (codes "checkerboard2x2") (load_checkerboard f)
      ∷ load_requests order f
      ∷ for_mode (codes "aruco") (codes "aruco2x2") (load_aruco f)
      ∷ []

  unfoldable pub processing_steps : DoubleOrder → Y → List (FrameSavingCfg → Checked FrameSavingCfg)
  unfolding read with_valid_mode body_steps
  processing_steps order f =
      read (codes "mode") as_text accept (λ v c. record c { mode = v }) f
      ∷ with_valid_mode
      ∷ body_steps order f

  unfoldable pub load_processing : DoubleOrder → Y → FrameSavingCfg → Checked FrameSavingCfg
  unfolding chain processing_steps
  load_processing order f = chain (processing_steps order f)

  unfoldable pub load_captures : Y → CaptureSavingCfg → Checked CaptureSavingCfg
  unfolding read
  load_captures n c = do
    c ← read (codes "save") as_bool accept (λ v c. record c { save = v }) n c
    c ← read (codes "dir") as_text accept (λ v c. record c { dir = v }) n c
    if is_empty_text c.dir then failed (codes "captures.dir must not be empty") else ok c

  abbrev pub if_there : {C : Type 0} → Text → (Y → C → Checked C) → Y → C → Checked C
  if_there key load root c =
      get key root >>= λ found. elim found [ none ↦ ok c | some n ↦ load n c ]

  unfoldable pub check_sequence : Y → Checked (Unit {0})
  check_sequence servers =
      if not (is_sequence servers) || (size servers == 0)
      then failed (codes "'servers' must be a non-empty sequence")
      else ok tt

  unfoldable pub load_root : DoubleOrder → Y → Checked Config
  unfolding require_key check_sequence load_servers load_processing load_captures
  load_root order root = do
    servers ← require_key (codes "servers") root
    _ ← check_sequence servers
    list ← load_servers (size servers) 0 servers
    saving ← if_there (codes "processing") (load_processing order) root default_saving
    captures ← if_there (codes "captures") load_captures root default_captures
    ok (record { servers = list; saving = saving; captures = captures })

  -- `load` is `YAML::LoadFile`, with what an exception of it says.
  unfoldable pub load_from_file : DoubleOrder → (Text → Checked Y) → Text → Checked Config
  unfolding load_root
  load_from_file order load path = elim (load path) [
    | failed e ↦ failed (codes "failed to load YAML " ++ path ++ codes ": " ++ e)
    | ok root ↦ load_root order root
  ]
