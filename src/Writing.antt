-- ===== src/Writing.antt =====
-- data/CaptureSaver.cpp: the write of one capture.
use telefacet.Shared.{
  ℕ, ◌+◌, ltb, Bool, true, false, not, ◌&&◌, ◌||◌, List, [], ◌∷◌, ◌++◌, Option, none, some, length,
  Text, codes, same_text, if◌then◌else◌,
}
use telefacet.Frame.{FrameBuffer}
use telefacet.Messages.{is_empty_text}
use telefacet.Json.{JsonMake}
use telefacet.StackImage.{stack_image_npy}
use telefacet.Sidecar.{
  Moment, is_stack, capture_session_dir_name, server_dir_name, capture_sidecar, capture_key,
  base_name,
}

-- What the code uses of the file system, whose state is `W`. `join` is `operator/` of paths;
-- `create_directories` gives the error's message; `open_file` empties the file and says whether that
-- worked; `put` writes and closes, and says whether that worked.
pub record FileOps (W : Type 0) : Type 0 where
  pub join : Text → Text → Text
  pub create_directories : Text → W → Option Text × W
  pub open_file : Text → W → Bool × W
  pub put : Text → List ℕ → W → Bool × W

-- The shared object behind `state` is a number.
pub record Job (J : Type 0) : Type 0 where
  pub address : Text
  pub frame : FrameBuffer
  pub result : J
  pub state : Option ℕ

pub record ServerDir : Type 0 where
  pub subdir : Text
  pub run : ℕ
  pub seen : List Text

-- What the thread keeps, with the files and the part of the status that it alone writes. After
-- `overran`, a read past the end of an image, the model says nothing.
pub record Progress (W : Type 0) : Type 0 where
  pub session_dir : Text
  pub servers : List (Text × ServerDir)
  pub world : W
  pub session_path : Text
  pub saved : ℕ
  pub errors : ℕ
  pub last_file : Text
  pub last_error : Text
  pub overran : Bool

-- The clock where the session is named, and where the file beside the capture is made.
pub record Clock : Type 0 where
  pub local_time : Moment
  pub utc : Moment

pub data Written : Type 0 where
  wrote : Text → Written
  threw : Text → Written
  overrun : Written

unfoldable pub find_server : Text → List (Text × ServerDir) → Option ServerDir
find_server address [] = none
find_server address ((a, sd) ∷ rest) =
    if same_text a address then some sd else find_server address rest

unfoldable pub put_server : Text → ServerDir → List (Text × ServerDir) → List (Text × ServerDir)
put_server address sd [] = (address, sd) ∷ []
put_server address sd ((a, old) ∷ rest) =
    if same_text a address then (a, sd) ∷ rest else (a, old) ∷ put_server address sd rest

abbrev pub server_dir_of : Text → List (Text × ServerDir) → ServerDir
unfolding find_server server_dir_name
server_dir_of address servers = elim (find_server address servers) [
  | none ↦ record { subdir = server_dir_name address; run = 0; seen = [] }
  | some sd ↦ sd
]

unfoldable pub is_seen : Text → List Text → Bool
is_seen key [] = false
is_seen key (k ∷ rest) = same_text k key || is_seen key rest

-- A key seen again starts a new run.
unfoldable pub note_key : Text → ServerDir → ServerDir
unfolding is_seen
note_key key sd =
    if is_seen key sd.seen
    then record sd { run = sd.run + 1; seen = key ∷ [] }
    else record sd { seen = key ∷ sd.seen }

abbrev pub written_as : Text → Option Text → Written
written_as name none = wrote name
written_as name (some message) = threw message

module _ {W : Type 0} (files : FileOps W) where
  -- `writeFile`: the message of what it throws.
  unfoldable pub write_file : Text → List ℕ → W → Option Text × W
  write_file path bytes w =
      let (opened, w') = files.open_file path w in
      if opened
      then (let (good, w'') = files.put path bytes w' in
          (if good then none else some (codes "failed writing " ++ path), w''))
      else (some (codes "cannot open " ++ path), w')

  -- The image, if the frame has one: `wrote` its name, and `wrote` nothing without one.
  unfoldable pub write_image : Text → Text → FrameBuffer → W → Written × W
  unfolding write_file stack_image_npy
  write_image dir base f w =
      if not f.header_only && ltb 0 (length f.bytes)
      then (if is_stack f
          then elim (stack_image_npy f) [
            | none ↦ (overrun, w)
            | some [] ↦ (threw (codes "stacked image " ++ base ++ codes " is truncated"), w)
            | some (b ∷ bytes) ↦
                let name = base ++ codes ".npy" in
                let (message, w') = write_file (files.join dir name) (b ∷ bytes) w in
                (written_as name message, w')
          ]
          else (let name = base ++ codes ".yuv" in
              let (message, w') = write_file (files.join dir name) f.bytes w in
              (written_as name message, w')))
      else (wrote [], w)

module _ {J W : Type 0} (make : JsonMake J) (files : FileOps W) where
  -- The file beside the capture, and the name that `write` returns.
  unfoldable pub write_sidecar : Text → Text → Text → Clock → Job J → Text → W → Written × W
  unfolding write_file capture_sidecar
  write_sidecar dir subdir base clock job image_file w =
      let j = capture_sidecar make clock.utc job.frame job.result job.address image_file in
      elim (make.dump_indented 2 j) [
        | none ↦ (threw (make.dump_error j), w)
        | some text ↦
            let (message, w') = write_file files (files.join dir (base ++ codes ".json")) text w in
            let name = if is_empty_text image_file then base ++ codes ".json" else image_file in
            (written_as (subdir ++ codes "/" ++ name) message, w')
      ]

  unfoldable pub write_files : Text → Text → Text → Clock → Job J → W → Written × W
  unfolding write_image write_sidecar
  write_files dir subdir base clock job w =
      let (image, w') = write_image files dir base job.frame w in
      elim image [
        | wrote image_file ↦ write_sidecar dir subdir base clock job image_file w'
        | threw message ↦ (threw message, w')
        | overrun ↦ (overrun, w')
      ]

  -- The session directory, named at the first capture.
  abbrev pub open_session : Text → Clock → Progress W → Progress W
  open_session root clock p =
      if is_empty_text p.session_dir
      then (let dir = files.join root (capture_session_dir_name clock.local_time) in
          record p { session_dir = dir; session_path = dir })
      else p

  -- `write`, in its session.
  unfoldable pub write_in : Clock → Job J → Progress W → Written × Progress W
  unfolding put_server server_dir_of note_key capture_key base_name write_files
  write_in clock job p =
      let sd = server_dir_of job.address p.servers in
      let dir = files.join p.session_dir sd.subdir in
      let (error, w) = files.create_directories dir p.world in
      elim error [
        | some message ↦ (
          threw (codes "cannot create " ++ dir ++ codes ": " ++ message),
          record p { servers = put_server job.address sd p.servers; world = w },
        )
        | none ↦
            let sd' = note_key (capture_key job.frame) sd in
            let (r, w') = write_files dir sd'.subdir (base_name sd'.run job.frame) clock job w in
            (r, record p { servers = put_server job.address sd' p.servers; world = w' })
      ]

  unfoldable pub write : Text → Clock → Job J → Progress W → Written × Progress W
  unfolding write_in
  write root clock job p = write_in clock job (open_session root clock p)

module _ {W : Type 0} where
  -- What `loop` makes of the outcome. An exception with an empty text counts as success.
  unfoldable pub note_written : Written → Progress W → Progress W
  note_written (wrote file) p = record p { saved = p.saved + 1; last_file = file; last_error = [] }
  note_written (threw error) p =
      if is_empty_text error
      then record p { saved = p.saved + 1; last_file = []; last_error = [] }
      else record p { errors = p.errors + 1; last_error = error }
  note_written overrun p = record p { overran = true }
