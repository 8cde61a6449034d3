-- ===== src/Saver.antt =====
-- data/CaptureSaver.cpp: the queue of captures to write, and the thread that writes them.
pub mod Sequential
pub mod Flush
mod Tests
use telefacet.Shared.{
  ℕ, ◌+◌, ltb, ◌==◌, Bool, true, false, not, ◌&&◌, ◌||◌, List, [], ◌∷◌, ◌++◌, Option, none, some,
  length, insert, Text, codes, to_string, same_text, if◌then◌else◌,
}
use telefacet.Frame.{FrameBuffer}
use telefacet.Cameras.{CaptureSaveState}
use telefacet.Messages.{is_empty_text}
use telefacet.Json.{JsonMake}
use telefacet.StackImage.{stack_image_npy}
use telefacet.Sidecar.{
  Moment, is_stack, capture_session_dir_name, server_dir_name, capture_sidecar, capture_key,
  base_name,
}
use telefacet.Writing.{
  FileOps, Job, ServerDir, Progress, Clock, Written, find_server, put_server, server_dir_of,
  is_seen, note_key, written_as, write_file, write_image, write_sidecar, write_files, open_session,
  write_in, write, note_written, wrote, threw, overrun,
}

abbrev pub is_failed : Written → Bool
is_failed (wrote file) = false
is_failed (threw error) = not (is_empty_text error)
is_failed overrun = false

abbrev pub state_after : Written → CaptureSaveState
state_after r = if is_failed r then CaptureSaveState.failed else CaptureSaveState.saved

abbrev pub store_state :
    Option ℕ → CaptureSaveState → List (ℕ × CaptureSaveState) → List (ℕ × CaptureSaveState)
store_state none v states = states
store_state (some id) v states = insert id v states

-- `in_hand` is the job that the thread holds: `busy_` is that there is one.
pub record Saver (J W : Type 0) : Type 0 where
  pub root : Text
  pub enabled : Bool
  pub queue : List (Job J)
  pub in_hand : Option (Job J)
  pub stopping : Bool
  pub pending : ℕ
  pub progress : Progress W
  pub states : List (ℕ × CaptureSaveState)

abbrev pub is_busy : {A : Type 0} → Option A → Bool
is_busy none = false
is_busy (some job) = true

abbrev pub held : {A : Type 0} → Option A → ℕ
held o = if is_busy o then 1 else 0

pub record Status : Type 0 where
  pub enabled : Bool
  pub session_path : Text
  pub saved : ℕ
  pub errors : ℕ
  pub pending : ℕ
  pub last_file : Text
  pub last_error : Text

module _ {J W : Type 0} where
  unfoldable pub save : Text → Option FrameBuffer → J → Option ℕ → Saver J W → Saver J W
  save address none result state s = s
  save address (some frame) result state s =
      if not s.enabled
      then s
      else (let job : Job J = record {
        address = address;
        frame = frame;
        result = result;
        state = state;
      } in
          let queue' = s.queue ++ job ∷ [] in
          record s {
            states = store_state state CaptureSaveState.saving s.states;
            queue = queue';
            pending = length queue' + held s.in_hand;
          })

  -- The loop up to the write: nothing while there is nothing to do.
  unfoldable pub take_job : Saver J W → Saver J W
  take_job s = elim s.in_hand [
    | some job ↦ s
    | none ↦ elim s.queue [ [] ↦ s | job ∷ rest ↦ record s { queue = rest; in_hand = some job } ]
  ]

  -- The wait of `flush` is over.
  abbrev pub is_idle : Saver J W → Bool
  is_idle s = (length s.queue == 0) && not (is_busy s.in_hand)

  -- The thread returns from `loop`, which the destructor waits for.
  abbrev pub is_over : Saver J W → Bool
  is_over s = s.stopping && is_idle s

  unfoldable pub status : Saver J W → Status
  status s = record {
    enabled = s.enabled;
    session_path = s.progress.session_path;
    saved = s.progress.saved;
    errors = s.progress.errors;
    pending = s.pending;
    last_file = s.progress.last_file;
    last_error = s.progress.last_error;
  }

module _ {J W : Type 0} (make : JsonMake J) (files : FileOps W) where
  abbrev pub process : Text → Clock → Job J → Progress W → Written × Progress W
  unfolding write note_written
  process root clock job p =
      let (r, p') = write make files root clock job p in (r, note_written r p')

  -- The write and the rest of a round of the loop.
  unfoldable pub finish_job : Clock → Saver J W → Saver J W
  unfolding process
  finish_job clock s = elim s.in_hand [
    | none ↦ s
    | some job ↦
        let (r, p) = process s.root clock job s.progress in
        record s {
          progress = p;
          states = store_state job.state (state_after r) s.states;
          in_hand = none;
          pending = length s.queue;
        }
  ]
