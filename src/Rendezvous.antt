-- ===== src/Rendezvous.antt =====
-- client/Client.cpp: how a capture call collects the results, refusals and frames of its servers.
pub mod Server
pub mod Outcome
pub mod Progress
pub mod Complete
pub mod Heard
pub mod Exact
mod Tests
use telefacet.Shared.{
  ℕ, ◌+◌, ◌%◌, ◌^◌, ◌==◌, leb, Bool, true, false, not, ◌&&◌, ◌||◌, List, [], ◌∷◌, ◌++◌, Option,
  none, some, length, lookup, insert, Text, codes, to_string, if◌then◌else◌,
}
use telefacet.Frame.{FrameBuffer}
use telefacet.Captures.{CaptureKind, is_kind, kind_of_frame}
use telefacet.Messages.{TriggerResult, StackResult, StackCapture, is_empty_text}

-- `PendingServer`. A result that has not arrived is `none`.
pub record Pending (J : Type 0) : Type 0 where
  pub done : Bool
  pub acked : Bool
  pub id : ℕ
  pub expected : ℕ
  pub refusal : Text
  pub trigger_result : Option (TriggerResult J)
  pub stack_result : Option (StackResult J)
  pub frames : List FrameBuffer

abbrev pub fresh_pending : {J : Type 0} → Pending J
fresh_pending = record {
  done = false;
  acked = false;
  id = 0;
  expected = 0;
  refusal = [];
  trigger_result = none;
  stack_result = none;
  frames = [];
}

-- The members that `capture_mu_` guards.
pub record Rendezvous (J : Type 0) : Type 0 where
  pub capture_active : Bool
  pub capture_kind : CaptureKind
  pub capture_pending : List (ℕ × Pending J)

-- What the receive thread of a server hands over. A result comes with the number of frames that it
-- announces.
pub data Report (J : Type 0) : Type 0 where
  result : CaptureKind → ℕ → ℕ → Option (TriggerResult J) → Option (StackResult J) → Report J
  refused : CaptureKind → Text → Report J
  frame : FrameBuffer → Report J

-- What a handler writes if it is given, and else what was there.
abbrev pub keep_result : {A : Type 0} → Option A → Option A → Option A
keep_result none old = old
keep_result (some new) old = some new

abbrev pub is_none_left : {A : Type 0} → List A → Bool
is_none_left [] = true
is_none_left (a ∷ rest) = false

abbrev pub is_among : ℕ → List ℕ → Bool
is_among n [] = false
is_among n (m ∷ rest) = m == n || is_among n rest

-- `++images` for each capture without an error.
unfoldable pub count_images : List StackCapture → ℕ
count_images [] = 0
count_images (c ∷ rest) =
    let later = count_images rest in if is_empty_text c.error then later + 1 else later

module _ {J : Type 0} where
  -- The reports that the callbacks of the constructor make of the messages.
  abbrev pub trigger_report : TriggerResult J → Report J
  trigger_report tr = result CaptureKind.trigger tr.trigger_id (length tr.captures) (some tr) none

  abbrev pub stack_report : StackResult J → Report J
  stack_report sr = result CaptureKind.stack sr.stack_id (count_images sr.captures) none (some sr)

  -- The parts of the handlers after their guards.
  abbrev pub note_result :
      ℕ → ℕ → Option (TriggerResult J) → Option (StackResult J) → Pending J → Pending J
  note_result id expected tr sr p = record p {
    acked = true;
    id = id;
    expected = expected;
    trigger_result = keep_result tr p.trigger_result;
    stack_result = keep_result sr p.stack_result;
    done = expected == 0;
  }

  abbrev pub note_refusal : Text → Pending J → Pending J
  note_refusal message p = record p { refusal = message; done = true }

  abbrev pub note_frame : FrameBuffer → Pending J → Pending J
  note_frame f p =
      let frames = p.frames ++ f ∷ [] in
      record p { frames = frames; done = leb p.expected (length frames) }

  -- What each handler does to the server's entry, for a capture of the kind that is under way.
  unfoldable pub on_report : CaptureKind → Report J → Pending J → Pending J
  on_report current (result kind id expected tr sr) p =
      if not (is_kind kind current) || p.acked then p else note_result id expected tr sr p
  on_report current (refused kind message) p =
      if not (is_kind kind current) || p.acked then p else note_refusal message p
  on_report current (frame f) p =
      if not (is_kind (kind_of_frame f) current) || (not p.acked || p.done)
      then p
      else if not (f.capture_id == p.id % 2 ^ 16)
      then p
      else note_frame f p

  -- `onCaptureResult`, `onCaptureRefused` and `onCaptureFrame`, on the report of one server.
  unfoldable pub on_capture : ℕ → Report J → Rendezvous J → Rendezvous J
  unfolding on_report
  on_capture server report r = elim (lookup server r.capture_pending) [
    | none ↦ r
    | some p ↦ if not r.capture_active then r else record r {
      capture_pending = insert server (on_report r.capture_kind report p) r.capture_pending;
    }
  ]

  unfoldable pub on_captures : List (ℕ × Report J) → Rendezvous J → Rendezvous J
  unfolding on_capture
  on_captures [] r = r
  on_captures ((server, report) ∷ rest) r = on_captures rest (on_capture server report r)

  unfoldable pub all_done : List (ℕ × Pending J) → Bool
  all_done [] = true
  all_done ((server, p) ∷ rest) = p.done && all_done rest

  -- `wait_until`: the reports before the deadline, in the batches between two looks at the entries.
  unfoldable pub await : List (List (ℕ × Report J)) → Rendezvous J → Bool × Rendezvous J
  unfolding all_done on_captures
  await [] r = (all_done r.capture_pending, r)
  await (batch ∷ rest) r = elim (all_done r.capture_pending) [
    | true ↦ (true, r)
    | false ↦ await rest (on_captures batch r)
  ]

  -- A fresh entry for each connected server.
  unfoldable pub arm : List ℕ → List (ℕ × Pending J)
  arm [] = []
  arm (server ∷ rest) = (server, fresh_pending) ∷ arm rest

  -- The entries of the servers that the request was not sent to are erased.
  unfoldable pub keep_sent : List ℕ → List (ℕ × Pending J) → List (ℕ × Pending J)
  keep_sent sent [] = []
  keep_sent sent ((server, p) ∷ rest) =
      let later = keep_sent sent rest in if is_among server sent then (server, p) ∷ later else later

  unfoldable pub list_refusals : List (ℕ × Pending J) → List Text
  list_refusals [] = []
  list_refusals ((server, p) ∷ rest) =
      let later = list_refusals rest in
      if is_empty_text p.refusal
      then later
      else ((codes "server " ++ to_string server) ++ codes ": " ++ p.refusal) ∷ later

pub record CaptureRun (J : Type 0) : Type 0 where
  pub complete : Bool
  pub refusals : List Text
  pub got : List (ℕ × Pending J)
  pub after : Rendezvous J

module _ {J : Type 0} where
  abbrev pub armed : CaptureKind → List ℕ → Rendezvous J
  armed kind connected = record {
    capture_active = true;
    capture_kind = kind;
    capture_pending = arm connected;
  }

  abbrev pub prune : List ℕ → Rendezvous J → Rendezvous J
  prune sent r = record r { capture_pending = keep_sent sent r.capture_pending }

  -- Without an entry there is nothing to wait for.
  unfoldable pub wait_for : List (List (ℕ × Report J)) → Rendezvous J → Bool × Rendezvous J
  unfolding await
  wait_for late r = if is_none_left r.capture_pending then (false, r) else await late r

  -- The end of `runCapture`: the entries are taken out, and what the caller gets.
  unfoldable pub finish_run : List ℕ → Bool × Rendezvous J → CaptureRun J
  unfolding list_refusals
  finish_run sent (finished, r) =
      let got = r.capture_pending in
      let after : Rendezvous J = record r { capture_pending = []; capture_active = false } in
      if is_none_left sent
      then record {
        complete = false;
        refusals = codes "the request reached no connected server" ∷ [];
        got = got;
        after = after;
      }
      else record {
        complete = finished && is_none_left (list_refusals got);
        refusals = list_refusals got;
        got = got;
        after = after;
      }

  -- `runCapture`. `free` is whether no earlier capture was in progress in time; `connected` lists the
  -- servers connected when the call is armed, each once, and `sent` those that the request reached;
  -- `early` are the reports until the request is sent everywhere, `late` those before the deadline.
  unfoldable pub run_capture :
      Bool
      → CaptureKind
      → List ℕ
      → List ℕ
      → List (ℕ × Report J)
      → List (List (ℕ × Report J))
      → Rendezvous J
      → CaptureRun J
  unfolding on_captures arm keep_sent wait_for finish_run
  run_capture free kind connected sent early late r =
      if free
      then finish_run sent (wait_for late (prune sent (on_captures early (armed kind connected))))
      else record {
        complete = false;
        refusals = codes "an earlier capture is still in progress" ∷ [];
        got = [];
        after = r;
      }
