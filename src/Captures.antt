-- ===== src/Captures.antt =====
-- net/WebSocketClient: the captures of a connection, from the request to the last frame.
pub mod Cycle
pub mod Matching
mod Tests
use telefacet.Shared.{
  ℕ, ◌+◌, ◌-◌, ◌%◌, ◌^◌, ◌==◌, ltb, Bool, true, false, not, ◌&&◌, ◌||◌, List, [], ◌∷◌, ◌++◌, Option,
  none, some, ◌>>=◌, length, Text, codes, if◌then◌else◌,
}
use telefacet.Frame.{FrameBuffer}
use telefacet.Wire.{stack_kind}
use telefacet.Json.{JsonOps}

pub data CaptureKind : Type 0 where
  trigger stack : CaptureKind

abbrev pub is_kind : CaptureKind → CaptureKind → Bool
is_kind trigger trigger = true
is_kind trigger stack = false
is_kind stack trigger = false
is_kind stack stack = true

-- `capture_requests` has the oldest request first.
pub record Captures (J : Type 0) : Type 0 where
  pub capture_requests : List CaptureKind
  pub capture_acked : Bool
  pub capture_kind : CaptureKind
  pub capture_id : ℕ
  pub capture_entries : List J
  pub capture_received : ℕ
  pub last_capture_refusal : Text

pub record CaptureProgress : Type 0 where
  pub in_progress : Bool
  pub acked : Bool
  pub kind : CaptureKind
  pub id : ℕ
  pub expected : ℕ
  pub received : ℕ

-- The member initialisers.
abbrev pub no_captures : {J : Type 0} → Captures J
no_captures = record {
  capture_requests = [];
  capture_acked = false;
  capture_kind = trigger;
  capture_id = 0;
  capture_entries = [];
  capture_received = 0;
  last_capture_refusal = [];
}

abbrev no_progress : CaptureProgress
no_progress = record {
  in_progress = false;
  acked = false;
  kind = trigger;
  id = 0;
  expected = 0;
  received = 0;
}

-- `erase(find(kind))`: the oldest request of the kind, if there is one.
unfoldable pub erase_first : CaptureKind → List CaptureKind → List CaptureKind
erase_first kind [] = []
erase_first kind (k ∷ rest) = if is_kind k kind then rest else k ∷ erase_first kind rest

unfoldable pub has_kind : CaptureKind → List CaptureKind → Bool
has_kind kind [] = false
has_kind kind (k ∷ rest) = is_kind k kind || has_kind kind rest

-- The same from the back: the newest request of the kind.
unfoldable pub erase_last : CaptureKind → List CaptureKind → List CaptureKind
erase_last kind [] = []
erase_last kind (k ∷ rest) =
    let later = erase_last kind rest in
    if has_kind kind rest then k ∷ later else if is_kind k kind then rest else k ∷ rest

abbrev starts_with : Text → Text → Bool
starts_with [] text = true
starts_with (k ∷ key) [] = false
starts_with (k ∷ key) (c ∷ text) = k == c && starts_with key text

-- `text.find(key) != npos`
abbrev pub has_text : Text → Text → Bool
has_text key [] = starts_with key []
has_text key (c ∷ text) = starts_with key (c ∷ text) || has_text key text

abbrev refusal_keys : List Text
refusal_keys =
    codes "capture"
    ∷ codes "stack"
    ∷ codes "trigger"
    ∷ codes "running"
    ∷ codes "exposure_time"
    ∷ codes "skip_frames"
    ∷ codes "num_frames"
    ∷ codes "analogue_gain"
    ∷ codes "send_image"
    ∷ codes "camera_id"
    ∷ []

abbrev has_any : List Text → Text → Bool
has_any [] text = false
has_any (key ∷ keys) text = has_text key text || has_any keys text

unfoldable pub looks_like_capture_refusal : Text → Bool
looks_like_capture_refusal message = has_any refusal_keys message

abbrev is_nil : {A : Type 0} → List A → Bool
is_nil [] = true
is_nil (a ∷ rest) = false

abbrev pub kind_of_frame : FrameBuffer → CaptureKind
kind_of_frame f = if f.frame_kind == stack_kind then stack else trigger

module _ {J : Type 0} where
  unfoldable pub note_capture_requested : CaptureKind → Captures J → Captures J
  note_capture_requested kind c = record c { capture_requests = c.capture_requests ++ kind ∷ [] }

  unfoldable pub note_capture_acked : CaptureKind → ℕ → List J → Captures J → Captures J
  note_capture_acked kind id entries c = record c {
    capture_requests = erase_first kind c.capture_requests;
    capture_acked = true;
    capture_kind = kind;
    capture_id = id;
    capture_entries = entries;
    capture_received = 0;
  }

  unfoldable pub reset_captures : Captures J → Captures J
  reset_captures c = record c {
    capture_requests = [];
    capture_acked = false;
    capture_entries = [];
    capture_received = 0;
  }

  -- What an `error` without a code does: the refused request, if there is one.
  unfoldable pub refuse : Text → Captures J → Option CaptureKind × Captures J
  refuse message c =
      if looks_like_capture_refusal message
      then elim c.capture_requests [
        | [] ↦ (none, c)
        | k ∷ rest ↦ (some k, record c { capture_requests = rest; last_capture_refusal = message })
      ]
      else (none, c)

  -- `send` is sendCommand, with what the receive thread does to the captures before it returns.
  unfoldable pub send_capture_request :
      CaptureKind → (Captures J → Bool × Captures J) → Captures J → Bool × Captures J
  send_capture_request kind send c =
      let (sent, c') = send (note_capture_requested kind c) in
      if sent
      then (true, c')
      else (false, record c' { capture_requests = erase_last kind c'.capture_requests })

  unfoldable pub is_receiving : Captures J → Bool
  is_receiving c = c.capture_acked && ltb c.capture_received (length c.capture_entries)

  unfoldable pub capture_progress : Captures J → CaptureProgress
  unfolding is_receiving
  capture_progress c =
      let receiving = is_receiving c in
      let later : CaptureProgress =
        if c.capture_acked
        then record {
          in_progress = receiving || not (is_nil c.capture_requests);
          acked = true;
          kind = c.capture_kind;
          id = c.capture_id;
          expected = length c.capture_entries;
          received = c.capture_received;
        }
        else record no_progress { in_progress = receiving || not (is_nil c.capture_requests) } in
      elim c.capture_requests [
        | [] ↦ later
        | k ∷ rest ↦
            if receiving then later else record no_progress { in_progress = true; kind = k }
      ]

module _ {J : Type 0} (json : JsonOps J) where
  open json use {null, value_unsigned}

  -- The loop over the entries: the first of the camera, or null. None is an exception.
  unfoldable pub find_entry : ℕ → List J → Option J
  find_entry camera [] = some null
  find_entry camera (e ∷ rest) = do
    id ← value_unsigned (codes "camera_id") (2 ^ 32 - 1) e
    let later = find_entry camera rest
    if id == camera then some e else later

  -- Whether the frame is one that the current capture waits for.
  unfoldable pub is_expected : FrameBuffer → Captures J → Bool
  unfolding is_receiving
  is_expected f c =
      c.capture_acked
      && (is_kind (kind_of_frame f) c.capture_kind
          && (f.capture_id == c.capture_id % 2 ^ 16
              && ltb c.capture_received (length c.capture_entries)))

  -- A capture frame: the entry that announced it, and the captures then. None is an exception.
  unfoldable pub match_frame : FrameBuffer → Captures J → Option (J × Captures J)
  unfolding is_expected find_entry
  match_frame f c = if not (is_expected f c) then some (null, c) else do
    entry ← find_entry f.camera_id c.capture_entries
    some (entry, record c { capture_received = c.capture_received + 1 })
