-- ===== src/Connection/Frames.antt =====
-- Where the frames of a connection go.
use telefacet.Shared.{
  ℕ, ◌+◌, ◌%◌, ◌^◌, ◌<◌, ◌≡◌, refl, ◌↔◌, ◌⊎◌, inl, inr, true, false, Bool-cases, [], ◌∷◌, arith,
  length, ==_iff,
}
use telefacet.Frame.{FrameBuffer, FocusFomRegion}
use telefacet.Wire.{stack_kind, trigger_kind, is_capture_frame_kind}
use telefacet.Json.{JsonOps}
use telefacet.Captures.{
  CaptureKind, trigger, stack, Captures, is_kind, kind_of_frame, is_expected, match_frame,
}
use telefacet.Captures.Matching.{Readable, entry_of, find_entry-entry_of}
use telefacet.Connection.{Callbacks, Connection, frame, capture_frame, attempt, on_assembled}

abbrev pub all_set : Callbacks
all_set = record {
  on_frame = true;
  on_discovery = true;
  on_status = true;
  on_conn = true;
  on_trigger = true;
  on_stack = true;
  on_capture_frame = true;
  on_capture_refused = true;
}

-- The frame with the region that the connection knows.
abbrev pub stamped : FrameBuffer → FocusFomRegion → FrameBuffer
stamped f region = record f { info = record f.info { focus_fom_region = region } }

-- A frame of a capture, by its kind.
abbrev pub IsCaptured : FrameBuffer → Type 0
IsCaptured f = (f.frame_kind ≡ stack_kind) ⊎ (f.frame_kind ≡ trigger_kind)

is_capture_frame_kind-IsCaptured :
    (f : FrameBuffer) → (is_capture_frame_kind f.frame_kind ≡ true) ↔ IsCaptured f
is_capture_frame_kind-IsCaptured f = ground arith

-- The frame kind of a capture's frames.
abbrev pub kind_number : CaptureKind → ℕ
kind_number stack = stack_kind
kind_number trigger = trigger_kind

is_kind-kind_number :
    (kind : CaptureKind) (f : FrameBuffer)
    → IsCaptured f
    → (is_kind (kind_of_frame f) kind ≡ true) ↔ (f.frame_kind ≡ kind_number kind)
is_kind-kind_number stack f h = ground arith
is_kind-kind_number trigger f h = ground arith

module _ {J : Type 0} where
  -- A capture frame that the current capture waits for: the capture is acked, the frame is of its kind
  -- and of the low 16 bits of its id, and fewer frames were counted than the ack has entries.
  abbrev pub IsAwaited : FrameBuffer → Captures J → Type 0
  IsAwaited f c =
      (c.capture_acked ≡ true)
      × ((f.frame_kind ≡ kind_number c.capture_kind)
          × ((f.capture_id ≡ c.capture_id % 2 ^ 16)
              × (c.capture_received < length c.capture_entries)))

  is_expected-IsAwaited :
      (json : JsonOps J) (f : FrameBuffer) (c : Captures J)
      → IsCaptured f
      → (is_expected json f c ≡ true) ↔ IsAwaited f c
  unfolding is_expected
  is_expected-IsAwaited json f c h =
      let (kind_to, kind_from) = is_kind-kind_number c.capture_kind f h in
      (
        λ e. (
          ground (arith, e),
          (kind_to (ground (arith, e)), (ground (arith, e), ground (arith, e))),
        ),
        λ a.
            rw (a.0, kind_from a.1.0, (==_iff f.capture_id (c.capture_id % 2 ^ 16)).1 a.1.1.0)
              ground (arith, a.1.1.1),
      )

module _ {J : Type 0} (json : JsonOps J) (camera_of : J → ℕ) where
  -- With every callback set, and entries whose camera can be read: a frame that was put together goes
  -- to one callback, once, with the region that the connection
  -- knows: a live frame to the one for frames, and the captures stay as they are; a frame that the
  -- current capture waits for, by its kind, its id and the number still to come, to the one for
  -- captures with its camera's entry, and is counted; any other capture frame to that one with null,
  -- and is not counted.
  pub on_assembled_lem :
      (f : FrameBuffer) (c : Connection J)
      → Readable json camera_of c.captures.capture_entries
      → let g = stamped f c.focus_fom_region in
        let outcome = on_assembled json all_set f c in
        (¬ IsCaptured f → outcome ≡ record { threw = false; events = frame g ∷ []; conn = c })
        × ((IsCaptured f
              → IsAwaited f c.captures
              → outcome ≡ record {
                threw = false;
                events =
                    capture_frame g (entry_of json camera_of c.captures.capture_entries f.camera_id)
                    ∷ [];
                conn = record c {
                  captures = record c.captures {
                    capture_received = c.captures.capture_received + 1;
                  };
                };
              })
            × (IsCaptured f
                → ¬ IsAwaited f c.captures
                → outcome
                  ≡ record { threw = false; events = capture_frame g json.null ∷ []; conn = c }))
  unfolding on_assembled match_frame attempt
  on_assembled_lem f c r =
      let g = stamped f c.focus_fom_region in
      let (captured_to, captured_from) = is_capture_frame_kind-IsCaptured f in
      let awaits = is_expected-IsAwaited json g c.captures in
      (
        λ live. elim (Bool-cases (is_capture_frame_kind f.frame_kind)) [
          | inl capture ↦ absurd (live (captured_to capture))
          | inr e ↦ rw e refl
        ],
        (
          λ capture awaited.
              rw
                (
                  captured_from capture,
                  (awaits capture).1 awaited,
                  find_entry-entry_of json camera_of f.camera_id _ r,
                )
                refl,
          λ capture other. elim (Bool-cases (is_expected json g c.captures)) [
            | inl awaited ↦ absurd (other ((awaits capture).0 awaited))
            | inr e ↦ rw (captured_from capture, e) refl
          ],
        ),
      )
