-- ===== src/Captures/Cycle.antt =====
-- A capture from its request to its last frame, and what a refusal does to the requests.
use telefacet.Shared.{
  ℕ, ◌≤◌, ltb, ◌≡◌, refl, ap, ◌∙◌, inl, inr, true, false, Bool-cases, List, [], ◌∷◌, ◌++◌, map,
  some, arith, length, All, Text,
}
use telefacet.Frame.{FrameBuffer}
use telefacet.Json.{JsonOps}
use telefacet.Captures.{
  CaptureKind, trigger, stack, Captures, erase_first, erase_last, has_kind,
  looks_like_capture_refusal, refuse, note_capture_requested, note_capture_acked,
  send_capture_request, is_receiving, capture_progress,
}
use telefacet.Captures.Matching.{
  IsFrameOf, is_kind_self, match_all, Readable, entry_of, match_all_lem,
}

-- No capture is asked for or under way.
abbrev pub Idle : {J : Type 0} → Captures J → Type 0
Idle c = (c.capture_requests ≡ []) × (is_receiving c ≡ false)

erase_last-append :
    (kind : CaptureKind) (ks : List CaptureKind) → erase_last kind (ks ++ kind ∷ []) ≡ ks
unfolding erase_last has_kind
erase_last-append kind [] = rw (is_kind_self kind) refl
erase_last-append kind (k ∷ rest) = rw (has_kind-append kind rest, erase_last-append kind rest) refl
  where
    has_kind-append : (j : CaptureKind) (js : List CaptureKind) → has_kind j (js ++ j ∷ []) ≡ true
    has_kind-append j [] = rw (is_kind_self j) refl
    has_kind-append j (i ∷ js) = rw (has_kind-append j js) (ground arith)

module _ {J : Type 0} where
  -- A request is in progress from when it is noted, in its kind and without an ack. When the server
  -- refuses it there is nothing in progress again.
  pub refused_cycle :
      (kind : CaptureKind) (message : Text) (c : Captures J)
      → Idle c
      → looks_like_capture_refusal message ≡ true
      → let requested = note_capture_requested kind c in
        let (refused, c') = refuse message requested in
        (capture_progress requested ≡ record {
          in_progress = true;
          acked = false;
          kind = kind;
          id = 0;
          expected = 0;
          received = 0;
        })
        × (refused ≡ some kind)
        × Idle c'
        × ((capture_progress c').in_progress ≡ false)
        × (c'.last_capture_refusal ≡ message)
  unfolding note_capture_requested refuse capture_progress is_receiving
  refused_cycle kind message c (no_request, at_rest) wording =
      rw (no_request, wording, at_rest)
        (
          refl,
          refl,
          (refl, refl),
          elim (Bool-cases c.capture_acked) [ inl e ↦ rw e refl | inr e ↦ rw e refl ],
          refl,
        )

  -- A request that could not be sent is withdrawn: the captures are as they were, if no message of
  -- the server was handled meanwhile.
  pub send_capture_request-fails :
      (kind : CaptureKind) (c : Captures J)
      → send_capture_request kind (λ c'. (false, c')) c ≡ (false, c)
  unfolding send_capture_request note_capture_requested
  send_capture_request-fails kind c =
      ap (λ ks. (false, record c { capture_requests = ks }))
        (erase_last-append kind c.capture_requests)

module _ {J : Type 0} (json : JsonOps J) (camera_of : J → ℕ) where
  -- The capture that an idle connection requested and the server acked is in progress until as many
  -- frames of it have arrived as the ack has entries: what `captureProgress` shows after each.
  pub acked_cycle :
      (kind : CaptureKind) (id : ℕ) (entries : List J) (frames : List FrameBuffer) (c : Captures J)
      → Idle c
      → Readable json camera_of entries
      → All (IsFrameOf kind id) frames
      → length frames ≤ length entries
      → (c' : Captures J) × (match_all json frames
            (note_capture_acked kind id entries (note_capture_requested kind c))
          ≡ some (map (λ f. entry_of json camera_of entries f.camera_id) frames, c'))
        × (capture_progress c' ≡ record {
          in_progress = ltb (length frames) (length entries);
          acked = true;
          kind = kind;
          id = id;
          expected = length entries;
          received = length frames;
        })
        × (c'.capture_requests ≡ [])
  unfolding note_capture_acked note_capture_requested capture_progress is_receiving erase_first
  acked_cycle kind id entries frames c (no_request, at_rest) r h n =
      let acked = note_capture_acked kind id entries (note_capture_requested kind c) in
      let only : erase_first kind (c.capture_requests ++ kind ∷ []) ≡ [] =
        rw (no_request, is_kind_self kind) refl in
      (
        record c {
          capture_requests = [];
          capture_acked = true;
          capture_kind = kind;
          capture_id = id;
          capture_entries = entries;
          capture_received = length frames;
        },
        match_all_lem json camera_of frames acked refl r h (omega arith)
            ∙ rw only (
                ap
                  (λ k. some (
                    map (λ f. entry_of json camera_of entries f.camera_id) frames,
                    record acked { capture_requests = []; capture_received = k },
                  ))
                  (omega arith)),
        elim (Bool-cases (ltb (length frames) (length entries))) [
          | inl e ↦ rw e refl
          | inr e ↦ rw e refl
        ],
        refl,
      )

  -- When a stack is asked for while a trigger is pending, and the server refuses the stack, the
  -- trigger is taken for the refused one: the request of the stack stays after the trigger's ack and
  -- all of its frames, and a capture is shown in progress still.
  pub refused_second :
      (id : ℕ) (message : Text) (entries : List J) (frames : List FrameBuffer) (c : Captures J)
      → Idle c
      → looks_like_capture_refusal message ≡ true
      → Readable json camera_of entries
      → All (IsFrameOf trigger id) frames
      → length frames ≡ length entries
      → let both = note_capture_requested stack (note_capture_requested trigger c) in
        let (refused, c') = refuse message both in
        (refused ≡ some trigger)
        × (c'' : Captures J) × (match_all json frames (note_capture_acked trigger id entries c')
            ≡ some (map (λ f. entry_of json camera_of entries f.camera_id) frames, c''))
        × (capture_progress c'' ≡ record {
          in_progress = true;
          acked = false;
          kind = stack;
          id = 0;
          expected = 0;
          received = 0;
        })
  unfolding note_capture_acked note_capture_requested capture_progress is_receiving erase_first
      refuse
  refused_second id message entries frames c (no_request, at_rest) wording r h n =
      let both = note_capture_requested stack (note_capture_requested trigger c) in
      let acked = note_capture_acked trigger id entries (refuse message both).1 in
      let after : Captures J = record c {
        capture_requests = stack ∷ [];
        capture_acked = true;
        capture_kind = trigger;
        capture_id = id;
        capture_entries = entries;
        capture_received = length frames;
        last_capture_refusal = message;
      } in
      let start : acked ≡ record after { capture_received = 0 } = rw (wording, no_request) refl in
      let done : ltb (length frames) (length entries) ≡ false = ground (arith, n) in
      (
        rw (wording, no_request) refl,
        after,
        ap (match_all json frames) start
            ∙ match_all_lem json camera_of frames (record after { capture_received = 0 }) refl r h
                (omega arith)
            ∙ ap
                (λ k. some (
                  map (λ f. entry_of json camera_of entries f.camera_id) frames,
                  record after { capture_received = k },
                ))
                (omega arith),
        rw done refl,
      )
