-- ===== src/Rendezvous/Heard.antt =====
-- What the entry of an acked server holds, in terms of what the server reported.
use telefacet.Shared.{
  ℕ, zero, suc, ◌+◌, ◌%◌, ◌^◌, ◌==◌, leb, Bool, true, false, not, ◌&&◌, Bool-cases, List, [], ◌∷◌,
  ◌++◌, append_assoc, append-nil, Option, none, some, length, length-append, All, ◌≡◌, ◌≢◌, refl,
  ap, ap₂, sym, subst, ◌∙◌, inl, inr, arith, if◌then◌else◌,
}
use telefacet.Frame.{FrameBuffer}
use telefacet.Wire.{stack_kind}
use telefacet.Captures.{CaptureKind, trigger, stack, is_kind, kind_of_frame}
use telefacet.Captures.Matching.{is_kind_self}
use telefacet.Messages.{TriggerResult, StackResult}
use telefacet.Rendezvous.{
  Pending, Report, result, refused, frame, keep_result, note_result, note_frame, on_report,
}
use telefacet.Rendezvous.Server.{same_kind, on_reports}
use telefacet.Rendezvous.Progress.{on_reports_settled}

-- The first `n` elements, or all if there are fewer.
abbrev pub take : {A : Type 0} → ℕ → List A → List A
take zero l = []
take (suc n) [] = []
take (suc n) (a ∷ rest) = a ∷ take n rest

abbrev pub is_of_kind : CaptureKind → FrameBuffer → Bool
is_of_kind stack f = f.frame_kind == stack_kind
is_of_kind trigger f = not (f.frame_kind == stack_kind)

-- A frame of the capture: its kind, and the low 16 bits of its id.
abbrev pub is_mine : CaptureKind → ℕ → FrameBuffer → Bool
is_mine kind id f = is_of_kind kind f && f.capture_id == id % 2 ^ 16

is_of_kind_lem :
    (kind : CaptureKind) (f : FrameBuffer) → is_kind (kind_of_frame f) kind ≡ is_of_kind kind f
is_of_kind_lem stack f = ground arith
is_of_kind_lem trigger f = ground arith

keep_result-none : {A : Type 0} (new old : Option A) → old ≡ none → keep_result new old ≡ new
keep_result-none none old e = e
keep_result-none (some a) old e = refl

module _ {J : Type 0} where
  -- The frames of the capture among the reports, in order.
  abbrev pub frames_in : CaptureKind → ℕ → List (Report J) → List FrameBuffer
  frames_in kind id [] = []
  frames_in kind id (result k i expected tr sr ∷ rest) = frames_in kind id rest
  frames_in kind id (refused k message ∷ rest) = frames_in kind id rest
  frames_in kind id (frame f ∷ rest) =
      let later = frames_in kind id rest in if is_mine kind id f then f ∷ later else later

  -- A report that is no result of the kind.
  abbrev pub IsNoResult : CaptureKind → Report J → Type 0
  IsNoResult kind (result k id expected tr sr) = k ≢ kind
  IsNoResult kind (refused k message) = Unit {0}
  IsNoResult kind (frame f) = Unit {0}

  -- The entry holds what the server's reports say: the first result of the kind, with its id, the
  -- number of frames that it announces and its data, and of the frames of that capture after it the
  -- first ones, in order and as many as announced.
  pub record IsHeard (kind : CaptureKind) (reports : List (Report J)) (p : Pending J) : Type 0 where
    pub before : List (Report J)
    pub after : List (Report J)
    pub reported :
        reports ≡ before ++ result kind p.id p.expected p.trigger_result p.stack_result ∷ after
    pub first : All (IsNoResult kind) before
    pub frames : p.frames ≡ take p.expected (frames_in kind p.id after)

  abbrev with_frames : List FrameBuffer → Pending J → Pending J
  with_frames l q = record q { frames = l; done = leb q.expected (length l) }

  acked_result :
      (kind k : CaptureKind) (id expected : ℕ) (tr : Option (TriggerResult J))
      (sr : Option (StackResult J)) (q : Pending J)
      → q.acked ≡ true
      → on_report kind (result k id expected tr sr) q ≡ q
  unfolding on_report
  acked_result kind k id expected tr sr q a = ground arith

  -- The reports after the ack.
  on_reports-after :
      (kind : CaptureKind) (after : List (Report J)) (room : ℕ) (q : Pending J)
      → q.acked ≡ true
      → q.done ≡ leb q.expected (length q.frames)
      → room + length q.frames ≡ q.expected
      → on_reports kind after q ≡ with_frames (q.frames ++ take room (frames_in kind q.id after)) q
  unfolding on_report
  on_reports-after kind after zero q a d n =
      on_reports_settled kind after q a (d ∙ ground (arith, n))
      ∙ rw append-nil (ap (λ b. record q { done = b }) d)
  on_reports-after kind [] (suc room) q a d n = rw append-nil (ap (λ b. record q { done = b }) d)
  on_reports-after kind (result k id expected tr sr ∷ rest) (suc room) q a d n =
      rw (acked_result kind k id expected tr sr q a) (on_reports-after kind rest (suc room) q a d n)
  on_reports-after kind (refused k message ∷ rest) (suc room) q a d n =
      let same : on_report kind (refused k message) q ≡ q = ground arith in
      rw same (on_reports-after kind rest (suc room) q a d n)
  on_reports-after kind (frame f ∷ rest) (suc room) q a d n =
      let going : q.done ≡ false = ground (arith, d, n) in
      let kinds = is_of_kind_lem kind f in
      elim (Bool-cases (is_mine kind q.id f)) [
        | inr other ↦
            let same : on_report kind (frame f) q ≡ q = ground (arith, kinds, other, a) in
            rw (same, other) (on_reports-after kind rest (suc room) q a d n)
        | inl mine ↦
            let right_kind : is_kind (kind_of_frame f) kind ≡ true = kinds ∙ ground (arith, mine) in
            let right_id : (f.capture_id == q.id % 2 ^ 16) ≡ true = ground (arith, mine) in
            let taken : on_report kind (frame f) q ≡ note_frame f q =
              rw (right_kind, a, going, right_id) refl in
            let one_more : length (q.frames ++ f ∷ []) ≡ length q.frames + 1 =
              length-append q.frames (f ∷ []) in
            let later = frames_in kind q.id rest in
            rw (taken, mine)
              (on_reports-after kind rest room (note_frame f q) a refl (omega (arith, n, one_more))
                ∙ ap (λ l. with_frames l q) (append_assoc q.frames (f ∷ []) (take room later)))
      ]

  IsHeard-later :
      (kind : CaptureKind) (x : Report J) (rest : List (Report J)) (q : Pending J)
      → IsNoResult kind x
      → IsHeard kind rest q
      → IsHeard kind (x ∷ rest) q
  IsHeard-later kind x rest q n h = record {
    before = x ∷ h.before;
    after = h.after;
    reported = ap (◌∷◌ x) h.reported;
    first = (n, h.first);
    frames = h.frames;
  }

  -- An entry without an ack, which holds nothing.
  abbrev IsUnacked : Pending J → Type 0
  IsUnacked p =
      (p.acked ≡ false) × ((p.frames ≡ []) × ((p.trigger_result ≡ none) × (p.stack_result ≡ none)))

  on_reports-ack :
      (kind : CaptureKind) (id expected : ℕ) (tr : Option (TriggerResult J))
      (sr : Option (StackResult J)) (rest : List (Report J)) (p : Pending J)
      → IsUnacked p
      → IsHeard kind
          (result kind id expected tr sr ∷ rest)
          (on_reports kind rest (note_result id expected tr sr p))
  on_reports-ack kind id expected tr sr rest p u =
      let q = note_result id expected tr sr p in
      let none_yet : q.done ≡ leb q.expected (length q.frames) = rw (u.1.0) ground arith in
      let all = on_reports-after kind rest expected q refl none_yet (rw (u.1.0) omega arith) in
      let end = with_frames (q.frames ++ take expected (frames_in kind id rest)) q in
      let heard : IsHeard kind (result kind id expected tr sr ∷ rest) end = record {
        before = [];
        after = rest;
        reported =
            ap₂ (λ t s. result kind id expected t s ∷ rest)
              (sym (keep_result-none tr p.trigger_result u.1.1.0))
              (sym (keep_result-none sr p.stack_result u.1.1.1));
        first = tt;
        frames = ap (λ l. l ++ take expected (frames_in kind id rest)) u.1.0;
      } in
      subst (IsHeard kind (result kind id expected tr sr ∷ rest)) (sym all) heard

  pub on_reports-IsHeard :
      (kind : CaptureKind) (reports : List (Report J)) (p : Pending J)
      → IsUnacked p
      → (on_reports kind reports p).acked ≡ true
      → IsHeard kind reports (on_reports kind reports p)
  unfolding on_report
  on_reports-IsHeard kind [] p u a = ground (arith, a, u)
  on_reports-IsHeard kind (result k id expected tr sr ∷ rest) p u a =
      elim (Bool-cases (is_kind k kind)) [
        | inl hit ↦
            let first : on_report kind (result k id expected tr sr) p
                ≡ note_result id expected tr sr p =
              rw (hit, u.0) refl in
            subst
              (λ j.
                IsHeard kind (result j id expected tr sr ∷ rest)
                  (on_reports kind (result k id expected tr sr ∷ rest) p))
              (sym (same_kind k kind hit))
              (rw first (on_reports-ack kind id expected tr sr rest p u))
        | inr miss ↦
            let same : on_report kind (result k id expected tr sr) p ≡ p = ground (arith, miss) in
            let other : k ≢ kind = λ e.
              ground
                (arith, miss, subst (λ j. is_kind j kind ≡ true) (sym e) (is_kind_self kind)) in
            rw same (
              IsHeard-later kind (result k id expected tr sr) rest _ other (
                on_reports-IsHeard kind rest p u
                  (subst (λ (x : Pending J). (on_reports kind rest x).acked ≡ true) same a)))
      ]
  on_reports-IsHeard kind (refused k message ∷ rest) p u a =
      let still : IsUnacked (on_report kind (refused k message) p) =
        elim (Bool-cases (is_kind k kind)) [
          | inl hit ↦ rw (hit, u.0) (refl, u.1)
          | inr miss ↦ rw miss u
        ] in
      IsHeard-later kind (refused k message) rest _ tt
        (on_reports-IsHeard kind rest (on_report kind (refused k message) p) still a)
  on_reports-IsHeard kind (frame f ∷ rest) p u a =
      let same : on_report kind (frame f) p ≡ p = ground (arith, u.0) in
      rw same (
        IsHeard-later kind (frame f) rest _ tt (
          on_reports-IsHeard kind rest p u
            (subst (λ (x : Pending J). (on_reports kind rest x).acked ≡ true) same a)))
