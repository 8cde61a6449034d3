-- ===== src/Rendezvous/Progress.antt =====
-- A server that acks a capture and sends all its frames is done, whenever the wait looks.
use mathlib.Core.List.{flatten}
use telefacet.Shared.{
  ℕ, ◌+◌, ◌%◌, ◌^◌, ◌≤◌, ◌≡◌, refl, ap, sym, subst, ◌∙◌, inl, inr, true, false, ◌==◌, ==_iff, leb,
  Bool-cases, List, [], ◌∷◌, ◌++◌, append_assoc, append-nil, Option, some, arith, length,
  length-append, All, lookup, map,
}
use telefacet.Frame.{FrameBuffer}
use telefacet.Captures.{CaptureKind}
use telefacet.Captures.Matching.{IsFrameOf, is_kind_self}
use telefacet.Messages.{TriggerResult, StackResult}
use telefacet.Rendezvous.{
  Pending, Rendezvous, Report, result, refused, frame, fresh_pending, note_result, note_frame,
  on_report, on_captures, all_done, await,
}
use telefacet.Rendezvous.Server.{
  IsUnderWay, on_capture-IsUnderWay, reports_of, on_reports, in_entry, lookup-on_captures,
}

abbrev pub IsNotRefusal : {J : Type 0} → Report J → Type 0
IsNotRefusal (result kind id expected tr sr) = Unit {0}
IsNotRefusal (refused kind message) = ⊥
IsNotRefusal (frame f) = Unit {0}

frames_are_no_refusals :
    (J : Type 0) (fs : List FrameBuffer) → All (IsNotRefusal {J = J}) (map frame fs)
frames_are_no_refusals J [] = tt
frames_are_no_refusals J (f ∷ rest) = (tt, frames_are_no_refusals J rest)

module _ {J : Type 0} where
  -- The server has not refused, so that it is done only by its frames.
  abbrev pub IsClean : Pending J → Type 0
  IsClean p = (p.refusal ≡ []) × (p.done ≡ true → p.acked ≡ true)

  on_report-IsClean :
      (kind : CaptureKind) (report : Report J) (p : Pending J)
      → IsNotRefusal report
      → IsClean p
      → IsClean (on_report kind report p)
  unfolding on_report
  on_report-IsClean kind (result k id expected tr sr) p n h = ground arith
  on_report-IsClean kind (refused k message) p n h = absurd n
  on_report-IsClean kind (frame f) p n h = ground arith

  pub on_reports-IsClean :
      (kind : CaptureKind) (reports : List (Report J)) (p : Pending J)
      → All IsNotRefusal reports
      → IsClean p
      → IsClean (on_reports kind reports p)
  on_reports-IsClean kind [] p n h = h
  on_reports-IsClean kind (report ∷ rest) p n h =
      on_reports-IsClean kind rest (on_report kind report p) n.1
        (on_report-IsClean kind report p n.0 h)

  -- Once its frames are there, no report changes the entry.
  on_report_settled :
      (kind : CaptureKind) (report : Report J) (p : Pending J)
      → p.acked ≡ true
      → p.done ≡ true
      → on_report kind report p ≡ p
  unfolding on_report
  on_report_settled kind (result k id expected tr sr) p a d = ground arith
  on_report_settled kind (refused k message) p a d = ground arith
  on_report_settled kind (frame f) p a d = ground arith

  pub on_reports_settled :
      (kind : CaptureKind) (reports : List (Report J)) (p : Pending J)
      → p.acked ≡ true
      → p.done ≡ true
      → on_reports kind reports p ≡ p
  on_reports_settled kind [] p a d = refl
  on_reports_settled kind (report ∷ rest) p a d =
      rw (on_report_settled kind report p a d) (on_reports_settled kind rest p a d)

  pub on_reports-append :
      (kind : CaptureKind) (xs ys : List (Report J)) (p : Pending J)
      → on_reports kind (xs ++ ys) p ≡ on_reports kind ys (on_reports kind xs p)
  on_reports-append kind [] ys p = refl
  on_reports-append kind (x ∷ xs) ys p = on_reports-append kind xs ys (on_report kind x p)

  pub reports_of-append :
      (i : ℕ) (xs ys : List (ℕ × Report J))
      → reports_of i (xs ++ ys) ≡ reports_of i xs ++ reports_of i ys
  reports_of-append i [] ys = refl
  reports_of-append i ((s, x) ∷ xs) ys = ground (arith, reports_of-append i xs ys)

  -- The frames of a capture, after its ack.
  on_reports-frames :
      (kind : CaptureKind) (fs : List FrameBuffer) (p : Pending J)
      → p.acked ≡ true
      → p.done ≡ leb p.expected (length p.frames)
      → All (IsFrameOf kind p.id) fs
      → length p.frames + length fs ≤ p.expected
      → on_reports kind (map frame fs) p
        ≡ record p { frames = p.frames ++ fs; done = leb p.expected (length (p.frames ++ fs)) }
  unfolding on_report
  on_reports-frames kind [] p a d h n = rw append-nil (ap (λ b. record p { done = b }) d)
  on_reports-frames kind (f ∷ rest) p a d h n =
      let going : p.done ≡ false = ground (arith, d, n) in
      let one_more : length (p.frames ++ f ∷ []) ≡ length p.frames + 1 =
        length-append p.frames (f ∷ []) in
      let taken : on_report kind (frame f) p ≡ note_frame f p =
        rw (h.0.0, is_kind_self kind, a, going, (==_iff f.capture_id (p.id % 2 ^ 16)).1 h.0.1)
          refl in
      ap (on_reports kind (map frame rest)) taken
      ∙ on_reports-frames kind rest (note_frame f p) a refl h.1 (omega arith)
      ∙ ap (λ l. record p { frames = l; done = leb p.expected (length l) })
          (append_assoc p.frames (f ∷ []) rest)

  -- What a server reports of a capture that it takes: the ack, and as many frames as the ack says.
  pub record Script (kind : CaptureKind) (reports : List (Report J)) : Type 0 where
    pub id : ℕ
    pub trigger_result : Option (TriggerResult J)
    pub stack_result : Option (StackResult J)
    pub frames : List FrameBuffer
    pub reported :
        reports ≡ result kind id (length frames) trigger_result stack_result ∷ map frame frames
    pub matching : All (IsFrameOf kind id) frames

  pub on_reports-Script :
      (kind : CaptureKind) (reports : List (Report J)) (script : Script kind reports)
      → let p = on_reports kind reports fresh_pending in
        (p.done ≡ true) × (p.frames ≡ script.frames)
  unfolding on_report
  on_reports-Script kind reports script =
      let count = length script.frames in
      let q : Pending J =
        note_result script.id count script.trigger_result script.stack_result fresh_pending in
      let acked : on_report kind
            (result kind script.id count script.trigger_result script.stack_result) fresh_pending
          ≡ q =
        rw (is_kind_self kind) refl in
      let none_yet : (count == 0) ≡ leb count 0 = ground arith in
      let all : on_reports kind reports fresh_pending
          ≡ record q { frames = script.frames; done = leb count count } =
        ap (λ l. on_reports kind l fresh_pending) script.reported
        ∙ ap (on_reports kind (map frame script.frames)) acked
        ∙ on_reports-frames kind script.frames q refl none_yet script.matching (omega arith) in
      (ap (λ (p : Pending J). p.done) all ∙ ground arith, ap (λ (p : Pending J). p.frames) all)

  pub Script-clean :
      (kind : CaptureKind) (reports : List (Report J))
      → Script kind reports
      → All IsNotRefusal reports
  Script-clean kind reports script =
      subst (All IsNotRefusal) (sym script.reported) (tt, frames_are_no_refusals J script.frames)

  pub All-append_left :
      (P : Report J → Type 0) (xs ys : List (Report J)) → All P (xs ++ ys) → All P xs
  All-append_left P [] ys h = tt
  All-append_left P (x ∷ xs) ys h = (h.0, All-append_left P xs ys h.1)

  pub All-append_right :
      (P : Report J → Type 0) (xs ys : List (Report J)) → All P (xs ++ ys) → All P ys
  All-append_right P [] ys h = h
  All-append_right P (x ∷ xs) ys h = All-append_right P xs ys h.1

  all_done-lookup :
      (i : ℕ) (m : List (ℕ × Pending J)) (p : Pending J)
      → all_done m ≡ true
      → lookup i m ≡ some p
      → p.done ≡ true
  unfolding all_done
  all_done-lookup i [] p d e = cc
  all_done-lookup i ((k, q) ∷ m) p d e = elim (Bool-cases (k == i)) [
    | inl hit ↦ ground (arith, hit, e, d)
    | inr miss ↦ all_done-lookup i m p (ground (arith, d)) (rw miss at e)
  ]

  pub on_captures-IsUnderWay :
      (kind : CaptureKind) (reports : List (ℕ × Report J)) (r : Rendezvous J)
      → IsUnderWay kind r
      → IsUnderWay kind (on_captures reports r)
  unfolding on_captures
  on_captures-IsUnderWay kind [] r h = h
  on_captures-IsUnderWay kind ((server, report) ∷ rest) r h =
      on_captures-IsUnderWay kind rest _ (on_capture-IsUnderWay kind server report r h)

  -- The wait may stop before all reports are handled, but then those that are left change nothing.
  pub lookup-await :
      (kind : CaptureKind) (i : ℕ) (late : List (List (ℕ × Report J))) (r : Rendezvous J)
      (p : Pending J)
      → IsUnderWay kind r
      → lookup i r.capture_pending ≡ some p
      → IsClean p
      → All IsNotRefusal (reports_of i (flatten late))
      → lookup i (await late r).1.capture_pending
        ≡ some (on_reports kind (reports_of i (flatten late)) p)
  unfolding await flatten
  lookup-await kind i [] r p u e h n = e
  lookup-await kind i (batch ∷ rest) r p u e h n =
      let parts = reports_of-append i batch (flatten rest) in
      let n' = subst (All IsNotRefusal) parts n in
      elim (Bool-cases (all_done r.capture_pending)) [
        | inl over ↦
            let done = all_done-lookup i r.capture_pending p over e in
            rw (over, await)
              (e
                ∙ ap some (
                    sym (
                      on_reports_settled kind (reports_of i (batch ++ flatten rest)) p (h.1 done)
                        done)))
        | inr going ↦
            let q = on_reports kind (reports_of i batch) p in
            let there : lookup i (on_captures batch r).capture_pending ≡ some q =
              lookup-on_captures kind i batch r u
              ∙ ap (in_entry (on_reports kind (reports_of i batch))) e in
            rw (going, await)
              (lookup-await kind i rest (on_captures batch r) q
                  (on_captures-IsUnderWay kind batch r u) there
                  (on_reports-IsClean kind (reports_of i batch) p
                    (All-append_left IsNotRefusal _ _ n') h)
                  (All-append_right IsNotRefusal _ _ n')
                ∙ ap some (
                    sym
                      (on_reports-append kind (reports_of i batch) (reports_of i (flatten rest)) p)
                    ∙ ap (λ l. on_reports kind l p) (sym parts)))
      ]
