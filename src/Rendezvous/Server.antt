-- ===== src/Rendezvous/Server.antt =====
-- What the reports of one server make of its entry, whatever the other servers report in between.
use telefacet.Shared.{
  ℕ, ◌+◌, ◌%◌, ◌^◌, ◌≤◌, ◌==◌, ==_iff, leb, ◌≡◌, refl, ap, sym, ◌∙◌, inl, inr, true, false, not,
  ◌||◌, Bool-cases, Option-cases, List, [], ◌∷◌, ◌++◌, Option, none, some, arith, length,
  length-append, All, All-append, lookup, lookup-insert, if◌then◌else◌,
}
use telefacet.Captures.{CaptureKind, trigger, stack, is_kind, kind_of_frame}
use telefacet.Captures.Matching.{IsFrameOf}
use telefacet.Messages.{is_empty_text}
use telefacet.Rendezvous.{
  Pending, Rendezvous, Report, result, refused, frame, fresh_pending, on_report, on_capture,
  on_captures,
}

pub same_kind : (a b : CaptureKind) → is_kind a b ≡ true → a ≡ b
same_kind trigger trigger e = refl
same_kind trigger stack e = cc
same_kind stack trigger e = cc
same_kind stack stack e = refl

module _ {J : Type 0} where
  -- The reports of one server.
  abbrev pub reports_of : ℕ → List (ℕ × Report J) → List (Report J)
  reports_of server [] = []
  reports_of server ((s, report) ∷ rest) =
      let later = reports_of server rest in if s == server then report ∷ later else later

  abbrev pub on_reports : CaptureKind → List (Report J) → Pending J → Pending J
  on_reports kind [] p = p
  on_reports kind (report ∷ rest) p = on_reports kind rest (on_report kind report p)

  abbrev pub in_entry : (Pending J → Pending J) → Option (Pending J) → Option (Pending J)
  in_entry f none = none
  in_entry f (some p) = some (f p)

  -- A capture under way: what a report leaves alone.
  abbrev pub IsUnderWay : CaptureKind → Rendezvous J → Type 0
  IsUnderWay kind r = (r.capture_active ≡ true) × (r.capture_kind ≡ kind)

  pub on_capture-IsUnderWay :
      (kind : CaptureKind) (server : ℕ) (report : Report J) (r : Rendezvous J)
      → IsUnderWay kind r
      → IsUnderWay kind (on_capture server report r)
  unfolding on_capture
  on_capture-IsUnderWay kind server report r h =
      elim (Option-cases (lookup server r.capture_pending)) [
        | inl e ↦ rw (e, on_capture) h
        | inr (p, e) ↦ rw (e, h.0, on_capture) (refl, h.1)
      ]

  lookup-on_capture :
      (kind : CaptureKind) (i server : ℕ) (report : Report J) (r : Rendezvous J)
      → IsUnderWay kind r
      → lookup i (on_capture server report r).capture_pending ≡ (
          if server == i
          then in_entry (on_report kind report) (lookup i r.capture_pending)
          else lookup i r.capture_pending)
  unfolding on_capture
  lookup-on_capture kind i server report r h =
      elim (Option-cases (lookup server r.capture_pending)) [
        | inl e ↦ elim (Bool-cases (server == i)) [
          | inl hit ↦
              let same : server ≡ i = (==_iff server i).0 hit in
              let gone : lookup i r.capture_pending ≡ none =
                ap (λ k. lookup k r.capture_pending) (sym same) ∙ e in
              rw (e, on_capture, hit, gone) refl
          | inr miss ↦ rw (e, on_capture, miss) refl
        ]
        | inr (p, e) ↦
            let written : lookup i (on_capture server report r).capture_pending ≡ (
                if server == i
                then some (on_report kind report p)
                else lookup i r.capture_pending) =
              rw (e, h.0, h.1, on_capture)
                (lookup-insert server i (on_report kind report p) r.capture_pending) in
            written ∙ elim (Bool-cases (server == i)) [
              | inl hit ↦
                  let same : server ≡ i = (==_iff server i).0 hit in
                  let there : lookup i r.capture_pending ≡ some p =
                    ap (λ k. lookup k r.capture_pending) (sym same) ∙ e in
                  rw (hit, there) refl
              | inr miss ↦ rw miss refl
            ]
      ]

  -- The entry of a server depends on its own reports only.
  pub lookup-on_captures :
      (kind : CaptureKind) (i : ℕ) (reports : List (ℕ × Report J)) (r : Rendezvous J)
      → IsUnderWay kind r
      → lookup i (on_captures reports r).capture_pending
        ≡ in_entry (on_reports kind (reports_of i reports)) (lookup i r.capture_pending)
  unfolding on_captures
  lookup-on_captures kind i [] r h = elim (Option-cases (lookup i r.capture_pending)) [
    | inl e ↦ rw e refl
    | inr (p, e) ↦ rw e refl
  ]
  lookup-on_captures kind i ((server, report) ∷ rest) r h =
      lookup-on_captures kind i rest (on_capture server report r)
        (on_capture-IsUnderWay kind server report r h)
      ∙ ap (in_entry (on_reports kind (reports_of i rest)))
          (lookup-on_capture kind i server report r h)
      ∙ elim (Bool-cases (server == i)) [
        | inl hit ↦ elim (Option-cases (lookup i r.capture_pending)) [
          | inl e ↦ rw (hit, e) refl
          | inr (p, e) ↦ rw (hit, e) refl
        ]
        | inr miss ↦ rw miss refl
      ]

  -- An entry between two reports: frames come after the ack, no more than it announced, and all of
  -- the capture; a server is done without an ack only if it refused.
  pub record IsPending (kind : CaptureKind) (p : Pending J) : Type 0 where
    pub unacked : p.acked ≡ false → p.frames ≡ []
    pub refusal_only : p.acked ≡ false → p.done ≡ true → is_empty_text p.refusal ≡ false
    pub announced : p.acked ≡ true → length p.frames ≤ p.expected
    pub finished : p.acked ≡ true → p.done ≡ leb p.expected (length p.frames)
    pub matching : All (IsFrameOf kind p.id) p.frames

  -- A refusal has a message: only a message that names the capture is taken for one.
  abbrev pub HasMessage : Report J → Type 0
  HasMessage (result kind id expected tr sr) = Unit {0}
  HasMessage (refused kind message) = is_empty_text message ≡ false
  HasMessage (frame f) = Unit {0}

  pub fresh_pending-IsPending : (kind : CaptureKind) → IsPending kind fresh_pending
  fresh_pending-IsPending kind = record {
    unacked = λ e. refl;
    refusal_only = λ e d. cc;
    announced = λ e. cc;
    finished = λ e. cc;
    matching = tt;
  }

  pub on_report-IsPending :
      (kind : CaptureKind) (report : Report J) (p : Pending J)
      → HasMessage report
      → IsPending kind p
      → IsPending kind (on_report kind report p)
  unfolding on_report
  on_report-IsPending kind (result k id expected tr sr) p m h =
      elim (Bool-cases (not (is_kind k kind) || p.acked)) [
        | inl skip ↦ rw skip h
        | inr go ↦
            let waiting : p.acked ≡ false = ground (arith, go) in
            let empty : p.frames ≡ [] = h.unacked waiting in
            rw go (record {
              unacked = λ e. cc;
              refusal_only = λ e. cc;
              announced = λ e. rw empty (omega arith);
              finished = λ e. rw empty (ground arith);
              matching = rw empty tt;
            })
      ]
  on_report-IsPending kind (refused k message) p m h =
      elim (Bool-cases (not (is_kind k kind) || p.acked)) [
        | inl skip ↦ rw skip h
        | inr go ↦
            let waiting : p.acked ≡ false = ground (arith, go) in
            rw go (record {
              unacked = h.unacked;
              refusal_only = λ e d. m;
              announced = h.announced;
              finished = λ e. ground (arith, waiting, e);
              matching = h.matching;
            })
      ]
  on_report-IsPending kind (frame f) p m h =
      elim (Bool-cases (not (is_kind (kind_of_frame f) kind) || (not p.acked || p.done))) [
        | inl skip ↦ rw skip h
        | inr go ↦ elim (Bool-cases (f.capture_id == p.id % 2 ^ 16)) [
          | inr other ↦ rw (go, other) h
          | inl ours ↦
              let acked : p.acked ≡ true = ground (arith, go) in
              let right_kind : is_kind (kind_of_frame f) kind ≡ true = ground (arith, go) in
              let going : p.done ≡ false = ground (arith, go) in
              let room : leb p.expected (length p.frames) ≡ false =
                sym (h.finished acked) ∙ going in
              let count : length (p.frames ++ f ∷ []) ≡ length p.frames + 1 =
                length-append p.frames (f ∷ []) in
              let mine : IsFrameOf kind p.id f = (
                same_kind (kind_of_frame f) kind right_kind,
                (==_iff f.capture_id (p.id % 2 ^ 16)).0 ours,
              ) in
              rw (go, ours)
                (record {
                  unacked = λ e. ground (arith, acked, e);
                  refusal_only = λ e. ground (arith, acked, e);
                  announced = λ e. ground (arith, room, count);
                  finished = λ e. refl;
                  matching =
                      All-append (IsFrameOf kind p.id) p.frames (f ∷ []) h.matching (mine, tt);
                })
        ]
      ]
