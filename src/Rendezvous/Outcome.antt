-- ===== src/Rendezvous/Outcome.antt =====
-- What holds of the entries of a capture, and what a complete one has of every server: its ack and frames.
use telefacet.Shared.{
  ℕ, ◌≡◌, refl, ap, sym, ◌∙◌, inl, inr, Bool, true, false, Bool-cases, Option-cases, List, [], ◌∷◌,
  some, arith, length, All, All-insert, All-lookup, lookup, insert, leb, if◌then◌else◌,
}
use telefacet.Captures.{CaptureKind}
use telefacet.Captures.Matching.{IsFrameOf}
use telefacet.Messages.{is_empty_text}
use telefacet.Rendezvous.{
  Pending, Rendezvous, Report, on_report, on_capture, on_captures, all_done, await, is_among,
  is_none_left, arm, keep_sent, list_refusals, run_capture, armed, prune, wait_for, finish_run,
}
use telefacet.Rendezvous.Server.{
  IsUnderWay, IsPending, HasMessage, on_capture-IsUnderWay, fresh_pending-IsPending,
  on_report-IsPending,
}

-- The connected servers that the request was sent to.
abbrev pub sent_of : List ℕ → List ℕ → List ℕ
sent_of sent [] = []
sent_of sent (k ∷ rest) =
    let later = sent_of sent rest in if is_among k sent then k ∷ later else later

module _ {J : Type 0} where
  abbrev pub keys : List (ℕ × Pending J) → List ℕ
  keys [] = []
  keys ((k, p) ∷ rest) = k ∷ keys rest

pub keys-arm : (J : Type 0) (connected : List ℕ) → keys (arm {J = J} connected) ≡ connected
unfolding arm
keys-arm J [] = refl
keys-arm J (k ∷ rest) = ap (λ l. k ∷ l) (keys-arm J rest)

arm-IsPending :
    (J : Type 0) (kind : CaptureKind) (connected : List ℕ)
    → All (λ e. IsPending kind e.1) (arm {J = J} connected)
unfolding arm
arm-IsPending J kind [] = tt
arm-IsPending J kind (k ∷ rest) = (fresh_pending-IsPending kind, arm-IsPending J kind rest)

module _ {J : Type 0} where
  pub keys-insert :
      (k : ℕ) (q p : Pending J) (m : List (ℕ × Pending J))
      → lookup k m ≡ some q
      → keys (insert k p m) ≡ keys m
  keys-insert k q p [] e = cc
  keys-insert k q p ((j, w) ∷ m) e = ground (arith, keys-insert k q p m)

  -- What holds of the entries while a capture of the kind is under way.
  pub record IsGoing (kind : CaptureKind) (ks : List ℕ) (r : Rendezvous J) : Type 0 where
    pub under_way : IsUnderWay kind r
    pub servers : keys r.capture_pending ≡ ks
    pub entries : All (λ e. IsPending kind e.1) r.capture_pending

  on_capture-IsGoing :
      (kind : CaptureKind) (ks : List ℕ) (server : ℕ) (report : Report J) (r : Rendezvous J)
      → HasMessage report
      → IsGoing kind ks r
      → IsGoing kind ks (on_capture server report r)
  unfolding on_capture
  on_capture-IsGoing kind ks server report r m h =
      elim (Option-cases (lookup server r.capture_pending)) [
        | inl e ↦ rw (e, on_capture) h
        | inr (p, e) ↦ record {
          under_way = on_capture-IsUnderWay kind server report r h.under_way;
          servers =
              rw (e, h.under_way.0, on_capture)
                (keys-insert server p (on_report r.capture_kind report p) r.capture_pending e
                  ∙ h.servers);
          entries =
              rw (e, h.under_way.0, on_capture)
                (All-insert (λ e. IsPending kind e.1) server (on_report r.capture_kind report p)
                  r.capture_pending
                  (rw (h.under_way.1) (
                    on_report-IsPending kind report p m (
                      All-lookup (λ e. IsPending kind e.1) server r.capture_pending p e h.entries)))
                  h.entries);
        }
      ]

  pub on_captures-IsGoing :
      (kind : CaptureKind) (ks : List ℕ) (reports : List (ℕ × Report J)) (r : Rendezvous J)
      → All (λ e. HasMessage e.1) reports
      → IsGoing kind ks r
      → IsGoing kind ks (on_captures reports r)
  unfolding on_captures
  on_captures-IsGoing kind ks [] r m h = h
  on_captures-IsGoing kind ks ((server, report) ∷ rest) r m h =
      on_captures-IsGoing kind ks rest (on_capture server report r) m.1
        (on_capture-IsGoing kind ks server report r m.0 h)

  await-IsGoing :
      (kind : CaptureKind) (ks : List ℕ) (late : List (List (ℕ × Report J))) (r : Rendezvous J)
      → All (All (λ e. HasMessage e.1)) late
      → IsGoing kind ks r
      → IsGoing kind ks (await late r).1
        × ((await late r).0 ≡ all_done (await late r).1.capture_pending)
  unfolding await
  await-IsGoing kind ks [] r m h = (h, refl)
  await-IsGoing kind ks (batch ∷ rest) r m h = elim (Bool-cases (all_done r.capture_pending)) [
    | inl e ↦ rw (e, await) (h, sym e)
    | inr e ↦
        rw (e, await)
          (await-IsGoing kind ks rest (on_captures batch r) m.1
            (on_captures-IsGoing kind ks batch r m.0 h))
  ]

  pub keep_sent-IsGoing :
      (kind : CaptureKind) (sent : List ℕ) (m : List (ℕ × Pending J))
      → All (λ e. IsPending kind e.1) m
      → (keys (keep_sent sent m) ≡ sent_of sent (keys m))
        × All (λ e. IsPending kind e.1) (keep_sent sent m)
  unfolding keep_sent
  keep_sent-IsGoing kind sent [] h = (refl, tt)
  keep_sent-IsGoing kind sent ((k, p) ∷ rest) h =
      let (ks, later) = keep_sent-IsGoing kind sent rest h.1 in
      elim (Bool-cases (is_among k sent)) [
        | inl e ↦ rw e (ap (λ l. k ∷ l) ks, (h.0, later))
        | inr e ↦ rw e (ks, later)
      ]

  -- All that a server was asked for: the ack, and the frames that it announced.
  abbrev pub IsDelivered : CaptureKind → Pending J → Type 0
  IsDelivered kind p =
      (p.acked ≡ true)
      × (p.done ≡ true)
      × (is_empty_text p.refusal ≡ true)
      × (length p.frames ≡ p.expected)
      × All (IsFrameOf kind p.id) p.frames

  delivered :
      (kind : CaptureKind) (m : List (ℕ × Pending J))
      → All (λ e. IsPending kind e.1) m
      → all_done m ≡ true
      → is_none_left (list_refusals m) ≡ true
      → All (λ e. IsDelivered kind e.1) m
  unfolding all_done list_refusals
  delivered kind [] h d none_refused = tt
  delivered kind ((k, p) ∷ rest) h d none_refused = elim (Bool-cases (is_empty_text p.refusal)) [
    | inr spoke ↦ ground (arith, spoke, none_refused)
    | inl silent ↦
        let p_done : p.done ≡ true = ground (arith, d) in
        let acked : p.acked ≡ true = elim (Bool-cases p.acked) [
          | inl e ↦ e
          | inr e ↦ ground (arith, h.0.refusal_only e p_done, silent)
        ] in
        let all_here : leb p.expected (length p.frames) ≡ true =
          sym (h.0.finished acked) ∙ p_done in
        (
          (acked, p_done, silent, ground (arith, all_here, h.0.announced acked), h.0.matching),
          delivered kind rest h.1 (ground (arith, d)) (rw silent at none_refused),
        )
  ]

  -- A wait that ends in time ends with all entries done, and there are some.
  abbrev IsWaited : CaptureKind → List ℕ → Bool × Rendezvous J → Type 0
  IsWaited kind ks (finished, r) =
      IsGoing kind ks r
      × (finished ≡ true
          → (all_done r.capture_pending ≡ true) × (is_none_left r.capture_pending ≡ false))

  pub none_left-keys : (m : List (ℕ × Pending J)) → is_none_left m ≡ is_none_left (keys m)
  none_left-keys [] = refl
  none_left-keys (e ∷ rest) = refl

  pub wait_for-IsGoing :
      (kind : CaptureKind) (ks : List ℕ) (late : List (List (ℕ × Report J))) (r : Rendezvous J)
      → All (All (λ e. HasMessage e.1)) late
      → IsGoing kind ks r
      → IsWaited kind ks (wait_for late r)
  unfolding wait_for
  wait_for-IsGoing kind ks late r n h = elim (Bool-cases (is_none_left r.capture_pending)) [
    | inl e ↦ rw (e, wait_for) (h, λ f. cc)
    | inr e ↦
        let (going, same) = await-IsGoing kind ks late r n h in
        rw (e, wait_for)
          (
            going,
            λ f. (
              sym same ∙ f,
              none_left-keys _
                  ∙ ap is_none_left (going.servers ∙ sym h.servers)
                  ∙ sym (none_left-keys _)
                  ∙ e,
            ),
          )
  ]

  finished_run :
      (kind : CaptureKind) (ks sent : List ℕ) (w : Bool × Rendezvous J)
      → (finish_run sent w).complete ≡ true
      → IsWaited kind ks w
      → All (λ e. IsDelivered kind e.1) (finish_run sent w).got
        × (keys (finish_run sent w).got ≡ ks)
        × (is_none_left (finish_run sent w).got ≡ false)
  unfolding finish_run
  finished_run kind ks sent (finished, r) c (going, waited) =
      elim (Bool-cases (is_none_left sent)) [
        | inl e ↦ ground (arith, c, e)
        | inr e ↦
            let in_time : finished ≡ true = ground (arith, c, e) in
            let quiet : is_none_left (list_refusals r.capture_pending) ≡ true =
              ground (arith, c, e) in
            rw e (
              delivered kind r.capture_pending going.entries (waited in_time).0 quiet,
              going.servers,
              (waited in_time).1,
            )
      ]

  -- The entries of a capture that is reported complete: one for each connected server that the
  -- request went to, with its ack, no refusal and all its frames; and there was such a server.
  pub run_capture-IsDelivered :
      (free : Bool) (kind : CaptureKind) (connected sent : List ℕ) (early : List (ℕ × Report J))
      (late : List (List (ℕ × Report J))) (r : Rendezvous J)
      → All (λ e. HasMessage e.1) early
      → All (All (λ e. HasMessage e.1)) late
      → let run = run_capture free kind connected sent early late r in
        run.complete ≡ true
        → All (λ e. IsDelivered kind e.1) run.got
          × (keys run.got ≡ sent_of sent connected)
          × (is_none_left run.got ≡ false)
  unfolding run_capture
  run_capture-IsDelivered false kind connected sent early late r m n c = cc
  run_capture-IsDelivered true kind connected sent early late r m n c =
      let going = on_captures-IsGoing kind connected early (armed kind connected) m armed-IsGoing in
      let left = prune sent (on_captures early (armed kind connected)) in
      let (ks, entries) = keep_sent-IsGoing kind sent _ going.entries in
      let left_going : IsGoing kind (sent_of sent connected) left = record {
        under_way = going.under_way;
        servers = ks ∙ ap (sent_of sent) going.servers;
        entries = entries;
      } in
      finished_run kind (sent_of sent connected) sent (wait_for late left) c
        (wait_for-IsGoing kind (sent_of sent connected) late left n left_going)
    where
      armed-IsGoing : IsGoing kind connected (armed kind connected)
      armed-IsGoing = record {
        under_way = (refl, refl);
        servers = keys-arm J connected;
        entries = arm-IsPending J kind connected;
      }
