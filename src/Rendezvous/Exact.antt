-- ===== src/Rendezvous/Exact.antt =====
-- What a complete capture holds, in terms of what the servers reported.
use mathlib.Core.List.{flatten}
use telefacet.Shared.{
  ℕ, ◌==◌, ==_iff, Bool, true, false, Bool-cases, List, [], ◌∷◌, ◌++◌, some, lookup, All, ◌≡◌, refl,
  ap, sym, subst, ◌∙◌, inl, inr, arith,
}
use telefacet.Captures.{CaptureKind}
use telefacet.Rendezvous.{
  Pending, Rendezvous, Report, fresh_pending, on_captures, all_done, await, is_among, is_none_left,
  run_capture, armed, prune, wait_for, finish_run,
}
use telefacet.Rendezvous.Server.{
  IsUnderWay, HasMessage, reports_of, on_reports, in_entry, lookup-on_captures,
}
use telefacet.Rendezvous.Outcome.{keys, sent_of, IsDelivered, run_capture-IsDelivered}
use telefacet.Rendezvous.Progress.{
  on_reports_settled, on_reports-append, reports_of-append, on_captures-IsUnderWay,
}
use telefacet.Rendezvous.Complete.{
  some_eq, NoRepeat, sent_of-is_among, sent_of-NoRepeat, lookup-arm, lookup-keep_sent, lookup-keys,
}
use telefacet.Rendezvous.Heard.{IsHeard, on_reports-IsHeard}

module _ {J : Type 0} where
  -- An entry that is settled when the wait stops is what all of the server's reports make of it,
  -- although some may come later.
  await-settled :
      (kind : CaptureKind) (i : ℕ) (late : List (List (ℕ × Report J))) (r : Rendezvous J)
      (p q : Pending J)
      → IsUnderWay kind r
      → lookup i r.capture_pending ≡ some p
      → lookup i (await late r).1.capture_pending ≡ some q
      → q.acked ≡ true
      → q.done ≡ true
      → on_reports kind (reports_of i (flatten late)) p ≡ q
  unfolding await flatten
  await-settled kind i [] r p q u e f a d = some_eq (sym e ∙ f)
  await-settled kind i (batch ∷ rest) r p q u e f a d =
      elim (Bool-cases (all_done r.capture_pending)) [
        | inl over ↦
            let stopped : await (batch ∷ rest) r ≡ (true, r) = rw (over, await) refl in
            let kept : lookup i r.capture_pending ≡ some q =
              ap (λ (w : Bool × Rendezvous J). lookup i w.1.capture_pending) (sym stopped) ∙ f in
            let same : p ≡ q = some_eq (sym e ∙ kept) in
            rw same (on_reports_settled kind (reports_of i (batch ++ flatten rest)) q a d)
        | inr going ↦
            let on : await (batch ∷ rest) r ≡ await rest (on_captures batch r) =
              rw (going, await) refl in
            let ih =
              await-settled kind i rest (on_captures batch r)
                (on_reports kind (reports_of i batch) p) q (on_captures-IsUnderWay kind batch r u)
                (lookup-on_captures kind i batch r u
                  ∙ ap (in_entry (on_reports kind (reports_of i batch))) e)
                (ap (λ (w : Bool × Rendezvous J). lookup i w.1.capture_pending) (sym on) ∙ f) a d in
            ap (λ l. on_reports kind l p) (reports_of-append i batch (flatten rest))
            ∙ on_reports-append kind (reports_of i batch) (reports_of i (flatten rest)) p
            ∙ ih
      ]

  wait_for-settled :
      (kind : CaptureKind) (i : ℕ) (late : List (List (ℕ × Report J))) (r : Rendezvous J)
      (p q : Pending J)
      → IsUnderWay kind r
      → lookup i r.capture_pending ≡ some p
      → lookup i (wait_for late r).1.capture_pending ≡ some q
      → q.acked ≡ true
      → q.done ≡ true
      → on_reports kind (reports_of i (flatten late)) p ≡ q
  unfolding wait_for
  wait_for-settled kind i late r p q u e f a d =
      elim (Bool-cases (is_none_left r.capture_pending)) [
        | inl gone ↦
            let stopped : wait_for late r ≡ (false, r) = rw (gone, wait_for) refl in
            let kept : lookup i r.capture_pending ≡ some q =
              ap (λ (w : Bool × Rendezvous J). lookup i w.1.capture_pending) (sym stopped) ∙ f in
            let same : p ≡ q = some_eq (sym e ∙ kept) in
            rw same (on_reports_settled kind (reports_of i (flatten late)) q a d)
        | inr some_left ↦
            let waits : wait_for late r ≡ await late r = rw (some_left, wait_for) refl in
            await-settled kind i late r p q u e
              (ap (λ (w : Bool × Rendezvous J). lookup i w.1.capture_pending) (sym waits) ∙ f) a d
      ]

  got-finish_run :
      (sent : List ℕ) (w : Bool × Rendezvous J) → (finish_run sent w).got ≡ w.1.capture_pending
  unfolding finish_run
  got-finish_run [] (finished, r) = refl
  got-finish_run (k ∷ rest) (finished, r) = refl

  -- In a list of entries without repeats, what holds of the entry of each key holds of all.
  All-of_lookup :
      (P Q : ℕ → Pending J → Type 0) (m : List (ℕ × Pending J))
      → NoRepeat (keys m)
      → All (λ e. P e.0 e.1) m
      → ((i : ℕ) (p : Pending J) → lookup i m ≡ some p → P i p → Q i p)
      → All (λ e. Q e.0 e.1) m
  All-of_lookup P Q [] d a h = tt
  All-of_lookup P Q ((k, p) ∷ rest) d a h = (
    h k p (ground arith) a.0,
    All-of_lookup P Q rest d.1 a.1 λ i q e. elim (Bool-cases (k == i)) [
      | inl hit ↦
          let same : k ≡ i = (==_iff k i).0 hit in
          let there = lookup-keys i rest q e in ground (arith, same, there, d.0)
      | inr miss ↦ h i q (rw miss e)
    ],
  )

module _ {J : Type 0} (kind : CaptureKind) (connected sent : List ℕ) (early : List (ℕ × Report J))
    (late : List (List (ℕ × Report J))) where
  abbrev left : Rendezvous J
  left = prune sent (on_captures early (armed kind connected))

  lookup-left :
      (i : ℕ)
      → is_among i (sent_of sent connected) ≡ true
      → lookup i left.capture_pending ≡ some (on_reports kind (reports_of i early) fresh_pending)
  lookup-left i asked =
      let (in_sent, in_connected) = sent_of-is_among i sent connected asked in
      lookup-keep_sent i sent _ in_sent
      ∙ lookup-on_captures kind i early (armed kind connected) (refl, refl)
      ∙ ap (in_entry (on_reports kind (reports_of i early))) (lookup-arm J i connected in_connected)

  -- A capture that is reported complete, whatever the servers sent and in whatever order and batches,
  -- each server being connected once and
  -- each refusal having a message: there is one entry for each connected server that the request
  -- went to, and there is such a server; each holds an ack, no refusal and as many frames as the ack
  -- announced, all of that capture; and these are the server's own: the ack is the first result of
  -- the kind among its reports, with the id, the number and the data of that result, and the frames
  -- are the first ones of that capture that it sent after the ack, in order.
  pub run_capture_complete :
      (free : Bool) (r : Rendezvous J)
      → NoRepeat connected
      → All (λ e. HasMessage e.1) early
      → All (All (λ e. HasMessage e.1)) late
      → let run = run_capture free kind connected sent early late r in
        run.complete ≡ true
        → All (λ e. IsDelivered kind e.1) run.got
          × (All (λ e. IsHeard kind (reports_of e.0 (early ++ flatten late)) e.1) run.got
              × ((keys run.got ≡ sent_of sent connected) × (is_none_left run.got ≡ false)))
  unfolding run_capture
  run_capture_complete false r d m n c = cc
  run_capture_complete true r d m n c =
      let run = run_capture true kind connected sent early late r in
      let (delivered, servers, some_got) =
        run_capture-IsDelivered true kind connected sent early late r m n c in
      let got = got-finish_run sent (wait_for late left) in
      let heard =
        All-of_lookup (λ i. IsDelivered kind)
          (λ i. IsHeard kind (reports_of i (early ++ flatten late))) run.got
          (subst NoRepeat (sym servers) (sent_of-NoRepeat sent connected d)) delivered
          λ i q e h.
            let asked : is_among i (sent_of sent connected) ≡ true =
              ap (is_among i) (sym servers) ∙ lookup-keys i run.got q e in
            let first = on_reports kind (reports_of i early) fresh_pending in
            let settled =
              wait_for-settled kind i late left first q
                (on_captures-IsUnderWay kind early (armed kind connected) (refl, refl))
                (lookup-left i asked) (ap (lookup i) (sym got) ∙ e) h.0 h.1 in
            let all : on_reports kind (reports_of i (early ++ flatten late)) fresh_pending ≡ q =
              ap (λ l. on_reports kind l fresh_pending) (reports_of-append i early (flatten late))
              ∙ on_reports-append kind (reports_of i early) (reports_of i (flatten late))
                  fresh_pending
              ∙ settled in
            subst (IsHeard kind (reports_of i (early ++ flatten late))) all (
              on_reports-IsHeard kind (reports_of i (early ++ flatten late)) fresh_pending
                (refl, (refl, (refl, refl))) (ap (λ (x : Pending J). x.acked) all ∙ h.0)) in
      (delivered, (heard, (servers, some_got)))
