-- ===== src/Rendezvous/Complete.antt =====
-- A capture that every server acks and sends in full is reported complete, with all its frames.
use mathlib.Core.List.{flatten}
use telefacet.Shared.{
  ℕ, ◌≡◌, refl, ap, sym, subst, ◌∙◌, inl, inr, true, false, ◌==◌, ==_iff, Bool-cases, Option-cases,
  List, [], ◌∷◌, ◌++◌, some, arith, All, lookup,
}
use telefacet.Captures.{CaptureKind}
use telefacet.Rendezvous.{
  Pending, Rendezvous, Report, fresh_pending, on_report, on_capture, on_captures, all_done, await,
  is_among, is_none_left, arm, keep_sent, list_refusals, run_capture, armed, prune, wait_for,
  finish_run,
}
use telefacet.Rendezvous.Server.{reports_of, on_reports, in_entry, lookup-on_captures}
use telefacet.Rendezvous.Outcome.{keys, keys-arm, keys-insert, none_left-keys, sent_of}
use telefacet.Rendezvous.Progress.{
  IsNotRefusal, on_reports-IsClean, on_reports-append, reports_of-append, Script, on_reports-Script,
  Script-clean, All-append_left, All-append_right, on_captures-IsUnderWay, lookup-await,
}

abbrev pub NoRepeat : List ℕ → Type 0
NoRepeat [] = Unit {0}
NoRepeat (k ∷ rest) = (is_among k rest ≡ false) × NoRepeat rest

pub sent_of-is_among :
    (i : ℕ) (sent connected : List ℕ)
    → is_among i (sent_of sent connected) ≡ true
    → (is_among i sent ≡ true) × (is_among i connected ≡ true)
sent_of-is_among i sent [] h = cc
sent_of-is_among i sent (k ∷ rest) h = elim (Bool-cases (is_among k sent)) [
  | inl e ↦ elim (Bool-cases (k == i)) [
    | inl hit ↦
        let same : k ≡ i = (==_iff k i).0 hit in
        (ap (λ n. is_among n sent) (sym same) ∙ e, rw hit refl)
    | inr miss ↦
        let (a, b) = sent_of-is_among i sent rest (ground (arith, e, miss, h)) in (a, rw miss b)
  ]
  | inr e ↦
      let (a, b) = sent_of-is_among i sent rest (ground (arith, e, h)) in (a, ground (arith, b))
]

pub sent_of-NoRepeat :
    (sent connected : List ℕ) → NoRepeat connected → NoRepeat (sent_of sent connected)
sent_of-NoRepeat sent [] h = tt
sent_of-NoRepeat sent (k ∷ rest) h = elim (Bool-cases (is_among k sent)) [
  | inl e ↦
      let absent : is_among k (sent_of sent rest) ≡ false =
        elim (Bool-cases (is_among k (sent_of sent rest))) [
          | inl there ↦ ground (arith, (sent_of-is_among k sent rest there).1, h.0)
          | inr gone ↦ gone
        ] in
      rw e (absent, sent_of-NoRepeat sent rest h.1)
  | inr e ↦ rw e (sent_of-NoRepeat sent rest h.1)
]

pub lookup-arm :
    (J : Type 0) (i : ℕ) (connected : List ℕ)
    → is_among i connected ≡ true
    → lookup i (arm {J = J} connected) ≡ some fresh_pending
unfolding arm
lookup-arm J i [] h = cc
lookup-arm J i (k ∷ rest) h = elim (Bool-cases (k == i)) [
  | inl hit ↦ rw hit refl
  | inr miss ↦ rw miss (lookup-arm J i rest (rw miss at h))
]

nothing_asked : (connected : List ℕ) → sent_of [] connected ≡ []
nothing_asked [] = refl
nothing_asked (k ∷ rest) = nothing_asked rest

some_asked :
    (sent connected : List ℕ)
    → is_none_left (sent_of sent connected) ≡ false
    → is_none_left sent ≡ false
some_asked [] connected h = sym (ap is_none_left (nothing_asked connected)) ∙ h
some_asked (k ∷ rest) connected h = refl

pub some_eq : {A : Type 0} {a b : A} → some a ≡ some b → a ≡ b
some_eq e = cc

module _ {J : Type 0} where
  pub lookup-keep_sent :
      (i : ℕ) (sent : List ℕ) (m : List (ℕ × Pending J))
      → is_among i sent ≡ true
      → lookup i (keep_sent sent m) ≡ lookup i m
  unfolding keep_sent
  lookup-keep_sent i sent [] h = refl
  lookup-keep_sent i sent ((k, p) ∷ m) h = elim (Bool-cases (k == i)) [
    | inl hit ↦
        let same : k ≡ i = (==_iff k i).0 hit in
        let there : is_among k sent ≡ true = ap (λ n. is_among n sent) same ∙ h in
        rw (there, hit) refl
    | inr miss ↦ elim (Bool-cases (is_among k sent)) [
      | inl e ↦ rw (e, miss) (lookup-keep_sent i sent m h)
      | inr e ↦ rw (e, miss) (lookup-keep_sent i sent m h)
    ]
  ]

  keys-keep_sent :
      (sent : List ℕ) (m : List (ℕ × Pending J)) → keys (keep_sent sent m) ≡ sent_of sent (keys m)
  unfolding keep_sent
  keys-keep_sent sent [] = refl
  keys-keep_sent sent ((k, p) ∷ m) = ground (arith, keys-keep_sent sent m)

  keys-on_captures :
      (reports : List (ℕ × Report J)) (r : Rendezvous J)
      → keys (on_captures reports r).capture_pending ≡ keys r.capture_pending
  unfolding on_captures on_capture
  keys-on_captures [] r = refl
  keys-on_captures ((server, report) ∷ rest) r =
      keys-on_captures rest (on_capture server report r)
      ∙ elim (Option-cases (lookup server r.capture_pending)) [
        | inl e ↦ rw (e, on_capture) refl
        | inr (p, e) ↦ elim (Bool-cases r.capture_active) [
          | inl on ↦
              rw (e, on, on_capture)
                (keys-insert server p (on_report r.capture_kind report p) r.capture_pending e)
          | inr off ↦ rw (e, off, on_capture) refl
        ]
      ]

  keys-await :
      (late : List (List (ℕ × Report J))) (r : Rendezvous J)
      → (keys (await late r).1.capture_pending ≡ keys r.capture_pending)
        × ((await late r).0 ≡ all_done (await late r).1.capture_pending)
  unfolding await
  keys-await [] r = (refl, refl)
  keys-await (batch ∷ rest) r = elim (Bool-cases (all_done r.capture_pending)) [
    | inl e ↦ rw (e, await) (refl, sym e)
    | inr e ↦
        let (ks, same) = keys-await rest (on_captures batch r) in
        rw (e, await) (ks ∙ keys-on_captures batch r, same)
  ]

  pub lookup-keys :
      (i : ℕ) (m : List (ℕ × Pending J)) (p : Pending J)
      → lookup i m ≡ some p
      → is_among i (keys m) ≡ true
  lookup-keys i [] p e = cc
  lookup-keys i ((k, q) ∷ m) p e = elim (Bool-cases (k == i)) [
    | inl hit ↦ rw hit refl
    | inr miss ↦ rw miss (lookup-keys i m p (rw miss at e))
  ]

  -- A list of entries without repeats, each of which is done and without a refusal.
  settled_entries :
      (m : List (ℕ × Pending J))
      → NoRepeat (keys m)
      → ((i : ℕ) (p : Pending J) → lookup i m ≡ some p → (p.done ≡ true) × (p.refusal ≡ []))
      → (all_done m ≡ true) × (list_refusals m ≡ [])
  unfolding all_done list_refusals
  settled_entries [] d h = (refl, refl)
  settled_entries ((k, p) ∷ rest) d h =
      let (over, silent) = h k p (ground arith) in
      let (later, none_refused) = settled_entries rest d.1 λ i q e. elim (Bool-cases (k == i)) [
        | inl hit ↦
            let same : k ≡ i = (==_iff k i).0 hit in
            let there = lookup-keys i rest q e in ground (arith, same, there, d.0)
        | inr miss ↦ h i q (rw miss e)
      ] in
      (ground (arith, over, later), rw (silent, none_refused) refl)

module _ {J : Type 0} (kind : CaptureKind) (connected sent : List ℕ) (early : List (ℕ × Report J))
    (late : List (List (ℕ × Report J))) where
  abbrev left : Rendezvous J
  left = prune sent (on_captures early (armed kind connected))

  -- The entry of a server when the wait ends is what all of its reports make of a fresh one.
  entry :
      (i : ℕ)
      → is_among i (sent_of sent connected) ≡ true
      → All IsNotRefusal (reports_of i (early ++ flatten late))
      → lookup i (await late left).1.capture_pending
        ≡ some (on_reports kind (reports_of i (early ++ flatten late)) fresh_pending)
  entry i asked n =
      let (in_sent, in_connected) = sent_of-is_among i sent connected asked in
      let split = reports_of-append i early (flatten late) in
      let parts = subst (All IsNotRefusal) split n in
      let p = on_reports kind (reports_of i early) fresh_pending in
      let first : lookup i left.capture_pending ≡ some p =
        lookup-keep_sent i sent _ in_sent
        ∙ lookup-on_captures kind i early (armed kind connected) (refl, refl)
        ∙ ap (in_entry (on_reports kind (reports_of i early)))
            (lookup-arm J i connected in_connected) in
      lookup-await kind i late left p
        (on_captures-IsUnderWay kind early (armed kind connected) (refl, refl)) first
        (on_reports-IsClean kind (reports_of i early) fresh_pending
          (All-append_left IsNotRefusal (reports_of i early) _ parts) (refl, λ e. cc))
        (All-append_right IsNotRefusal (reports_of i early) _ parts)
      ∙ ap some (
          sym (
            on_reports-append kind (reports_of i early) (reports_of i (flatten late)) fresh_pending)
          ∙ ap (λ l. on_reports kind l fresh_pending) (sym split))

  keys-left : keys left.capture_pending ≡ sent_of sent connected
  keys-left =
      keys-keep_sent sent _
      ∙ ap (sent_of sent) (keys-on_captures early (armed kind connected) ∙ keys-arm J connected)

  some_left :
      is_none_left (sent_of sent connected) ≡ false → is_none_left left.capture_pending ≡ false
  some_left h = none_left-keys left.capture_pending ∙ ap is_none_left keys-left ∙ h

  -- When each connected server that the request reached acks the capture and sends as many frames as
  -- it announced, before the deadline and with whatever the other servers send in between, the
  -- capture is complete, without a refusal, and each such server's frames are all there in order.
  pub run_capture_delivers :
      (r : Rendezvous J)
      → NoRepeat connected
      → is_none_left (sent_of sent connected) ≡ false
      → (scripts : (i : ℕ)
          → is_among i (sent_of sent connected) ≡ true
          → Script kind (reports_of i (early ++ flatten late)))
      → let run = run_capture true kind connected sent early late r in
        (run.complete ≡ true)
        × (run.refusals ≡ [])
        × ((i : ℕ) (asked : is_among i (sent_of sent connected) ≡ true)
            → (p : Pending J) × (lookup i run.got ≡ some p) × (p.frames ≡ (scripts i asked).frames))
  unfolding run_capture wait_for finish_run
  run_capture_delivers r distinct some_sent scripts =
      let ended = await late left in
      let (ks, same) = keys-await late left in
      let servers : keys ended.1.capture_pending ≡ sent_of sent connected = ks ∙ keys-left in
      let (over, silent) =
        settled_entries ended.1.capture_pending
          (subst NoRepeat (sym servers) (sent_of-NoRepeat sent connected distinct))
          λ i p e.
            let asked : is_among i (sent_of sent connected) ≡ true =
              ap (is_among i) (sym servers) ∙ lookup-keys i ended.1.capture_pending p e in
            let script = scripts i asked in
            let n = Script-clean kind _ script in
            let q = on_reports kind (reports_of i (early ++ flatten late)) fresh_pending in
            let mine : q ≡ p = some_eq (sym (entry i asked n) ∙ e) in
            let (done, _) = on_reports-Script kind _ script in
            let quiet =
              on_reports-IsClean kind (reports_of i (early ++ flatten late)) fresh_pending n
                (refl, λ a. cc) in
            (
              ap (λ (x : Pending J). x.done) (sym mine) ∙ done,
              ap (λ (x : Pending J). x.refusal) (sym mine) ∙ quiet.0,
            ) in
      let waits : wait_for late left ≡ ended = rw (some_left some_sent, wait_for) refl in
      let run_is : run_capture true kind connected sent early late r ≡ finish_run sent ended =
        ap (finish_run sent) waits in
      let asked_some = some_asked sent connected some_sent in
      rw (run_is, asked_some, finish_run)
        (
          rw (same, over, silent) refl,
          silent,
          λ i asked. (
            on_reports kind (reports_of i (early ++ flatten late)) fresh_pending,
            entry i asked (Script-clean kind _ (scripts i asked)),
            (on_reports-Script kind _ (scripts i asked)).1,
          ),
        )
