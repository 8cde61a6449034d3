-- ===== src/Rendezvous/Tests.antt =====
-- A trigger on two servers, and the theorems at it.
use mathlib.Core.List.{flatten}
use telefacet.Shared.{
  ℕ, zero, suc, ◌≡◌, refl, true, false, List, [], ◌∷◌, ◌++◌, none, some, All, lookup, arith,
}
use telefacet.Frame.{FrameBuffer, default_info}
use telefacet.Captures.{trigger}
use telefacet.Rendezvous.{
  Pending, Rendezvous, Report, result, frame, run_capture, finish_run, wait_for, await, all_done,
  on_captures, on_capture, on_report, arm, keep_sent, list_refusals, is_among, is_none_left,
}
use telefacet.Rendezvous.Server.{reports_of}
use telefacet.Rendezvous.Outcome.{keys, sent_of, IsDelivered}
use telefacet.Rendezvous.Heard.{IsHeard}
use telefacet.Rendezvous.Exact.{run_capture_complete}
use telefacet.Rendezvous.Progress.{Script}
use telefacet.Rendezvous.Complete.{run_capture_delivers}

abbrev idle : Rendezvous ℕ
idle = record { capture_active = false; capture_kind = trigger; capture_pending = [] }

abbrev taken : ℕ → ℕ → FrameBuffer
taken id camera = record {
  id = 0;
  bytes = [];
  info = record default_info { camera_id = camera; frame_kind = 2; capture_id = id };
  header_only = false;
}

-- Server 4 is connected and not asked.
abbrev early : List (ℕ × Report ℕ)
early = (1, result trigger 7 2 none none) ∷ (0, result trigger 9 1 none none) ∷ []

abbrev late : List (List (ℕ × Report ℕ))
late =
    ((1, frame (taken 7 0)) ∷ (4, frame (taken 7 0)) ∷ [])
    ∷ ((0, frame (taken 9 3)) ∷ (1, frame (taken 7 5)) ∷ [])
    ∷ []

abbrev servers : List ℕ
servers = 0 ∷ 1 ∷ 4 ∷ []

abbrev asked : List ℕ
asked = 0 ∷ 1 ∷ []

not_asked : (n : ℕ) → ¬ (is_among (suc (suc n)) (sent_of asked servers) ≡ true)
not_asked n a = ground (arith, a)

abbrev scripts :
    (i : ℕ)
    → is_among i (sent_of asked servers) ≡ true
    → Script trigger (reports_of i (early ++ flatten late))
unfolding flatten
scripts zero a = record {
  id = 9;
  trigger_result = none;
  stack_result = none;
  frames = taken 9 3 ∷ [];
  reported = refl;
  matching = ((refl, refl), tt);
}
scripts (suc zero) a = record {
  id = 7;
  trigger_result = none;
  stack_result = none;
  frames = taken 7 0 ∷ taken 7 5 ∷ [];
  reported = refl;
  matching = ((refl, refl), ((refl, refl), tt));
}
scripts (suc (suc n)) a = absurd (not_asked n a)

run_capture_delivers_example :
    let run = run_capture true trigger servers asked early late idle in
    (run.complete ≡ true)
    × (run.refusals ≡ [])
    × ((i : ℕ) (a : is_among i (sent_of asked servers) ≡ true)
        → (p : Pending ℕ) × (lookup i run.got ≡ some p) × (p.frames ≡ (scripts i a).frames))
run_capture_delivers_example =
    run_capture_delivers trigger servers asked early late idle (refl, (refl, (refl, tt))) refl
      scripts

is_complete : (run_capture true trigger servers asked early late idle).complete ≡ true
unfolding run_capture finish_run wait_for await all_done on_captures on_capture on_report arm
    keep_sent list_refusals
is_complete = refl

run_capture_complete_example :
    let run = run_capture true trigger servers asked early late idle in
    All (λ e. IsDelivered trigger e.1) run.got
    × (All (λ e. IsHeard trigger (reports_of e.0 (early ++ flatten late)) e.1) run.got
        × ((keys run.got ≡ sent_of asked servers) × (is_none_left run.got ≡ false)))
run_capture_complete_example =
    run_capture_complete trigger servers asked early late true idle (refl, (refl, (refl, tt)))
      (tt, (tt, tt)) ((tt, (tt, tt)), ((tt, (tt, tt)), tt)) is_complete
