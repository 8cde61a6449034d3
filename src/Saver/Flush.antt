-- ===== src/Saver/Flush.antt =====
-- data/CaptureSaver.cpp: the thread left alone comes to the end of `flush`, and of the destructor.
use telefacet.Shared.{
  ℕ, ◌+◌, ◌-◌, ◌≤◌, ◌==◌, true, not, ◌&&◌, List, [], ◌∷◌, Option, none, some, length, ◌≡◌, refl,
  ◌∙◌, arith,
}
use telefacet.Json.{JsonMake}
use telefacet.Writing.{FileOps, Job, Clock}
use telefacet.Saver.{Saver, is_busy, held, is_idle, is_over, take_job, finish_job}

module _ {J W : Type 0} (make : JsonMake J) (files : FileOps W) where
  -- A round of `loop`, and one for each reading of the clock.
  unfoldable pub round : Clock → Saver J W → Saver J W
  unfolding take_job finish_job
  round clock s = finish_job make files clock (take_job s)

  unfoldable pub rounds : List Clock → Saver J W → Saver J W
  unfolding round
  rounds [] s = s
  rounds (clock ∷ rest) s = rounds rest (round clock s)

  abbrev pub waiting : Saver J W → ℕ
  waiting s = length s.queue + held s.in_hand

  -- What a round leaves: one job fewer, and the switch of the destructor as it was.
  abbrev pub IsRound : Saver J W → Saver J W → Type 0
  IsRound s s' = (waiting s' ≡ waiting s - 1) × (s'.stopping ≡ s.stopping)

  round-from :
      (s : Saver J W) (clock : Clock) (o : Option (Job J)) (q : List (Job J))
      → IsRound
          (record s { in_hand = o; queue = q })
          (round clock (record s { in_hand = o; queue = q }))
  unfolding round take_job finish_job
  round-from s clock (some job) q = (omega arith, refl)
  round-from s clock none [] = (omega arith, refl)
  round-from s clock none (job ∷ rest) = (omega arith, refl)

  is_idle-waiting : (s : Saver J W) → waiting s ≡ 0 → is_idle s ≡ true
  is_idle-waiting s e = idle s.queue s.in_hand e
    where
      idle :
          (q : List (Job J)) (o : Option (Job J))
          → length q + held o ≡ 0
          → (length q == 0) && not (is_busy o) ≡ true
      idle [] none e = refl
      idle [] (some job) e = absurd (omega arith)
      idle (job ∷ q) o e = absurd (omega arith)

  -- With no further saves, as many rounds of the thread as there are jobs waiting or in hand, or
  -- more, end the wait of `flush`; and the thread then returns exactly if the saver is stopping.
  pub rounds_end :
      (s : Saver J W) (clocks : List Clock)
      → waiting s ≤ length clocks
      → (is_idle (rounds clocks s) ≡ true) × (is_over (rounds clocks s) ≡ s.stopping)
  unfolding rounds
  rounds_end s [] h =
      let idle = is_idle-waiting s (omega (arith, h)) in (idle, rw idle ground arith)
  rounds_end s (clock ∷ rest) h =
      let (fewer, switch) = round-from s clock s.in_hand s.queue in
      let (idle, over) = rounds_end (round clock s) rest (omega (arith, fewer, h)) in
      (idle, over ∙ switch)
