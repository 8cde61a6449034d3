-- ===== src/Saver/Sequential.antt =====
-- data/CaptureSaver.cpp: any interleaving of the callers with the thread that writes.
use mathlib.Core.List.{map-append}
use telefacet.Shared.{
  ℕ, ◌+◌, Bool, true, false, List, [], ◌∷◌, ◌++◌, append-nil, append_assoc, map, Option, none, some,
  length, Text, if◌then◌else◌, ◌≡◌, refl, ap, sym, subst, ◌∙◌, arith,
}
use telefacet.Frame.{FrameBuffer}
use telefacet.Json.{JsonMake}
use telefacet.Writing.{FileOps, Job, Progress, Clock}
use telefacet.Saver.{Saver, held, save, take_job, process, finish_job}

-- A step of a caller (a save, or the switch), or of the thread (up to a write, or from it on).
pub data Step (J : Type 0) : Type 0 where
  saved : Text → Option FrameBuffer → J → Option ℕ → Step J
  switched : Bool → Step J
  taken : Step J
  finished : Clock → Step J

module _ {J W : Type 0} where
  -- The job that a step puts into the queue, if it does.
  abbrev pub accepted_by : Step J → Saver J W → List (Job J)
  accepted_by (saved address none result state) s = []
  accepted_by (saved address (some frame) result state) s =
      if s.enabled
      then record { address = address; frame = frame; result = result; state = state } ∷ []
      else []
  accepted_by (switched on) s = []
  accepted_by taken s = []
  accepted_by (finished clock) s = []

abbrev pub in_hand_jobs : {J : Type 0} → Option (Job J) → List (Job J)
in_hand_jobs none = []
in_hand_jobs (some job) = job ∷ []

module _ {J W : Type 0} (make : JsonMake J) (files : FileOps W) where
  unfoldable pub step : Step J → Saver J W → Saver J W
  unfolding save take_job finish_job
  step (saved address frame result state) s = save address frame result state s
  step (switched on) s = record s { enabled = on }
  step taken s = take_job s
  step (finished clock) s = finish_job make files clock s

  unfoldable pub steps : List (Step J) → Saver J W → Saver J W
  unfolding step
  steps [] s = s
  steps (st ∷ rest) s = steps rest (step st s)

  abbrev pub accepted : List (Step J) → Saver J W → List (Job J)
  unfolding step
  accepted [] s = []
  accepted (st ∷ rest) s = accepted_by st s ++ accepted rest (step st s)

  -- The specification: the jobs written one after the other.
  abbrev pub write_all : Text → List (Clock × Job J) → Progress W → Progress W
  unfolding process
  write_all root [] p = p
  write_all root ((clock, job) ∷ rest) p =
      write_all root rest (process make files root clock job p).1

  write_all-append :
      (root : Text) (xs ys : List (Clock × Job J)) (p : Progress W)
      → write_all root (xs ++ ys) p ≡ write_all root ys (write_all root xs p)
  unfolding write_all
  write_all-append root [] ys p = refl
  write_all-append root ((clock, job) ∷ xs) ys p =
      write_all-append root xs ys (process make files root clock job p).1

  -- The jobs accepted are those written, in hand, and queued; each written in its turn.
  pub record IsSequential (start s : Saver J W) (jobs : List (Job J)) : Type 0 where
    pub written : List (Clock × Job J)
    pub in_order : jobs ≡ map (λ e. e.1) written ++ (in_hand_jobs s.in_hand ++ s.queue)
    pub as_written : s.progress ≡ write_all start.root written start.progress
    pub counted : s.pending ≡ length s.queue + held s.in_hand
    pub same_root : s.root ≡ start.root

module _ {J W : Type 0} (make : JsonMake J) (files : FileOps W) where
  save-enabled :
      (start s : Saver J W) (jobs : List (Job J)) (address : Text) (frame : FrameBuffer)
      (result : J) (state : Option ℕ) (on : Bool)
      → IsSequential make files start (record s { enabled = on }) jobs
      → IsSequential make files start
          (save address (some frame) result state (record s { enabled = on }))
          (jobs
            ++ accepted_by (saved address (some frame) result state) (record s { enabled = on }))
  unfolding save
  save-enabled start s jobs address frame result state false h = rw append-nil h
  save-enabled start s jobs address frame result state true h =
      let job : Job J = record {
        address = address;
        frame = frame;
        result = result;
        state = state;
      } in
      record {
        written = h.written;
        in_order =
            ap (λ l. l ++ job ∷ []) h.in_order
            ∙ append_assoc (map (λ e. e.1) h.written) (in_hand_jobs s.in_hand ++ s.queue) (job ∷ [])
            ∙ ap (λ l. map (λ e. e.1) h.written ++ l)
                (append_assoc (in_hand_jobs s.in_hand) s.queue (job ∷ []));
        as_written = h.as_written;
        counted = refl;
        same_root = h.same_root;
      }

  take_job-from :
      (start s : Saver J W) (jobs : List (Job J)) (o : Option (Job J)) (q : List (Job J))
      → IsSequential make files start (record s { in_hand = o; queue = q }) jobs
      → IsSequential make files start (take_job (record s { in_hand = o; queue = q })) jobs
  unfolding take_job
  take_job-from start s jobs (some job) q h = h
  take_job-from start s jobs none [] h = h
  take_job-from start s jobs none (job ∷ rest) h = record {
    written = h.written;
    in_order = h.in_order;
    as_written = h.as_written;
    counted = h.counted ∙ omega arith;
    same_root = h.same_root;
  }

  finish_job-from :
      (start s : Saver J W) (jobs : List (Job J)) (clock : Clock) (o : Option (Job J))
      → IsSequential make files start (record s { in_hand = o }) jobs
      → IsSequential make files start (finish_job make files clock (record s { in_hand = o })) jobs
  unfolding finish_job write_all
  finish_job-from start s jobs clock none h = h
  finish_job-from start s jobs clock (some job) h = record {
    written = h.written ++ (clock, job) ∷ [];
    in_order =
        h.in_order
        ∙ sym (append_assoc (map (λ e. e.1) h.written) (job ∷ []) s.queue)
        ∙ ap (λ l. l ++ s.queue) (sym (map-append (λ e. e.1) h.written ((clock, job) ∷ [])));
    as_written =
        ap (λ p. (process make files s.root clock job p).1) h.as_written
        ∙ ap
            (λ r.
              (process make files r clock job
                (write_all make files start.root h.written start.progress)).1)
            h.same_root
        ∙ sym (write_all-append make files start.root h.written ((clock, job) ∷ []) start.progress);
    counted = omega arith;
    same_root = h.same_root;
  }

  step-IsSequential :
      (start s : Saver J W) (jobs : List (Job J)) (st : Step J)
      → IsSequential make files start s jobs
      → IsSequential make files start (step make files st s) (jobs ++ accepted_by st s)
  unfolding step save
  step-IsSequential start s jobs (saved address none result state) h = rw append-nil h
  step-IsSequential start s jobs (saved address (some frame) result state) h =
      save-enabled start s jobs address frame result state s.enabled h
  step-IsSequential start s jobs (switched on) h = rw append-nil record {
    written = h.written;
    in_order = h.in_order;
    as_written = h.as_written;
    counted = h.counted;
    same_root = h.same_root;
  }
  step-IsSequential start s jobs taken h =
      rw append-nil (take_job-from start s jobs s.in_hand s.queue h)
  step-IsSequential start s jobs (finished clock) h =
      rw append-nil (finish_job-from start s jobs clock s.in_hand h)

  steps-IsSequential :
      (start s : Saver J W) (jobs : List (Job J)) (l : List (Step J))
      → IsSequential make files start s jobs
      → IsSequential make files start (steps make files l s) (jobs ++ accepted make files l s)
  unfolding steps accepted
  steps-IsSequential start s jobs [] h = rw append-nil h
  steps-IsSequential start s jobs (st ∷ rest) h =
      subst (IsSequential make files start (steps make files rest (step make files st s)))
        (append_assoc jobs (accepted_by st s) (accepted make files rest (step make files st s)))
        (steps-IsSequential start (step make files st s) (jobs ++ accepted_by st s) rest
          (step-IsSequential start s jobs st h))

  -- No job waits or is in hand.
  abbrev pub IsFresh : Saver J W → Type 0
  IsFresh s = (s.queue ≡ []) × ((s.in_hand ≡ none) × (s.pending ≡ 0))

  -- From a saver with no job waiting or in hand, whatever order callers and the writing thread take
  -- their steps in: the captures that were accepted, in their order, are those written, the one in
  -- hand and those waiting; the thread's files, counts and messages are those of writing the former
  -- one after the other; and the status counts the others as pending.
  pub steps_in_order :
      (s : Saver J W) (l : List (Step J))
      → IsFresh s
      → IsSequential make files s (steps make files l s) (accepted make files l s)
  unfolding write_all
  steps_in_order s l f = steps-IsSequential s s [] l (record {
    written = [];
    in_order = rw (f.0, f.1.0) refl;
    as_written = refl;
    counted = rw (f.0, f.1.0) f.1.1;
    same_root = refl;
  })
