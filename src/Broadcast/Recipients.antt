-- ===== src/Broadcast/Recipients.antt =====
-- net/MultiServerManager.cpp: who gets a capture request.
use telefacet.Shared.{
  ℕ, zero, suc, ◌+◌, Bool, true, false, ◌&&◌, List, [], ◌∷◌, ◌++◌, append_assoc, append-nil, map,
  none, some, length, get_elem?, ℤ, if◌then◌else◌, Option, Bool-cases, ◌≡◌, refl, inl, inr,
}
use telefacet.Config.{ServerCfg}
use telefacet.Client.{StackRequest}
use telefacet.Commands.{Command}
use telefacet.Broadcast.{Links, raw_of, tell_from, trigger_capture_all, stack_capture_all}

-- The numbers from `i` on, `count` of them, that pass a test, in ascending order.
abbrev pub passing : (ℕ → Bool) → ℕ → ℕ → List ℕ
passing test zero i = []
passing test (suc count) i =
    let later = passing test count (i + 1) in if test i then i ∷ later else later

-- Whether the server with the number is configured, with the raw stream.
abbrev pub has_raw : List ServerCfg → ℕ → Bool
has_raw [] i = false
has_raw (s ∷ rest) zero = s.raw
has_raw (s ∷ rest) (suc i) = has_raw rest i

raw_of_lem : (servers : List ServerCfg) (i : ℕ) → raw_of (get_elem? servers i) ≡ has_raw servers i
raw_of_lem [] i = refl
raw_of_lem (s ∷ rest) zero = refl
raw_of_lem (s ∷ rest) (suc i) = raw_of_lem rest i

-- The connections of which each is connected or not and takes a command or not, and which keep a log
-- of every command that they are given, with the server.
abbrev pub logged : {J : Type 0} → (ℕ → Bool) → (ℕ → Bool) → Links J (List (ℕ × Command J))
logged connected takes = record {
  is_connected = λ i log. connected i;
  in_progress = λ i log. false;
  send = λ i cmd log. (takes i, log ++ (i, cmd) ∷ []);
}

module _ {J : Type 0} (connected takes : ℕ → Bool) where
  -- A loop that has one command, for the servers that are wanted.
  tell_from-logged :
      (wanted : ℕ → Bool) (cmd : Command J) (command : ℕ → Option (Command J))
      → ((j : ℕ) → command j ≡ (if wanted j then some cmd else none))
      → (count i : ℕ) (log : List (ℕ × Command J))
      → tell_from (logged connected takes) count i command log ≡ (
        passing (λ j. wanted j && (connected j && takes j)) count i,
        log ++ map (λ j. (j, cmd)) (passing (λ j. wanted j && connected j) count i),
      )
  unfolding tell_from
  tell_from-logged wanted cmd command e zero i log = rw append-nil refl
  tell_from-logged wanted cmd command e (suc count) i log =
      let later = tell_from-logged wanted cmd command e count (i + 1) in
      let joined : ((log ++ (i, cmd) ∷ [])
            ++ map (λ j. (j, cmd)) (passing (λ j. wanted j && connected j) count (i + 1)))
          ≡ log
            ++ (i, cmd)
              ∷ map (λ j. (j, cmd)) (passing (λ j. wanted j && connected j) count (i + 1)) =
        append_assoc log ((i, cmd) ∷ []) _ in
      elim (Bool-cases (wanted i)) [
        | inr w ↦ elim (Bool-cases (connected i)) [
          | inr off ↦ rw (off, w, tell_from) (later log)
          | inl on ↦ rw (on, e i, w, tell_from) (later log)
        ]
        | inl w ↦ elim (Bool-cases (connected i)) [
          | inr off ↦ rw (off, w, tell_from) (later log)
          | inl on ↦ elim (Bool-cases (takes i)) [
            | inl t ↦ rw (on, e i, w, t, tell_from, later (log ++ (i, cmd) ∷ [])) (rw joined refl)
            | inr t ↦ rw (on, e i, w, t, tell_from, later (log ++ (i, cmd) ∷ [])) (rw joined refl)
          ]
        ]
      ]

  -- Whichever servers are connected, and whichever of these take a command: a trigger is sent to each
  -- configured server that is connected, and a stack, for all cameras whatever camera was asked for,
  -- to each of these that is configured with the raw stream; each is sent it once, in the order of
  -- the configuration, and no other command is sent. The servers that are returned are the ones of
  -- these that took it.
  pub recipients_lem :
      (servers : List ServerCfg) (skip : Option ℤ) (image : Option Bool) (req : StackRequest)
      (log : List (ℕ × Command J))
      → let links = logged connected takes in
        let n = length servers in
        let trigger : Command J = Command.trigger_capture none skip image in
        let stack : Command J = Command.stack_capture (record req { camera_id = none }) in
        let raw = has_raw servers in
        (trigger_capture_all links servers skip image log ≡ (
          passing (λ i. connected i && takes i) n 0,
          log ++ map (λ i. (i, trigger)) (passing connected n 0),
        ))
        × (stack_capture_all links servers req log ≡ (
          passing (λ i. raw i && (connected i && takes i)) n 0,
          log ++ map (λ i. (i, stack)) (passing (λ i. raw i && connected i) n 0),
        ))
  unfolding trigger_capture_all stack_capture_all
  recipients_lem servers skip image req log =
      let n = length servers in
      (
        tell_from-logged (λ i. true) (Command.trigger_capture none skip image) _ (λ j. refl) n 0
            log,
        tell_from-logged (has_raw servers) (Command.stack_capture (record req { camera_id = none }))
            _ (λ j. rw (raw_of_lem servers j) refl) n 0 log,
      )
