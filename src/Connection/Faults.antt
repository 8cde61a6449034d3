-- ===== src/Connection/Faults.antt =====
-- What a text message leaves behind when reading it throws.
use telefacet.Shared.{
  ◌≡◌, refl, inl, inr, Bool, true, false, Bool-cases, Option-cases, List, [], Option, none, some,
  Text, codes, if◌then◌else◌,
}
use telefacet.Json.{JsonOps}
use telefacet.Connection.{
  Callbacks, Connection, Event, Run, attempt, done, call_status, handle_text, dispatch,
  handle_discovery, handle_state, note_state, is_configured, handle_duration_limits,
  handle_lens_limits, handle_region, handle_trigger_result, handle_stack_result, handle_status,
  handle_error,
}

module _ {J : Type 0} where
  -- The same cameras, limits, results and captures.
  abbrev pub SameRecords : Connection J → Connection J → Type 0
  SameRecords c d =
      (c.cameras ≡ d.cameras)
      × (c.frame_duration_limits ≡ d.frame_duration_limits)
      × (c.lens_position_limits ≡ d.lens_position_limits)
      × (c.last_trigger_result ≡ d.last_trigger_result)
      × (c.last_stack_result ≡ d.last_stack_result)
      × (c.captures ≡ d.captures)

  record KeptIfThrown (c : Connection J) (r : Run J) : Type 0 where
    kept : r.threw ≡ true → SameRecords r.conn c

  same : (c : Connection J) → SameRecords c c
  same c = (refl, refl, refl, refl, refl, refl)

  done-KeptIfThrown :
      (c : Connection J) (events : List (Event J)) (d : Connection J)
      → KeptIfThrown c (done events d)
  done-KeptIfThrown c events d = record { kept = λ t. cc }

  attempt-KeptIfThrown :
      {A : Type 0} (c d : Connection J) (events : List (Event J)) (read : Option A)
      (rest : A → Run J)
      → SameRecords d c
      → ((a : A) → read ≡ some a → KeptIfThrown c (rest a))
      → KeptIfThrown c (attempt events d read rest)
  unfolding attempt
  attempt-KeptIfThrown c d events none rest h k = record { kept = λ t. h }
  attempt-KeptIfThrown c d events (some a) rest h k = k a refl

  note_state-SameRecords : (state : Text) (c : Connection J) → SameRecords (note_state state c) c
  unfolding note_state
  note_state-SameRecords state c = elim (Bool-cases (is_configured state)) [
    | inl e ↦ rw e (same c)
    | inr e ↦ rw e (same c)
  ]

module _ {J : Type 0} (json : JsonOps J) (cb : Callbacks) (j : J) (c : Connection J) where
  handle_state-KeptIfThrown : KeptIfThrown c (handle_state json cb j c)
  unfolding handle_state
  handle_state-KeptIfThrown = attempt-KeptIfThrown c c [] _ _ (same c) λ state _.
      let kept = note_state-SameRecords state c in
      attempt-KeptIfThrown c _ _ _ _ kept
        λ cause _. attempt-KeptIfThrown c _ _ _ _ kept λ observer _. done-KeptIfThrown c _ _

  call_status-KeptIfThrown :
      (events : List (Event J)) (type message : Text) (d : Connection J)
      → json.value_text (codes "message") [] j ≡ some message
      → KeptIfThrown c (call_status json cb events type j d)
  unfolding attempt
  call_status-KeptIfThrown events type message d e = elim (Bool-cases cb.on_status) [
    | inl set ↦ rw (set, e) (done-KeptIfThrown c _ d)
    | inr unset ↦ rw unset (done-KeptIfThrown c events d)
  ]

  finish-KeptIfThrown :
      (d : Connection J)
      → SameRecords d c
      → KeptIfThrown c (call_status json cb [] (codes "status") j d)
  finish-KeptIfThrown d h = elim (Bool-cases cb.on_status) [
    | inl set ↦ rw set (attempt-KeptIfThrown c d [] _ _ h λ message _. done-KeptIfThrown c _ d)
    | inr unset ↦ rw unset (done-KeptIfThrown c [] d)
  ]

  handle_status-KeptIfThrown : KeptIfThrown c (handle_status json cb j c)
  unfolding handle_status
  handle_status-KeptIfThrown = elim (Bool-cases (json.contains (codes "focus_fom_region") j)) [
    | inl there ↦ rw there (
        attempt-KeptIfThrown c c [] _ _ (same c) λ r _.
          attempt-KeptIfThrown c (record c { focus_fom_region = r }) [] _ _ (same c)
            λ stream _.
              finish-KeptIfThrown (record c { focus_fom_region = r; raw_stream = stream }) (same c))
    | inr absent ↦ rw absent (finish-KeptIfThrown c (same c))
  ]

  handle_error-KeptIfThrown : KeptIfThrown c (handle_error json cb j c)
  unfolding handle_error
  handle_error-KeptIfThrown = attempt-KeptIfThrown c c [] _ _ (same c) λ code _.
      attempt-KeptIfThrown c c [] _ _ (same c)
        λ message read. call_status-KeptIfThrown _ _ message _ read

  handle_discovery-KeptIfThrown : KeptIfThrown c (handle_discovery json cb j c)
  unfolding handle_discovery
  handle_discovery-KeptIfThrown =
      attempt-KeptIfThrown c c [] _ _ (same c) λ cams _. done-KeptIfThrown c _ _

  handle_trigger_result-KeptIfThrown : KeptIfThrown c (handle_trigger_result json cb j c)
  unfolding handle_trigger_result
  handle_trigger_result-KeptIfThrown =
      attempt-KeptIfThrown c c [] _ _ (same c) λ tr _. done-KeptIfThrown c _ _

  handle_stack_result-KeptIfThrown : KeptIfThrown c (handle_stack_result json cb j c)
  unfolding handle_stack_result
  handle_stack_result-KeptIfThrown =
      attempt-KeptIfThrown c c [] _ _ (same c) λ sr _. done-KeptIfThrown c _ _

  handle_duration_limits-KeptIfThrown : KeptIfThrown c (handle_duration_limits json cb j c)
  unfolding handle_duration_limits
  handle_duration_limits-KeptIfThrown =
      attempt-KeptIfThrown c c [] _ _ (same c) λ fdl _. done-KeptIfThrown c _ _

  handle_lens_limits-KeptIfThrown : KeptIfThrown c (handle_lens_limits json cb j c)
  unfolding handle_lens_limits
  handle_lens_limits-KeptIfThrown =
      attempt-KeptIfThrown c c [] _ _ (same c) λ lpl _. done-KeptIfThrown c _ _

  handle_region-KeptIfThrown : KeptIfThrown c (handle_region json cb j c)
  unfolding handle_region
  handle_region-KeptIfThrown =
      attempt-KeptIfThrown c c [] _ _ (same c) λ r _. done-KeptIfThrown c _ _

  if-KeptIfThrown :
      (b : Bool) (r s : Run J)
      → KeptIfThrown c r
      → KeptIfThrown c s
      → KeptIfThrown c (if b then r else s)
  if-KeptIfThrown true r s h k = h
  if-KeptIfThrown false r s h k = k

  dispatch-KeptIfThrown : (type : Text) → KeptIfThrown c (dispatch json cb type j c)
  unfolding dispatch
  dispatch-KeptIfThrown type = if-KeptIfThrown _ _ _ handle_discovery-KeptIfThrown (
      if-KeptIfThrown _ _ _ handle_state-KeptIfThrown (
        if-KeptIfThrown _ _ _ handle_duration_limits-KeptIfThrown (
          if-KeptIfThrown _ _ _ handle_lens_limits-KeptIfThrown (
            if-KeptIfThrown _ _ _ handle_region-KeptIfThrown (
              if-KeptIfThrown _ _ _ handle_trigger_result-KeptIfThrown (
                if-KeptIfThrown _ _ _ handle_stack_result-KeptIfThrown (
                  if-KeptIfThrown _ _ _ handle_status-KeptIfThrown (
                    if-KeptIfThrown _ _ _ handle_error-KeptIfThrown
                      (done-KeptIfThrown c [] c)))))))))

-- A text message whose reading throws leaves the cameras, the limits, the last results and the
-- captures of the connection as they were, in every type of message.
pub handle_text_throws :
    {J : Type 0} (json : JsonOps J) (cb : Callbacks) (text : Text) (c : Connection J)
    → (handle_text json cb text c).threw ≡ true
    → SameRecords (handle_text json cb text c).conn c
unfolding handle_text
handle_text_throws json cb text c = handled.kept
  where
    handled : KeptIfThrown c (handle_text json cb text c)
    handled = elim (Option-cases (json.parse text)) [
      | inl bad ↦ rw (bad, handle_text) (done-KeptIfThrown c [] c)
      | inr (j, good) ↦
          rw (good, handle_text)
            (attempt-KeptIfThrown c c [] _ _ (same c)
              λ type _. dispatch-KeptIfThrown json cb j c type)
    ]
