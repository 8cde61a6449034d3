-- ===== src/Stats/Window.antt =====
-- The window of frame durations behind the server's fps: it holds the last ten durations there are.
use telefacet.Shared.{
  ℕ, zero, suc, ◌<◌, false, ◌+◌, ◌-◌, ◌≤◌, ◌≡◌, refl, ap, sym, ◌∙◌, inl, inr, List, [], ◌∷◌, ◌++◌,
  append-nil, append_assoc, Option, none, some, arith, length, length-append, length-drop, drop,
  ltb, leb, leb→le, ◌==◌, ◌&&◌, not, Bool-cases, Option-cases, if◌then◌else◌,
}
use telefacet.Frame.{FrameBuffer}
use telefacet.Stats.{
  FloatOps, LiveStats, elapsed_ms, is_nil, fresh_stats, gap_duration, push_duration, count_frame,
  server_duration, note_duration, refresh_server_fps, update_stats,
}

abbrev pub last_ten : {A : Type 0} → List A → List A
last_ten xs = drop (length xs - 10) xs

drop_comm : {A : Type 0} (n : ℕ) (xs : List A) → drop 1 (drop n xs) ≡ drop (suc n) xs
drop_comm zero xs = refl
drop_comm (suc n) [] = refl
drop_comm (suc n) (x ∷ xs) = drop_comm n xs

drop-append_short :
    {A : Type 0} (n : ℕ) (xs ys : List A) → n ≤ length xs → drop n (xs ++ ys) ≡ drop n xs ++ ys
drop-append_short zero xs ys h = refl
drop-append_short (suc n) [] ys h = absurd (omega arith)
drop-append_short (suc n) (x ∷ xs) ys h = drop-append_short n xs ys (omega arith)

push_duration-last_ten :
    {F : Type 0} (d : F) (ds : List F) → push_duration d (last_ten ds) ≡ last_ten (ds ++ d ∷ [])
push_duration-last_ten d ds = elim (Bool-cases (leb 10 (length ds))) [
  | inl full ↦
      let h : 10 ≤ length ds = leb→le 10 (length ds) full in
      let len : length (last_ten ds ++ d ∷ []) ≡ 11 =
        length-append (last_ten ds) (d ∷ [])
        ∙ ap (λ n. n + 1) (length-drop (length ds - 10) ds)
        ∙ omega arith in
      let more : length (ds ++ d ∷ []) - 10 ≡ suc (length ds - 10) =
        ap (λ n. n - 10) (length-append ds (d ∷ [])) ∙ omega arith in
      rw (len, more)
        (ap (drop 1) (sym (drop-append_short (length ds - 10) ds (d ∷ []) (omega arith)))
          ∙ drop_comm (length ds - 10) (ds ++ d ∷ []))
  | inr room ↦
      let h : length ds < 10 = ground (arith, room) in
      let none_dropped : length ds - 10 ≡ 0 = omega arith in
      let nor_now : length (ds ++ d ∷ []) - 10 ≡ 0 =
        ap (λ n. n - 10) (length-append ds (d ∷ [])) ∙ omega arith in
      let fits : ltb 10 (length (ds ++ d ∷ [])) ≡ false =
        rw (length-append ds (d ∷ [])) (ground arith) in
      rw (none_dropped, nor_now, fits) refl
]

module _ {F : Type 0} (fl : FloatOps F) where
  open fl use {double, zero_double, div_double, is_positive}

  -- The duration of a frame: without a hardware timestamp, what the frame itself says; else the time
  -- since the last timestamp, over the gap in ids, if there is a last timestamp and the id is higher.
  abbrev pub duration : ℕ → Option ℕ → FrameBuffer → F
  duration last_ts last_id b =
      if b.timestamp_us == 0
      then (if b.frame_duration_us == 0 then zero_double else double b.frame_duration_us)
      else if last_ts == 0
      then zero_double
      else gap_duration fl b.timestamp_us b.frame_id last_ts last_id

  -- The positive durations of a run of frames, oldest first, from the last timestamp and id before.
  abbrev pub durations : ℕ → Option ℕ → List (ℕ × FrameBuffer) → List F
  durations last_ts last_id [] = []
  durations last_ts last_id ((now, b) ∷ rest) =
      let later =
        durations (if b.timestamp_us == 0 then last_ts else b.timestamp_us) (some b.frame_id)
          rest in
      let d = duration last_ts last_id b in if is_positive d then d ∷ later else later

  abbrev pub update_all : List (ℕ × FrameBuffer) → LiveStats F → LiveStats F
  update_all [] s = s
  update_all ((now, b) ∷ rest) s = update_all rest (update_stats fl now b s)

  server_duration-duration :
      (b : FrameBuffer) (s : LiveStats F)
      → server_duration fl b s ≡ duration s.server_last_timestamp s.server_last_frame_id b
  unfolding server_duration
  server_duration-duration b s = elim (Option-cases s.server_last_frame_id) [
    | inl e ↦ rw e (ground arith)
    | inr (id, e) ↦ rw e (ground arith)
  ]

  -- What of the statistics the window of durations is about.
  abbrev window_of : LiveStats F → List F × ℕ × Option ℕ
  window_of s = (s.server_durations, s.server_last_timestamp, s.server_last_frame_id)

  abbrev next_window : FrameBuffer → List F × ℕ × Option ℕ → List F × ℕ × Option ℕ
  next_window b (ds, ts, id) =
      let d = duration ts id b in
      (
        if is_positive d then push_duration d ds else ds,
        if b.timestamp_us == 0 then ts else b.timestamp_us,
        some b.frame_id,
      )

  window_of-count_frame :
      (now : ℕ) (s : LiveStats F) → window_of (count_frame fl now s) ≡ window_of s
  unfolding count_frame
  window_of-count_frame now s = elim (Bool-cases (leb 1000 (elapsed_ms now s.fps_window_start))) [
    | inl e ↦ rw e refl
    | inr e ↦ rw e refl
  ]

  window_of-refresh_server_fps :
      (now : ℕ) (s : LiveStats F) → window_of (refresh_server_fps fl now s) ≡ window_of s
  unfolding refresh_server_fps
  window_of-refresh_server_fps now s =
      elim (Bool-cases
        (leb 1000 (elapsed_ms now s.server_fps_wall) && not (is_nil fl s.server_durations))) [
          | inl e ↦ rw e refl
          | inr e ↦ rw e refl
        ]

  window_of-note_duration :
      (b : FrameBuffer) (s : LiveStats F)
      → window_of (note_duration fl b s) ≡ next_window b (window_of s)
  unfolding note_duration
  window_of-note_duration b s = rw (server_duration-duration b s) (ground arith)

  window_of-update_stats :
      (now : ℕ) (b : FrameBuffer) (s : LiveStats F)
      → window_of (update_stats fl now b s) ≡ next_window b (window_of s)
  unfolding update_stats
  window_of-update_stats now b s =
      let seen = record s { last_frame_id = b.frame_id; frames_saved = b.frames_saved } in
      window_of-refresh_server_fps now (note_duration fl b (count_frame fl now seen))
      ∙ window_of-note_duration b (count_frame fl now seen)
      ∙ ap (next_window b) (window_of-count_frame now seen)

  window :
      (frames : List (ℕ × FrameBuffer)) (s : LiveStats F) (before : List F)
      → s.server_durations ≡ last_ten before
      → (update_all frames s).server_durations
        ≡ last_ten (before ++ durations s.server_last_timestamp s.server_last_frame_id frames)
  window [] s before h = h ∙ ap last_ten (sym (append-nil before))
  window ((now, b) ∷ rest) s before h =
      let s' = update_stats fl now b s in
      let e = window_of-update_stats now b s in
      let d = duration s.server_last_timestamp s.server_last_frame_id b in
      elim (Bool-cases (is_positive d)) [
        | inl pos ↦
            let kept : s'.server_durations ≡ last_ten (before ++ d ∷ []) =
              ap (λ w. w.0) e ∙ rw pos (ap (push_duration d) h ∙ push_duration-last_ten d before) in
            window rest s' (before ++ d ∷ []) kept
            ∙ ap (λ w. last_ten ((before ++ d ∷ []) ++ durations w.1 w.2 rest)) e
            ∙ rw pos (ap last_ten (append_assoc before (d ∷ []) _))
        | inr neg ↦
            let kept : s'.server_durations ≡ last_ten before = ap (λ w. w.0) e ∙ rw neg h in
            window rest s' before kept
            ∙ ap (λ w. last_ten (before ++ durations w.1 w.2 rest)) e
            ∙ rw neg refl
      ]

  -- The durations that the server's fps averages are the last ten positive ones that the frames of
  -- the camera gave.
  pub server_durations-update_all :
      (created : ℕ) (frames : List (ℕ × FrameBuffer))
      → (update_all frames (fresh_stats fl created)).server_durations
        ≡ last_ten (durations 0 none frames)
  server_durations-update_all created frames = window frames (fresh_stats fl created) [] refl
