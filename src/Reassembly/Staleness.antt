-- ===== src/Reassembly/Staleness.antt =====
-- `sweepStale`: which frames it drops, and what the pool gets back.
use telefacet.Shared.{
  ℕ, zero, suc, ◌+◌, ◌-◌, ◌≤◌, ◌<◌, ltb, leb, ◌≡◌, refl, ap, sym, ◌∙◌, true, false, Bool-cases, inl,
  inr, List, [], ◌∷◌, Option, some, none, ◌>>=◌, arith, length, min, lookup, lookup-absent,
  Distinct, if◌then◌else◌,
}
use telefacet.Frame.{FrameBuffer}
use telefacet.Pool.{Pool, release}
use telefacet.Reassembly.{
  InFlight, State, is_stale, sweep_entries, sweep_stale, reset, release_entries,
}

-- The entry, unless it is stale.
abbrev pub unless_stale : ℕ → ℕ → Option InFlight → Option InFlight
unless_stale now timeout entry = do inf ← entry; if is_stale now timeout inf then none else some inf

-- The entries whose last chunk is at most `timeout` old.
abbrev pub recent_entries : ℕ → ℕ → List (ℕ × InFlight) → List (ℕ × InFlight)
recent_entries now timeout [] = []
recent_entries now timeout ((uuid, inf) ∷ rest) =
    let later = recent_entries now timeout rest in
    if leb now (inf.last_chunk + timeout) then (uuid, inf) ∷ later else later

-- The buffers of the other entries.
abbrev pub old_buffers : ℕ → ℕ → List (ℕ × InFlight) → List FrameBuffer
old_buffers now timeout [] = []
old_buffers now timeout ((uuid, inf) ∷ rest) =
    let later = old_buffers now timeout rest in
    if leb now (inf.last_chunk + timeout) then later else inf.buf ∷ later

-- As many buffers as there is room for, each put in front of those before it.
abbrev pub put_back : ℕ → List FrameBuffer → List FrameBuffer → List FrameBuffer
put_back zero buffers free = free
put_back (suc room) [] free = free
put_back (suc room) (b ∷ rest) free = put_back room rest (b ∷ free)

sweep_entries-lookup :
    (now timeout uuid : ℕ) (entries : List (ℕ × InFlight)) (pool : Pool)
    → Distinct entries
    → lookup uuid (sweep_entries now timeout entries pool).0
      ≡ unless_stale now timeout (lookup uuid entries)
unfolding sweep_entries
sweep_entries-lookup now timeout uuid [] pool d = refl
sweep_entries-lookup now timeout uuid ((k, inf) ∷ rest) pool d = ground (
  arith,
  sweep_entries-lookup now timeout uuid rest pool d.1,
  sweep_entries-lookup now timeout uuid rest (release 1 (some inf.buf) pool) d.1,
  lookup-absent k rest d.0,
)

sweep_entries-recent :
    (now timeout : ℕ) (entries : List (ℕ × InFlight)) (pool : Pool)
    → (sweep_entries now timeout entries pool).0 ≡ recent_entries now timeout entries
unfolding sweep_entries
sweep_entries-recent now timeout [] pool = refl
sweep_entries-recent now timeout ((k, inf) ∷ rest) pool =
    elim (Bool-cases (is_stale now timeout inf)) [
      | inl old ↦
          let late : leb now (inf.last_chunk + timeout) ≡ false = ground (arith, old) in
          rw (late, old, sweep_entries)
            (sweep_entries-recent now timeout rest (release 1 (some inf.buf) pool))
      | inr fresh ↦
          let in_time : leb now (inf.last_chunk + timeout) ≡ true = ground (arith, fresh) in
          rw (in_time, fresh, sweep_entries)
            (ap (◌∷◌ (k, inf)) (sweep_entries-recent now timeout rest pool))
    ]

release-put_back :
    (room : ℕ) (b : FrameBuffer) (rest : List FrameBuffer) (pool : Pool)
    → room + length pool.free ≡ 16
    → (later : ℕ) × ((later + length (release 1 (some b) pool).free ≡ 16)
        × (put_back room (b ∷ rest) pool.free ≡ put_back later rest (release 1 (some b) pool).free))
unfolding release
release-put_back zero b rest pool h =
    let full : ltb (length pool.free) 16 ≡ false = ground (arith, h) in
    rw (full, release) (0, (h, refl))
release-put_back (suc room) b rest pool h =
    let space : ltb (length pool.free) 16 ≡ true = ground (arith, h) in
    rw (space, release) (room, (omega (arith, h), refl))

put_back_none : (room : ℕ) (free : List FrameBuffer) → put_back room [] free ≡ free
put_back_none zero free = refl
put_back_none (suc room) free = refl

sweep_entries-put_back :
    (now timeout room : ℕ) (entries : List (ℕ × InFlight)) (pool : Pool)
    → room + length pool.free ≡ 16
    → (sweep_entries now timeout entries pool).1.free
      ≡ put_back room (old_buffers now timeout entries) pool.free
unfolding sweep_entries
sweep_entries-put_back now timeout room [] pool h = sym (put_back_none room pool.free)
sweep_entries-put_back now timeout room ((k, inf) ∷ rest) pool h =
    elim (Bool-cases (is_stale now timeout inf)) [
      | inl old ↦
          let late : leb now (inf.last_chunk + timeout) ≡ false = ground (arith, old) in
          let (later, (h', e)) =
            release-put_back room inf.buf (old_buffers now timeout rest) pool h in
          rw (late, old, sweep_entries)
            (sweep_entries-put_back now timeout later rest (release 1 (some inf.buf) pool) h'
              ∙ sym e)
      | inr fresh ↦
          let in_time : leb now (inf.last_chunk + timeout) ≡ true = ground (arith, fresh) in
          rw (in_time, fresh, sweep_entries) (sweep_entries-put_back now timeout room rest pool h)
    ]

length-put_back :
    (room : ℕ) (buffers free : List FrameBuffer)
    → length (put_back room buffers free) ≡ min room (length buffers) + length free
length-put_back zero buffers free = omega arith
length-put_back (suc room) [] free = omega arith
length-put_back (suc room) (b ∷ rest) free = length-put_back room rest (b ∷ free) ∙ omega arith

release_entries-free :
    (entries : List (ℕ × InFlight)) (pool : Pool)
    → length pool.free ≤ 16
    → length (release_entries entries pool).free ≡ min 16 (length pool.free + length entries)
unfolding release_entries release
release_entries-free [] pool h = omega arith
release_entries-free ((k, inf) ∷ rest) pool h =
    ground (arith, release_entries-free rest (release 1 (some inf.buf) pool))

module _ {W : Type 0} (s : State W) where
  -- A sweep keeps a frame, as it is, exactly if its last chunk is at most `timeout` old.
  pub sweep_stale_keeps :
      (now timeout uuid : ℕ) (inf : InFlight)
      → Distinct s.in_flight
      → lookup uuid s.in_flight ≡ some inf
      → (now ≤ inf.last_chunk + timeout
          → lookup uuid (sweep_stale now timeout s).in_flight ≡ some inf)
        × (inf.last_chunk + timeout < now
            → lookup uuid (sweep_stale now timeout s).in_flight ≡ none)
  unfolding sweep_stale
  sweep_stale_keeps now timeout uuid inf d found =
      (λ h. ground (arith, swept), λ h. ground (arith, swept))
    where
      swept :
          lookup uuid (sweep_entries now timeout s.in_flight s.pool).0
          ≡ unless_stale now timeout (lookup uuid s.in_flight)
      swept = sweep_entries-lookup now timeout uuid s.in_flight s.pool d

  -- While the pool has at most 16 free buffers, a sweep keeps the frames whose last chunk is at most
  -- `timeout` old, as they are and in their order; the buffers of the others, one after the other,
  -- each go to the front of the free ones, until these are 16.
  pub sweep_stale_frees :
      (now timeout : ℕ)
      → length s.pool.free ≤ 16
      → let swept = sweep_stale now timeout s in
        let old = old_buffers now timeout s.in_flight in
        (swept.in_flight ≡ recent_entries now timeout s.in_flight)
        × ((swept.pool.free ≡ put_back (16 - length s.pool.free) old s.pool.free)
            × (length swept.pool.free ≡ min 16 (length s.pool.free + length old)))
  unfolding sweep_stale
  sweep_stale_frees now timeout h =
      let room = 16 - length s.pool.free in
      let old = old_buffers now timeout s.in_flight in
      let freed = sweep_entries-put_back now timeout room s.in_flight s.pool (omega (arith, h)) in
      (
        sweep_entries-recent now timeout s.in_flight s.pool,
        (freed, ap length freed ∙ length-put_back room old s.pool.free ∙ omega (arith, h)),
      )

  -- `reset` forgets every frame, and gives their buffers back, as far as the pool has room.
  pub reset_lem :
      length s.pool.free ≤ 16
      → (length (reset s).in_flight ≡ 0)
        × (length (reset s).pool.free ≡ min 16 (length s.pool.free + length s.in_flight))
  unfolding reset
  reset_lem h = (refl, release_entries-free s.in_flight s.pool h)
