-- ===== src/Reassembly/Bounds.antt =====
-- The reassembler on any bytes: no read outside a message or a table, and its invariant kept.
use telefacet.Shared.{
  ℕ, zero, suc, ◌+◌, ◌*◌, ◌^◌, ◌≤◌, ◌<◌, ◌==◌, ltb, leb, not, ◌&&◌, ◌≡◌, refl, ◌⊎◌, inl, inr, false,
  List, [], ◌∷◌, Option, some, none, arith, memcpy_in_bounds, take, drop, length, length-drop, All,
  All-lookup, All-insert, All-erase, All-emplace, Distinct, insert-Distinct, erase-Distinct,
  emplace-Distinct, lookup, erase, insert, replicate, set, get_elem?-eq_some, length-replicate,
  length-set, IsByte, All-take, All-drop, field_lt, field, Bool-cases, Option-cases, le,
}
use telefacet.Frame.{CornerSet, ArucoMarker}
use telefacet.Wire.{
  ChunkHeader, read_header, DetectionKind, detection_kind_of, no_detection, checkerboard, aruco,
  chunk_start_magic, chunk_data_magic, read_chunk_data, ChunkData,
}
use telefacet.Detection.Bounds.{parse_corner_block_in_bounds, parse_marker_block_in_bounds}
use telefacet.Pool.{Pool, acquire, resize}
use telefacet.Reassembly.{
  InFlight, State, Callback, Clock, is_empty, parse_detection, parse_by_kind, with_chunk,
  sweep_entries, sweep_stale, reset, periodic_sweep, start_frame, handle_start, handle_header,
  handle_data, store_found, complete, store_chunk, handle_chunk, on_binary, is_stale, assemble,
  second, new_in_flight, frame_info,
}

-- How many slots hold a chunk.
abbrev pub filled : List (List ℕ) → ℕ
filled [] = 0
filled ([] ∷ chunks) = filled chunks
filled ((b ∷ bytes) ∷ chunks) = suc (filled chunks)

-- A slot for each chunk, no more filled than received, and never all received: a frame whose last
-- chunk arrives leaves the table.
pub record IsEntry (entry : ℕ × InFlight) : Type 0 where
  pub slots : length entry.1.chunks ≡ entry.1.total_chunks
  pub small : entry.1.total_chunks < 2 ^ 32
  pub progress : filled entry.1.chunks ≤ entry.1.received
  pub unfinished : (entry.1.received ≡ 0) ⊎ (entry.1.received < entry.1.total_chunks)

pub record IsValid {W : Type 0} (s : State W) : Type 0 where
  pub entries : All IsEntry s.in_flight
  pub distinct : Distinct s.in_flight

-- The step reads inside its buffers, and keeps the invariant.
abbrev pub Safe : {W : Type 0} → Option (State W) → Type 0
Safe {W} r = (s : State W) × (r ≡ some s) × IsValid s

pub filled-replicate : (n : ℕ) → filled (replicate n []) ≡ 0
filled-replicate zero = refl
filled-replicate (suc n) = filled-replicate n

pub filled-set :
    (chunks : List (List ℕ)) (i : ℕ) (v : List ℕ) → filled (set chunks i v) ≤ filled chunks + 1
filled-set [] i v = omega arith
filled-set ([] ∷ chunks) zero [] = omega arith
filled-set ([] ∷ chunks) zero (b ∷ v) = omega arith
filled-set ((c ∷ cs) ∷ chunks) zero [] = omega arith
filled-set ((c ∷ cs) ∷ chunks) zero (b ∷ v) = omega arith
filled-set ([] ∷ chunks) (suc i) v = filled-set chunks i v
filled-set ((c ∷ cs) ∷ chunks) (suc i) v = omega (arith, filled-set chunks i v)

parse_by_kind_in_bounds :
    (kind : Option DetectionKind) (hdr : ChunkHeader) (block : List ℕ)
    → hdr.corner_block_size ≤ length block
    → (found : List CornerSet × List ArucoMarker) × (parse_by_kind kind hdr block ≡ some found)
unfolding parse_by_kind
parse_by_kind_in_bounds none hdr block h = (([], []), refl)
parse_by_kind_in_bounds (some no_detection) hdr block h = (([], []), refl)
parse_by_kind_in_bounds (some checkerboard) hdr block h =
    let (sets, e, _, _) =
      parse_corner_block_in_bounds block hdr.corner_block_size hdr.num_corner_sets h in
    ((sets, []), rw e)
parse_by_kind_in_bounds (some aruco) hdr block h =
    let (markers, e, _, _) =
      parse_marker_block_in_bounds block hdr.corner_block_size hdr.num_corner_sets h in
    (([], markers), rw e)

sweep_entries-All :
    (P : ℕ × InFlight → Type 0) (now timeout : ℕ) (entries : List (ℕ × InFlight)) (pool : Pool)
    → All P entries
    → All P (sweep_entries now timeout entries pool).0
unfolding sweep_entries
sweep_entries-All P now timeout [] pool h = tt
sweep_entries-All P now timeout ((uuid, inf) ∷ rest) pool h =
    elim (Bool-cases (is_stale now timeout inf)) [
      | inl e ↦ rw e (sweep_entries-All P now timeout rest _ h.1)
      | inr e ↦ rw e (h.0, sweep_entries-All P now timeout rest _ h.1)
    ]

sweep_entries-Distinct :
    (now timeout : ℕ) (entries : List (ℕ × InFlight)) (pool : Pool)
    → Distinct entries
    → Distinct (sweep_entries now timeout entries pool).0
unfolding sweep_entries
sweep_entries-Distinct now timeout [] pool h = tt
sweep_entries-Distinct now timeout ((uuid, inf) ∷ rest) pool h =
    elim (Bool-cases (is_stale now timeout inf)) [
      | inl e ↦ rw e (sweep_entries-Distinct now timeout rest _ h.1)
      | inr e ↦ rw e (
        sweep_entries-All _ now timeout rest _ h.0,
        sweep_entries-Distinct now timeout rest _ h.1,
      )
    ]

module _ {W : Type 0} where
  pub sweep_stale-IsValid :
      (now timeout : ℕ) (s : State W) → IsValid s → IsValid (sweep_stale now timeout s)
  unfolding sweep_stale
  sweep_stale-IsValid now timeout s v = record {
    entries = sweep_entries-All IsEntry now timeout s.in_flight s.pool v.entries;
    distinct = sweep_entries-Distinct now timeout s.in_flight s.pool v.distinct;
  }

  periodic_sweep-IsValid :
      (clock : Clock) (s : State W) → IsValid s → IsValid (periodic_sweep clock s)
  unfolding periodic_sweep
  periodic_sweep-IsValid clock s v = ground (
    arith,
    sweep_stale-IsValid clock.swept (5 * second) (record s { last_sweep = clock.checked }),
  )

  -- `reset` leaves an empty, valid table.
  reset-IsValid : (s : State W) → IsValid (reset s)
  unfolding reset
  reset-IsValid s = record { entries = tt; distinct = tt }

pub equal_of_test : (a b : ℕ) → not (a == b) ≡ false → a ≡ b
equal_of_test a b h = ground arith

-- What the length check of `handleStart` leaves for the detection block.
block_fits :
    (bytes : List ℕ) (size : ℕ)
    → not (length bytes == 80 + size) ≡ false
    → size ≤ length (drop 80 bytes)
block_fits bytes size h =
    omega (arith, equal_of_test (length bytes) (80 + size) h, length-drop 80 bytes)

total_chunks_lt :
    (bytes : List ℕ)
    → All IsByte bytes
    → (read_header (take 72 (drop 8 bytes))).total_chunks < 2 ^ 32
unfolding read_header
total_chunks_lt bytes b =
    field_lt 12 4 (take 72 (drop 8 bytes))
      (All-take IsByte 72 (drop 8 bytes) (All-drop IsByte 8 bytes b))

module _ {W : Type 0} (cb : Callback W) where
  start_frame-IsValid :
      (now : ℕ) (hdr : ChunkHeader) (found : List CornerSet × List ArucoMarker) (s : State W)
      → hdr.total_chunks < 2 ^ 32
      → IsValid s
      → IsValid (start_frame cb now hdr found s)
  unfolding start_frame
  start_frame-IsValid now hdr (sets, markers) s h v =
      elim (Bool-cases (hdr.total_chunks == 0 && hdr.total_size == 0)) [
        | inl header_only ↦ rw header_only (record { entries = v.entries; distinct = v.distinct })
        | inr held ↦ rw held (record {
          entries = All-emplace IsEntry hdr.frame_uuid entry s.in_flight fresh v.entries;
          distinct = emplace-Distinct hdr.frame_uuid entry s.in_flight v.distinct;
        })
      ]
    where
      entry : InFlight
      entry = new_in_flight now hdr (acquire 0 s.pool).0 (frame_info hdr sets markers)

      fresh : IsEntry (hdr.frame_uuid, entry)
      fresh = record {
        slots = length-replicate hdr.total_chunks [];
        small = h;
        progress = omega (arith, filled-replicate hdr.total_chunks);
        unfinished = inl refl;
      }

  complete-IsValid :
      (uuid : ℕ) (inf : InFlight) (s : State W) → IsValid s → IsValid (complete cb uuid inf s)
  unfolding complete
  complete-IsValid uuid inf s v =
      elim (Option-cases (assemble inf.chunks (resize inf.total_size inf.buf.bytes) 0)) [
        | inl e ↦ rw (e, complete) erased
        | inr (bytes, e) ↦
            rw (e, complete) (record { entries = erased.entries; distinct = erased.distinct })
      ]
    where
      erased : IsValid (record s { in_flight = erase uuid s.in_flight })
      erased = record {
        entries = All-erase IsEntry uuid s.in_flight v.entries;
        distinct = erase-Distinct uuid s.in_flight v.distinct;
      }

  store_chunk-Safe :
      (now uuid index : ℕ) (payload : List ℕ) (inf : InFlight) (s : State W)
      → IsEntry (uuid, inf)
      → IsValid s
      → Safe (store_chunk cb now uuid index (some payload) inf s)
  unfolding store_chunk
  store_chunk-Safe now uuid index payload inf s e v =
      elim (Bool-cases (leb inf.total_chunks index)) [
        | inl outside ↦ (s, rw outside, v)
        | inr inside ↦
            let (slot, found) = get_elem?-eq_some inf.chunks index (ground (arith, e.slots)) in
            elim (Bool-cases (is_empty slot)) [
              | inr taken ↦ (s, rw (inside, found, taken), v)
              | inl free ↦ elim (Bool-cases (inf'.received == inf.total_chunks)) [
                | inl last ↦ (
                  complete cb uuid inf' s,
                  rw (inside, found, free, last),
                  complete-IsValid uuid inf' s v,
                )
                | inr more ↦ (
                  record s { in_flight = insert uuid inf' s.in_flight },
                  rw (inside, found, free, more),
                  record {
                    entries =
                        All-insert IsEntry uuid inf' s.in_flight (advanced inside more) v.entries;
                    distinct = insert-Distinct uuid inf' s.in_flight v.distinct;
                  },
                )
              ]
            ]
      ]
    where
      inf' : InFlight
      inf' = with_chunk now index payload inf

      advanced :
          leb inf.total_chunks index ≡ false
          → (inf'.received == inf.total_chunks) ≡ false
          → IsEntry (uuid, inf')
      advanced inside more = record {
        slots = omega (arith, e.slots, length-set inf.chunks index payload);
        small = e.small;
        progress =
            ground (arith, filled-set inf.chunks index payload, e.progress, e.unfinished, e.small);
        unfinished = inr (ground (arith, e.unfinished, e.small));
      }

  handle_chunk-Safe :
      (now : ℕ) (bytes : List ℕ) (s : State W) → IsValid s → Safe (handle_chunk cb now bytes s)
  unfolding handle_chunk handle_data store_found
  handle_chunk-Safe now bytes s v = elim (Bool-cases (ltb (length bytes) 16)) [
    | inl short ↦ (s, rw short, v)
    | inr long ↦
        let (copied, _) = memcpy_in_bounds bytes 0 16 (ground arith) in
        elim (Bool-cases (not (length bytes == 16 + chd.chunk_size))) [
          | inl mismatch ↦ (s, rw (copied, long, mismatch), v)
          | inr fits ↦ elim (Option-cases (lookup chd.frame_uuid s.in_flight)) [
            | inl unknown ↦ (s, rw (copied, long, fits, unknown), v)
            | inr (inf, found) ↦
                let (payload, _) = memcpy_in_bounds bytes 16 chd.chunk_size (ground arith) in
                let (s', e, v') =
                  store_chunk-Safe now chd.frame_uuid chd.chunk_index
                    (take chd.chunk_size (drop 16 bytes)) inf s
                    (All-lookup IsEntry chd.frame_uuid s.in_flight inf found v.entries) v in
                (s', rw (copied, long, fits, found, payload) e, v')
          ]
        ]
  ]
    where
      chd : ChunkData
      chd = read_chunk_data (take 16 bytes)

  handle_start-Safe :
      (now : ℕ) (bytes : List ℕ) (s : State W)
      → All IsByte bytes
      → IsValid s
      → Safe (handle_start cb now bytes s)
  unfolding handle_start handle_header parse_detection
  handle_start-Safe now bytes s b v = elim (Bool-cases (ltb (length bytes) 80)) [
    | inl short ↦ (s, rw short, v)
    | inr long ↦
        let (marker, _) = memcpy_in_bounds bytes 0 8 (ground arith) in
        let (header, _) = memcpy_in_bounds bytes 8 72 (ground arith) in
        elim (Bool-cases (not (field 4 4 (take 8 bytes) == 8))) [
          | inl version ↦ (s, rw (marker, header, long, version), v)
          | inr right ↦ elim (Bool-cases (not (length bytes == 80 + hdr.corner_block_size))) [
            | inl mismatch ↦ (s, rw (marker, header, long, right, mismatch), v)
            | inr fits ↦
                let (found, e) =
                  parse_by_kind_in_bounds (detection_kind_of hdr.detection_kind) hdr (drop 80 bytes)
                    (block_fits bytes hdr.corner_block_size fits) in
                (
                  start_frame cb now hdr found s,
                  rw (marker, header, long, right, fits, e),
                  start_frame-IsValid now hdr found s (total_chunks_lt bytes b) v,
                )
          ]
        ]
  ]
    where
      hdr : ChunkHeader
      hdr = read_header (take 72 (drop 8 bytes))

  -- On any message, of any length, the reassembler reads nothing outside the message, its detection
  -- block or its chunk table, terminates, and leaves its invariant: distinct ids, a slot for each
  -- chunk, and no frame that has all its chunks still in the table.
  pub on_binary-Safe :
      (clock : Clock) (bytes : List ℕ) (s : State W)
      → All IsByte bytes
      → IsValid s
      → Safe (on_binary cb clock bytes s)
  unfolding on_binary
  on_binary-Safe clock bytes s b v = elim (Bool-cases (ltb (length bytes) 8)) [
    | inl short ↦ (s, rw short, v)
    | inr long ↦
        let (first, _) = memcpy_in_bounds bytes 0 4 (ground arith) in
        elim (Bool-cases (le (take 4 bytes) == chunk_start_magic)) [
          | inl start ↦
              let (s', e, v') = handle_start-Safe clock.handled bytes s b v in
              (
                periodic_sweep clock s',
                rw (first, long, start, e),
                periodic_sweep-IsValid clock s' v',
              )
          | inr other ↦ elim (Bool-cases (le (take 4 bytes) == chunk_data_magic)) [
            | inl chunk ↦
                let (s', e, v') = handle_chunk-Safe clock.handled bytes s v in
                (
                  periodic_sweep clock s',
                  rw (first, long, other, chunk, e),
                  periodic_sweep-IsValid clock s' v',
                )
            | inr unknown ↦ (
              periodic_sweep clock s,
              rw (first, long, other, unknown),
              periodic_sweep-IsValid clock s v,
            )
          ]
        ]
  ]
