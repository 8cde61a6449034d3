-- ===== src/Reassembly/AnyOrder.antt =====
-- At-least-once delivery of chunks, in any order, gives exactly one delivery of the frame.
use mathlib.Core.List.{flatten}
use telefacet.Shared.{
  ℕ, ◌+◌, ◌%◌, ◌≤◌, ◌<◌, ◌^◌, ◌==◌, leb, ltb, ◌≡◌, refl, ap, sym, ◌∙◌, ◌⊎◌, inl, inr, true, false,
  not, List, [], ◌∷◌, append-nil, some, none, subst, arith, ==_iff, ltb→lt, length, length-append,
  get_elem?, get_elem?-eq_some, lt_of_get_elem?, take, replicate, lookup, insert, erase,
  erase-insert, lookup-insert, lookup-erase_self, insert-Distinct, Distinct, All, Bool-cases,
  length-replicate, length-take, drop_all, ◌-◌,
}
use telefacet.Frame.{FrameBuffer}
use telefacet.Pool.{resize}
use telefacet.Reassembly.{
  InFlight, State, Callback, deliver, is_empty, with_chunk, assemble, complete, store_chunk,
  store_found, handle_chunk,
}
use telefacet.Reassembly.Bounds.{filled}
use telefacet.Reassembly.Slots.{
  has_chunk, has_chunk-set, has_chunk-set_self, has_chunk_of_get, Partial, Partial-set,
  Partial-length, filled-set_empty, filled_of_has, eq_of_filled, assemble_lem,
}
use telefacet.Reassembly.Delivery.{
  Arrival, chunk_message, IsChunkOf, arrives, receive, handle_message,
}

-- A frame in flight that has some of `chunks`, and was announced with their number and size.
pub record Holds (chunks : List (List ℕ)) (inf : InFlight) : Type 0 where
  pub own : Partial inf.chunks chunks
  pub count : inf.total_chunks ≡ length chunks
  pub size : inf.total_size ≡ length (flatten chunks)
  pub progress : filled inf.chunks ≡ inf.received
  pub unfinished : inf.received < inf.total_chunks

-- A buffer resized to `n` has `n` bytes, whatever it held.
pub length-resize : (n : ℕ) (bytes : List ℕ) → length (resize n bytes) ≡ n
length-resize n bytes = omega (
  arith,
  length-append (take n bytes) (replicate (n - length bytes) 0),
  length-take n bytes,
  length-replicate {A = ℕ} (n - length bytes) 0,
)

-- In a buffer of their size the chunks fill it.
assembled :
    (chunks : List (List ℕ)) (size : ℕ) (old : List ℕ)
    → size ≡ length (flatten chunks)
    → assemble chunks (resize size old) 0 ≡ some (flatten chunks)
assembled chunks size old e =
    assemble_lem chunks (resize size old)
    ∙ rw (fits, drop_all (length (flatten chunks)) (resize size old) covers, append-nil)
  where
    covers : length (resize size old) ≤ length (flatten chunks)
    covers = omega (arith, length-resize size old)

    fits : ltb (length (resize size old)) (length (flatten chunks)) ≡ false
    fits = ground (arith, length-resize size old)

-- What is still to come, once the chunk at the head is dropped or stored.
still_awaited :
    (slots slots' : List (List ℕ)) (a : Arrival) (rest : List Arrival) (n : ℕ)
    → ((j : ℕ) → has_chunk slots j ≡ true → has_chunk slots' j ≡ true)
    → has_chunk slots' a.index ≡ true
    → ((j : ℕ) → j < n → (has_chunk slots j ≡ true) ⊎ (arrives j (a ∷ rest) ≡ true))
    → (j : ℕ) → j < n
    → (has_chunk slots' j ≡ true) ⊎ (arrives j rest ≡ true)
still_awaited slots slots' a rest n grows here awaited j h = elim (awaited j h) [
  | inl there ↦ inl (grows j there)
  | inr coming ↦ elim (Bool-cases (a.index == j)) [
    | inl e ↦ inl (subst (λ k. has_chunk slots' k ≡ true) ((==_iff a.index j).0 e) here)
    | inr e ↦ inr (rw e at coming)
  ]
]

looked_up :
    (k : ℕ) (inf : InFlight) (m : List (ℕ × InFlight)) → lookup k (insert k inf m) ≡ some inf
looked_up k inf m = ground (arith, lookup-insert k k inf m)

empty_of_test : (slot : List ℕ) → is_empty slot ≡ true → slot ≡ []
empty_of_test [] h = refl
empty_of_test (b ∷ slot) h = cc

module _ {W : Type 0} (cb : Callback W) (uuid : ℕ) (chunks : List (List ℕ)) (hu : uuid < 2 ^ 32)
    (hc : length chunks < 2 ^ 32) where
  -- The frame that the callback gets.
  abbrev pub whole : FrameBuffer → FrameBuffer
  whole buf = record buf { bytes = flatten chunks }

  -- The state after the frame has left the table.
  abbrev pub delivered : FrameBuffer → State W → State W
  delivered buf s = deliver cb (whole buf) (record s { in_flight = erase uuid s.in_flight })

  handle_own :
      (a : Arrival) (s : State W)
      → IsChunkOf chunks a
      → handle_chunk cb a.time (chunk_message uuid a) s
        ≡ store_found cb a.time uuid a.index (some a.payload) (lookup uuid s.in_flight) s
  handle_own a s h =
      handle_message cb uuid hu a (omega (arith, lt_of_get_elem? chunks a.index a.payload h.own))
        h.sized s

  -- Chunks of a frame that is not in the table change nothing.
  receive_unknown :
      (arrivals : List Arrival) (s : State W)
      → All (IsChunkOf chunks) arrivals
      → lookup uuid s.in_flight ≡ none
      → receive cb uuid arrivals s ≡ some s
  unfolding store_found
  receive_unknown [] s h missing = refl
  receive_unknown (a ∷ rest) s h missing =
      rw (handle_own a s h.0, missing) (receive_unknown rest s h.1 missing)

  module _ (a : Arrival) (inf : InFlight) (own : IsChunkOf chunks a) (v : Holds chunks inf) where
    -- The entry with the chunk in its slot.
    advanced : InFlight
    advanced = with_chunk a.time a.index a.payload inf

    in_table : a.index < length inf.chunks
    in_table = omega (
      arith,
      lt_of_get_elem? chunks a.index a.payload own.own,
      Partial-length inf.chunks chunks v.own,
    )

    inside : leb inf.total_chunks a.index ≡ false
    inside = ground (arith, in_table, Partial-length inf.chunks chunks v.own, v.count)

    counted : (inf.received + 1) % 2 ^ 32 ≡ inf.received + 1
    counted = omega (arith, v.unfinished, v.count, hc)

    -- A chunk that is there already is dropped.
    store_duplicate :
        (s : State W)
        → has_chunk inf.chunks a.index ≡ true
        → store_chunk cb a.time uuid a.index (some a.payload) inf s ≡ some s
    unfolding store_chunk
    store_duplicate s h =
        let (slot, e) = get_elem?-eq_some inf.chunks a.index in_table in
        let taken : not (is_empty slot) ≡ true =
          sym (has_chunk_of_get inf.chunks a.index slot e) ∙ h in
        rw (inside, e, taken)

    module _ (free : get_elem? inf.chunks a.index ≡ some []) where
      grown : filled advanced.chunks ≡ inf.received + 1
      unfolding advanced
      grown =
          omega (arith, filled-set_empty inf.chunks a.index a.payload free own.nonempty, v.progress)

      own_slots : Partial advanced.chunks chunks
      unfolding advanced
      own_slots = Partial-set inf.chunks chunks a.index a.payload own.own v.own

      -- Any but the last chunk is kept.
      store_more :
          (s : State W)
          → inf.received + 1 < inf.total_chunks
          → (store_chunk cb a.time uuid a.index (some a.payload) inf s
              ≡ some (record s { in_flight = insert uuid advanced s.in_flight }))
            × Holds chunks advanced
      unfolding store_chunk advanced
      store_more s h = (
        rw (inside, free, more),
        record {
          own = own_slots;
          count = v.count;
          size = v.size;
          progress = grown ∙ sym counted;
          unfinished = omega (arith, counted);
        },
      )
        where
          more : ((inf.received + 1) % 2 ^ 32 == inf.total_chunks) ≡ false
          more = ground (arith, counted)

      -- The last one completes the frame.
      store_last :
          (s : State W)
          → inf.received + 1 ≡ inf.total_chunks
          → store_chunk cb a.time uuid a.index (some a.payload) inf s ≡ some (delivered inf.buf s)
      unfolding store_chunk advanced complete
      store_last s h =
          rw (
            inside,
            free,
            last,
            same,
            assembled chunks inf.total_size inf.buf.bytes v.size,
            complete,
          )
        where
          last : ((inf.received + 1) % 2 ^ 32 == inf.total_chunks) ≡ true
          last = ground (arith, counted)

          same : advanced.chunks ≡ chunks
          same =
              eq_of_filled advanced.chunks chunks own_slots
                (omega (arith, grown, v.count, Partial-length advanced.chunks chunks own_slots))

  -- Chunks of a frame in flight, among them every one that is missing, deliver it once.
  pub receive_known :
      (arrivals : List Arrival) (s : State W) (inf : InFlight)
      → Distinct s.in_flight
      → lookup uuid s.in_flight ≡ some inf
      → Holds chunks inf
      → All (IsChunkOf chunks) arrivals
      → ((j : ℕ)
          → j < length chunks
          → (has_chunk inf.chunks j ≡ true) ⊎ (arrives j arrivals ≡ true))
      → receive cb uuid arrivals s ≡ some (delivered inf.buf s)
  unfolding store_found advanced
  receive_known [] s inf d found v h awaited =
      absurd (omega (arith, v.progress, v.unfinished, v.count, full))
    where
      table : length inf.chunks ≡ length chunks
      table = Partial-length inf.chunks chunks v.own

      present : (j : ℕ) → j < length inf.chunks → has_chunk inf.chunks j ≡ true
      present j p = elim (awaited j (omega (arith, table))) [ inl e ↦ e | inr e ↦ cc ]

      full : filled inf.chunks ≡ length chunks
      full = filled_of_has inf.chunks present ∙ table
  receive_known (a ∷ rest) s inf d found v h awaited =
      let (slot, e) = get_elem?-eq_some inf.chunks a.index (in_table a inf h.0 v) in
      let step = handle_own a s h.0 in
      elim (Bool-cases (is_empty slot)) [
        | inr taken ↦
            let there : has_chunk inf.chunks a.index ≡ true =
              has_chunk_of_get inf.chunks a.index slot e ∙ ap not taken in
            rw (step, found, store_duplicate a inf h.0 v s there)
              (receive_known rest s inf d found v h.1 (
                still_awaited inf.chunks inf.chunks a rest (length chunks) (λ j p. p) there
                  awaited))
        | inl empty ↦
            let free : get_elem? inf.chunks a.index ≡ some [] =
              e ∙ ap some (empty_of_test slot empty) in
            elim (Bool-cases (ltb (inf.received + 1) inf.total_chunks)) [
              | inr last ↦
                  rw (step, found, store_last a inf h.0 v free s (all_but last))
                    (receive_unknown rest (delivered inf.buf s) h.1
                      (lookup-erase_self uuid s.in_flight d))
              | inl more ↦
                  let (stored, held) = store_more a inf h.0 v free s (ltb→lt _ _ more) in
                  let inf' = advanced a inf h.0 v in
                  let s' = record s { in_flight = insert uuid inf' s.in_flight } in
                  rw (step, found, stored)
                    (receive_known rest s' inf' (insert-Distinct uuid inf' s.in_flight d)
                        (looked_up uuid inf' s.in_flight) held h.1
                        (still_awaited inf.chunks inf'.chunks a rest (length chunks)
                          (λ j. has_chunk-set inf.chunks a.index j a.payload h.0.nonempty)
                          (has_chunk-set_self inf.chunks a.index a.payload h.0.nonempty
                            (in_table a inf h.0 v))
                          awaited)
                      ∙ ap (λ m. some (deliver cb (whole inf.buf) (record s { in_flight = m })))
                          (erase-insert uuid inf' s.in_flight))
            ]
      ]
    where
      all_but :
          ltb (inf.received + 1) inf.total_chunks ≡ false → inf.received + 1 ≡ inf.total_chunks
      all_but last = ground (arith, v.unfinished)
