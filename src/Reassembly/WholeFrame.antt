-- ===== src/Reassembly/WholeFrame.antt =====
-- From the start message to the callback.
use mathlib.Core.List.{flatten}
use telefacet.Shared.{
  ℕ, ◌+◌, ◌<◌, ◌==◌, ◌&&◌, ltb, ◌≡◌, refl, ap, sym, ◌∙◌, inl, inr, true, false, not, List, [], ◌∷◌,
  ◌++◌, Option, some, none, ◌>>=◌, arith, length, length-append, memcpy, memcpy_part, drop,
  drop-append, replicate, lookup, lookup-emplace, emplace, subst, emplace-Distinct, erase-emplace,
  Distinct, All, to_le,
}
use telefacet.Frame.{FrameBuffer, CornerSet, ArucoMarker}
use telefacet.Wire.{chunk_start_magic, chunk_version, ChunkHeader, read_start_marker}
use telefacet.Wire.Layout.{header_bytes, IsHeader, read_header-header_bytes, length-header_bytes}
use telefacet.Pool.{Pool, acquire}
use telefacet.Reassembly.{
  InFlight, State, Callback, deliver, parse_detection, frame_info, new_in_flight, start_frame,
  handle_header, handle_start,
}
use telefacet.Reassembly.Bounds.{filled-replicate}
use telefacet.Reassembly.Slots.{Partial}
use telefacet.Reassembly.Delivery.{Arrival, IsChunkOf, arrives, receive}
use telefacet.Reassembly.AnyOrder.{Holds, receive_known}

abbrev pub marker_bytes : List ℕ
marker_bytes = to_le 4 chunk_start_magic ++ to_le 4 chunk_version

Partial-replicate : (chunks : List (List ℕ)) → Partial (replicate (length chunks) []) chunks
Partial-replicate [] = tt
Partial-replicate (c ∷ chunks) = (inl refl, Partial-replicate chunks)

-- The message that starts a frame: marker, header and detection block.
unfoldable pub start_message : ChunkHeader → List ℕ → List ℕ
start_message hdr block = marker_bytes ++ (header_bytes hdr ++ block)

module _ {W : Type 0} (cb : Callback W) where
  -- `handleStart` reads back the header that was laid out, and hands it on with the detections.
  pub handle_start-start_message :
      (now : ℕ) (hdr : ChunkHeader) (block : List ℕ) (found : List CornerSet × List ArucoMarker)
      (s : State W)
      → IsHeader hdr
      → hdr.corner_block_size ≡ length block
      → parse_detection hdr block ≡ some found
      → handle_start cb now (start_message hdr block) s ≡ some (start_frame cb now hdr found s)
  unfolding handle_start handle_header start_message
  handle_start-start_message now hdr block found s v size parsed =
      rw (marker, header, short)
        (ap handled (read_header-header_bytes hdr v) ∙ rw (exact, rest, parsed))
    where
      message : List ℕ
      message = marker_bytes ++ (header_bytes hdr ++ block)

      total : length message ≡ 80 + length block
      total = omega (arith, length-append (header_bytes hdr) block, length-header_bytes hdr)

      short : ltb (length message) 80 ≡ false
      short = ground (arith, total)

      exact : not (length message == 80 + hdr.corner_block_size) ≡ false
      exact = ground (arith, total, size)

      marker : memcpy message 0 8 ≡ some marker_bytes
      marker = memcpy_part message [] marker_bytes (header_bytes hdr ++ block) 0 8 refl refl refl

      header : memcpy message 8 72 ≡ some (header_bytes hdr)
      header =
          memcpy_part message marker_bytes (header_bytes hdr) block 8 72 refl refl
            (sym (length-header_bytes hdr))

      rest : drop 80 message ≡ block
      rest =
          ap (λ n. drop n (header_bytes hdr ++ block)) (sym (length-header_bytes hdr))
          ∙ drop-append (header_bytes hdr) block

      handled : ChunkHeader → Option (State W)
      handled h = handle_header cb now message (read_start_marker marker_bytes) h s

  -- A start message whose frame has chunks to come puts an entry in the table.
  start_frame-held :
      (now : ℕ) (hdr : ChunkHeader) (sets : List CornerSet) (markers : List ArucoMarker)
      (s : State W)
      → 0 < hdr.total_chunks
      → let (buf, pool') = acquire 0 s.pool in
        start_frame cb now hdr (sets, markers) s ≡ record s {
          pool = pool';
          in_flight =
              emplace hdr.frame_uuid
                (new_in_flight now hdr buf (frame_info hdr sets markers))
                s.in_flight;
        }
  unfolding start_frame
  start_frame-held now hdr sets markers s h = rw many
    where
      many : (hdr.total_chunks == 0 && hdr.total_size == 0) ≡ false
      many = ground arith

  -- After a start message with its detection block, chunks of the frame in any order, with any
  -- repeats, but each at least once, call the callback once: with the chunks concatenated in index
  -- order, and the metadata and detections of the start message. Table, clock and all else are as
  -- before, but for the buffer taken from the pool.
  pub whole_frame :
      (now : ℕ) (hdr : ChunkHeader) (block : List ℕ) (sets : List CornerSet)
      (markers : List ArucoMarker) (chunks : List (List ℕ)) (arrivals : List Arrival) (s : State W)
      → IsHeader hdr
      → hdr.corner_block_size ≡ length block
      → parse_detection hdr block ≡ some (sets, markers)
      → 0 < length chunks
      → hdr.total_chunks ≡ length chunks
      → hdr.total_size ≡ length (flatten chunks)
      → Distinct s.in_flight
      → lookup hdr.frame_uuid s.in_flight ≡ none
      → All (IsChunkOf chunks) arrivals
      → ((j : ℕ) → j < length chunks → arrives j arrivals ≡ true)
      → let (buf, pool') = acquire 0 s.pool in
        (handle_start cb now (start_message hdr block) s >>= receive cb hdr.frame_uuid arrivals)
        ≡ some (
            deliver cb
              (record buf {
                bytes = flatten chunks;
                info = frame_info hdr sets markers;
                header_only = false;
              })
              (record s { pool = pool' }))
  whole_frame now hdr block sets markers chunks arrivals s v size parsed some_chunk count total d
        fresh own all =
      rw
        (
          handle_start-start_message now hdr block (sets, markers) s v size parsed,
          start_frame-held now hdr sets markers s (omega arith),
        )
        (receive_known cb hdr.frame_uuid chunks v.frame_uuid (omega (arith, v.total_chunks))
            arrivals started entry (emplace-Distinct hdr.frame_uuid entry s.in_flight d) found held
            own (λ j h. inr (all j h))
          ∙ ap (λ m. some (deliver cb result (record s { pool = pool'; in_flight = m })))
              (erase-emplace hdr.frame_uuid entry s.in_flight fresh))
    where
      buf : FrameBuffer
      buf = (acquire 0 s.pool).0

      pool' : Pool
      pool' = (acquire 0 s.pool).1

      result : FrameBuffer
      result = record buf {
        bytes = flatten chunks;
        info = frame_info hdr sets markers;
        header_only = false;
      }

      entry : InFlight
      entry = new_in_flight now hdr buf (frame_info hdr sets markers)

      started : State W
      started = record s { pool = pool'; in_flight = emplace hdr.frame_uuid entry s.in_flight }

      found : lookup hdr.frame_uuid (emplace hdr.frame_uuid entry s.in_flight) ≡ some entry
      found = ground (arith, lookup-emplace hdr.frame_uuid hdr.frame_uuid entry s.in_flight fresh)

      held : Holds chunks entry
      held = record {
        own = subst (λ n. Partial (replicate n []) chunks) (sym count) (Partial-replicate chunks);
        count = count;
        size = total;
        progress = filled-replicate hdr.total_chunks;
        unfinished = omega arith;
      }
