-- ===== src/Reassembly/Delivery.antt =====
-- Chunk messages as the server lays them out, and the frame that comes out of them.
use telefacet.Shared.{
  ℕ, ◌+◌, ◌<◌, ◌^◌, ◌==◌, ◌||◌, ltb, ◌≡◌, refl, ap, sym, ◌∙◌, false, not, Bool, List, [], ◌∷◌, ◌++◌,
  append-nil, Option, some, ◌>>=◌, arith, length, length-append, get_elem?, memcpy, memcpy_part,
  lookup, to_le, le-to_le,
}
use telefacet.Wire.{chunk_data_magic, ChunkData, read_chunk_data}
use telefacet.Reassembly.{State, Callback, is_empty, store_found, handle_data, handle_chunk}

-- One chunk on its way: when it is handled, its index and its bytes.
pub record Arrival : Type 0 where
  pub time : ℕ
  pub index : ℕ
  pub payload : List ℕ

unfoldable pub chunk_header : ℕ → Arrival → List ℕ
chunk_header uuid a =
    to_le 4 chunk_data_magic ++ (to_le 4 uuid ++ (to_le 4 a.index ++ to_le 4 (length a.payload)))

-- The message of a chunk.
abbrev pub chunk_message : ℕ → Arrival → List ℕ
chunk_message uuid a = chunk_header uuid a ++ a.payload

-- The chunk belongs to the frame, has bytes, and its size fits its field.
pub record IsChunkOf (chunks : List (List ℕ)) (a : Arrival) : Type 0 where
  pub own : get_elem? chunks a.index ≡ some a.payload
  pub nonempty : is_empty a.payload ≡ false
  pub sized : length a.payload < 2 ^ 32

abbrev pub arrives : ℕ → List Arrival → Bool
arrives j [] = false
arrives j (a ∷ rest) = a.index == j || arrives j rest

length-chunk_header : (uuid : ℕ) (a : Arrival) → length (chunk_header uuid a) ≡ 16
unfolding chunk_header
length-chunk_header uuid a = refl

read_chunk_data-chunk_header :
    (uuid : ℕ) (a : Arrival)
    → uuid < 2 ^ 32
    → a.index < 2 ^ 32
    → length a.payload < 2 ^ 32
    → read_chunk_data (chunk_header uuid a) ≡ record {
      magic = chunk_data_magic;
      frame_uuid = uuid;
      chunk_index = a.index;
      chunk_size = length a.payload;
    }
unfolding chunk_header
read_chunk_data-chunk_header uuid a hu hi hp = λ i. record {
  magic = chunk_data_magic;
  frame_uuid = le-to_le 4 uuid hu i;
  chunk_index = le-to_le 4 a.index hi i;
  chunk_size = le-to_le 4 (length a.payload) hp i;
}

module _ {W : Type 0} (cb : Callback W) (uuid : ℕ) where
  -- The messages handled one after another.
  abbrev pub receive : List Arrival → State W → Option (State W)
  receive [] s = some s
  receive (a ∷ rest) s = do s' ← handle_chunk cb a.time (chunk_message uuid a) s; receive rest s'

  module _ (hu : uuid < 2 ^ 32) (a : Arrival) (hi : a.index < 2 ^ 32)
      (hp : length a.payload < 2 ^ 32) where
    -- What `handleChunk` makes of the message, up to its look in the table.
    pub handle_message :
        (s : State W)
        → handle_chunk cb a.time (chunk_message uuid a) s
          ≡ store_found cb a.time uuid a.index (some a.payload) (lookup uuid s.in_flight) s
    unfolding handle_chunk handle_data
    handle_message s =
        rw (header, short)
          (ap handled (read_chunk_data-chunk_header uuid a hu hi hp) ∙ rw (body, exact))
      where
        total : length (chunk_message uuid a) ≡ 16 + length a.payload
        total =
            omega (arith, length-append (chunk_header uuid a) a.payload, length-chunk_header uuid a)

        short : ltb (length (chunk_message uuid a)) 16 ≡ false
        short = ground (arith, total)

        exact : not (length (chunk_message uuid a) == 16 + length a.payload) ≡ false
        exact = ground (arith, total)

        header : memcpy (chunk_message uuid a) 0 16 ≡ some (chunk_header uuid a)
        header =
            memcpy_part (chunk_message uuid a) [] (chunk_header uuid a) a.payload 0 16 refl refl
              (sym (length-chunk_header uuid a))

        handled : ChunkData → Option (State W)
        handled chd = handle_data cb a.time (chunk_message uuid a) chd s

        body : memcpy (chunk_message uuid a) 16 (length a.payload) ≡ some a.payload
        body =
            memcpy_part (chunk_message uuid a) (chunk_header uuid a) a.payload [] 16
              (length a.payload) (ap (◌++◌ (chunk_header uuid a)) (sym (append-nil a.payload)))
              (sym (length-chunk_header uuid a)) refl
