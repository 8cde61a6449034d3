-- ===== src/Pool.antt =====
-- data/FrameBufferPool.cpp: the pool that recycles frame buffers.
use telefacet.Shared.{
  ℕ, ◌+◌, ◌-◌, ltb, false, List, [], ◌∷◌, ◌++◌, Option, none, some, length, take, replicate,
  if◌then◌else◌,
}
use telefacet.Frame.{FrameBuffer, default_info}

-- The head of `free` is the back of the vector. `next` is the identity that the allocator gives to
-- the next new object.
pub record Pool : Type 0 where
  pub free : List FrameBuffer
  pub next : ℕ

abbrev pub empty_pool : Pool
empty_pool = record { free = []; next = 0 }

-- `vector::resize`: what is cut off is lost, what is new is 0.
abbrev pub resize : ℕ → List ℕ → List ℕ
resize n bytes = take n bytes ++ replicate (n - length bytes) 0

abbrev grow : ℕ → FrameBuffer → FrameBuffer
grow at_least b =
    if ltb (length b.bytes) at_least then record b { bytes = resize at_least b.bytes } else b

abbrev new_buffer : ℕ → ℕ → FrameBuffer
new_buffer id at_least = record {
  id = id;
  bytes = replicate at_least 0;
  info = default_info;
  header_only = false;
}

unfoldable pub acquire : ℕ → Pool → FrameBuffer × Pool
acquire at_least p = elim p.free [
  | [] ↦ (new_buffer p.next at_least, record p { next = p.next + 1 })
  | buf ∷ rest ↦ (grow at_least buf, record p { free = rest })
]

abbrev pub max_free : ℕ
max_free = 16

-- `use_count` is the number of owners of the buffer, the argument included.
unfoldable pub release : ℕ → Option FrameBuffer → Pool → Pool
release use_count none p = p
release use_count (some buf) p =
    if ltb 1 use_count
    then p
    else if ltb (length p.free) max_free
    then record p { free = buf ∷ p.free }
    else p
