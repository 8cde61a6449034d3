-- ===== src/Shared/Words.antt =====
-- Machine words: little-endian fields of a byte array, two's complement, wrapping subtraction, and
-- `std::memcpy` out of a buffer of known length.
use Prim.Native.Nat.{ℕ, zero, suc, ◌+◌, ◌-◌, ◌*◌, ◌/◌, ◌%◌, ◌^◌, ◌≤◌, ◌<◌}
use mathlib.Core.Path.{◌≡◌, refl}
use mathlib.Core.List.{List, [], ◌∷◌, ◌++◌}
use mathlib.Core.Option.{Option, none, some}
use native.Mathlib.Nat.{pow-suc}
use native.Mathlib.Omega.{arith}
use telefacet.Shared.Tests.{ltb, leb, if◌then◌else◌}
use telefacet.Shared.Lists.{
  All, length, take, drop, take-append, drop-append, length-append, length-take, length-drop,
}

-- An `int32_t` or `int64_t`; `negsuc n` is -(n + 1).
pub data ℤ : Type 0 where
  pos : ℕ → ℤ
  negsuc : ℕ → ℤ

-- The number that a 32-bit pattern stands for as an `int32_t`.
abbrev pub signed32 : ℕ → ℤ
signed32 w = if ltb w (2 ^ 31) then pos w else negsuc (2 ^ 32 - w - 1)

-- The 32-bit pattern of an `int32_t`.
abbrev pub pattern32 : ℤ → ℕ
pattern32 (pos n) = n
pattern32 (negsuc n) = 2 ^ 32 - n - 1

abbrev pub InInt32 : ℤ → Type 0
InInt32 (pos n) = n < 2 ^ 31
InInt32 (negsuc n) = n < 2 ^ 31

pub pattern32_lt : (z : ℤ) → InInt32 z → pattern32 z < 2 ^ 32
pattern32_lt (pos n) h = omega arith
pattern32_lt (negsuc n) h = omega arith

pub signed32-pattern32 : (z : ℤ) → InInt32 z → signed32 (pattern32 z) ≡ z
signed32-pattern32 (pos n) h = ground arith
signed32-pattern32 (negsuc n) h = ground arith

-- `a - b` of two `uint64_t`.
abbrev pub sub_u64 : ℕ → ℕ → ℕ
sub_u64 a b = (a + 2 ^ 64 - b) % 2 ^ 64

-- The value of little-endian bytes.
abbrev pub le : List ℕ → ℕ
le [] = 0
le (b ∷ bs) = b + 256 * le bs

-- The `w` bytes of a little-endian field.
abbrev pub to_le : ℕ → ℕ → List ℕ
to_le zero v = []
to_le (suc w) v = v % 256 ∷ to_le w (v / 256)

-- The field of `w` bytes at offset `off` of a packed struct.
abbrev pub field : ℕ → ℕ → List ℕ → ℕ
field off w bytes = le (take w (drop off bytes))

-- `memcpy(&out, bytes + off, n)`: `none` is a read past the end of the buffer.
abbrev pub memcpy : List ℕ → ℕ → ℕ → Option (List ℕ)
memcpy bytes off n = if leb (off + n) (length bytes) then some (take n (drop off bytes)) else none

pub le-to_le : (w v : ℕ) → v < 256 ^ w → le (to_le w v) ≡ v
le-to_le zero v h = omega arith
le-to_le (suc w) v h = omega (arith, le-to_le w (v / 256) small)
  where
    small : v / 256 < 256 ^ w
    small = let h' : v < 256 ^ w * 256 = rw (← pow-suc) h in omega arith

pub length-to_le : (w v : ℕ) → length (to_le w v) ≡ w
length-to_le zero v = refl
length-to_le (suc w) v = omega (arith, length-to_le w (v / 256))

-- A copy inside the buffer succeeds, and gives `n` bytes.
pub memcpy_in_bounds :
    (bytes : List ℕ) (off n : ℕ)
    → off + n ≤ length bytes
    → (memcpy bytes off n ≡ some (take n (drop off bytes))) × (length (take n (drop off bytes)) ≡ n)
memcpy_in_bounds bytes off n h =
    (ground arith, omega (arith, length-take n (drop off bytes), length-drop off bytes))

-- A copy of a part of a buffer gives that part.
pub memcpy_part :
    (bytes before part after : List ℕ) (off n : ℕ)
    → bytes ≡ before ++ (part ++ after)
    → off ≡ length before
    → n ≡ length part
    → memcpy bytes off n ≡ some part
memcpy_part bytes before part after off n e p q =
    rw (e, p, q)
      (ground (
        arith,
        length-append before (part ++ after),
        length-append part after,
        drop-append before (part ++ after),
        take-append part after,
      ))

abbrev pub IsByte : ℕ → Type 0
IsByte b = b < 256

pub All-take {κ} : (P : ℕ → Type κ) (n : ℕ) (xs : List ℕ) → All P xs → All P (take n xs)
All-take P zero xs h = tt
All-take P (suc n) [] h = tt
All-take P (suc n) (x ∷ xs) h = (h.0, All-take P n xs h.1)

pub All-drop {κ} : (P : ℕ → Type κ) (n : ℕ) (xs : List ℕ) → All P xs → All P (drop n xs)
All-drop P zero xs h = h
All-drop P (suc n) [] h = tt
All-drop P (suc n) (x ∷ xs) h = All-drop P n xs h.1

-- At most `w` bytes make a number below `256 ^ w`.
pub le_lt : (w : ℕ) (bytes : List ℕ) → All IsByte bytes → le (take w bytes) < 256 ^ w
le_lt zero bytes h = omega arith
le_lt (suc w) [] h = rw pow-suc (omega (arith, le_lt w [] tt))
le_lt (suc w) (b ∷ bytes) h = rw pow-suc (omega (arith, le_lt w bytes h.1))

-- So is a field of a packed struct bounded by its width.
pub field_lt : (off w : ℕ) (bytes : List ℕ) → All IsByte bytes → field off w bytes < 256 ^ w
field_lt off w bytes h = le_lt w (drop off bytes) (All-drop IsByte off bytes h)
