-- ===== src/Reassembly/Slots.antt =====
-- The chunk table of one frame: which slots are filled, and what their concatenation gives.
use mathlib.Core.List.{flatten}
use telefacet.Shared.{
  ℕ, zero, suc, ◌+◌, ◌≤◌, ◌<◌, ltb, ◌≡◌, refl, ap, sym, ◌∙◌, ◌⊎◌, inl, inr, true, false, not, Bool,
  List, [], ◌∷◌, ◌++◌, append_assoc, some, none, arith, take, drop, length, length-append,
  length-take, length-drop, take-append, drop-append, set, get_elem?, Bool-cases, if◌then◌else◌,
}
use telefacet.Reassembly.{is_empty, assemble, overwrite}
use telefacet.Reassembly.Bounds.{filled}

-- Whether slot `j` holds a chunk.
abbrev pub has_chunk : List (List ℕ) → ℕ → Bool
has_chunk [] j = false
has_chunk (c ∷ slots) zero = not (is_empty c)
has_chunk (c ∷ slots) (suc j) = has_chunk slots j

-- Each slot is empty or holds its own chunk of the frame.
abbrev pub Partial : List (List ℕ) → List (List ℕ) → Type 0
Partial [] [] = Unit {0}
Partial [] (c ∷ chunks) = ⊥
Partial (c ∷ slots) [] = ⊥
Partial (c ∷ slots) (d ∷ chunks) = ((c ≡ []) ⊎ (c ≡ d)) × Partial slots chunks

pub Partial-length :
    (slots chunks : List (List ℕ)) → Partial slots chunks → length slots ≡ length chunks
Partial-length [] [] h = refl
Partial-length [] (d ∷ chunks) h = absurd h
Partial-length (c ∷ slots) [] h = absurd h
Partial-length (c ∷ slots) (d ∷ chunks) h = ap suc (Partial-length slots chunks h.1)

pub filled-le-length : (slots : List (List ℕ)) → filled slots ≤ length slots
filled-le-length [] = omega arith
filled-le-length ([] ∷ slots) = omega (arith, filled-le-length slots)
filled-le-length ((b ∷ bytes) ∷ slots) = omega (arith, filled-le-length slots)

-- With every slot filled the table holds the frame.
pub eq_of_filled :
    (slots chunks : List (List ℕ))
    → Partial slots chunks
    → filled slots ≡ length slots
    → slots ≡ chunks
eq_of_filled [] [] h f = refl
eq_of_filled [] (d ∷ chunks) h f = absurd h
eq_of_filled (c ∷ slots) [] h f = absurd h
eq_of_filled ([] ∷ slots) (d ∷ chunks) h f = absurd (omega (arith, filled-le-length slots))
eq_of_filled ((b ∷ bytes) ∷ slots) (d ∷ chunks) h f =
    let rest = eq_of_filled slots chunks h.1 (omega arith) in ground (arith, rest, h.0)

pub filled_of_has :
    (slots : List (List ℕ))
    → ((j : ℕ) → j < length slots → has_chunk slots j ≡ true)
    → filled slots ≡ length slots
filled_of_has [] h = refl
filled_of_has ([] ∷ slots) h = cc (h 0 (omega arith))
filled_of_has ((b ∷ bytes) ∷ slots) h =
    ap suc (filled_of_has slots (λ j p. h (suc j) (omega arith)))

pub filled-set_empty :
    (slots : List (List ℕ)) (i : ℕ) (c : List ℕ)
    → get_elem? slots i ≡ some []
    → is_empty c ≡ false
    → filled (set slots i c) ≡ filled slots + 1
filled-set_empty [] i c e h = cc
filled-set_empty (s ∷ slots) zero [] e h = cc
filled-set_empty ([] ∷ slots) zero (b ∷ c) e h = omega arith
filled-set_empty ((x ∷ s) ∷ slots) zero (b ∷ c) e h = ground arith
filled-set_empty ([] ∷ slots) (suc i) c e h = filled-set_empty slots i c e h
filled-set_empty ((x ∷ s) ∷ slots) (suc i) c e h = omega (arith, filled-set_empty slots i c e h)

pub has_chunk-set :
    (slots : List (List ℕ)) (i j : ℕ) (c : List ℕ)
    → is_empty c ≡ false
    → has_chunk slots j ≡ true
    → has_chunk (set slots i c) j ≡ true
has_chunk-set [] i j c h p = p
has_chunk-set (s ∷ slots) zero zero c h p = rw h
has_chunk-set (s ∷ slots) zero (suc j) c h p = p
has_chunk-set (s ∷ slots) (suc i) zero c h p = p
has_chunk-set (s ∷ slots) (suc i) (suc j) c h p = has_chunk-set slots i j c h p

pub has_chunk-set_self :
    (slots : List (List ℕ)) (i : ℕ) (c : List ℕ)
    → is_empty c ≡ false
    → i < length slots
    → has_chunk (set slots i c) i ≡ true
has_chunk-set_self [] i c h p = elim p [ ]
has_chunk-set_self (s ∷ slots) zero c h p = rw h
has_chunk-set_self (s ∷ slots) (suc i) c h p = has_chunk-set_self slots i c h (omega arith)

pub has_chunk_of_get :
    (slots : List (List ℕ)) (i : ℕ) (c : List ℕ)
    → get_elem? slots i ≡ some c
    → has_chunk slots i ≡ not (is_empty c)
has_chunk_of_get [] i c e = cc
has_chunk_of_get (s ∷ slots) zero c e = ground arith
has_chunk_of_get (s ∷ slots) (suc i) c e = has_chunk_of_get slots i c e

pub Partial-set :
    (slots chunks : List (List ℕ)) (i : ℕ) (c : List ℕ)
    → get_elem? chunks i ≡ some c
    → Partial slots chunks
    → Partial (set slots i c) chunks
Partial-set [] [] i c e h = h
Partial-set [] (d ∷ chunks) i c e h = h
Partial-set (s ∷ slots) [] i c e h = absurd h
Partial-set (s ∷ slots) (d ∷ chunks) zero c e h = (inr (ground arith), h.1)
Partial-set (s ∷ slots) (d ∷ chunks) (suc i) c e h = (h.0, Partial-set slots chunks i c e h.1)

drop-nil : (n : ℕ) → drop {A = ℕ} n [] ≡ []
drop-nil zero = refl
drop-nil (suc n) = refl

drop-drop : (n m : ℕ) (xs : List ℕ) → drop m (drop n xs) ≡ drop (n + m) xs
drop-drop zero m xs = ap (λ k. drop k xs) (omega arith)
drop-drop (suc n) m [] = drop-nil m ∙ sym (drop-nil (suc n + m))
drop-drop (suc n) m (x ∷ xs) =
    drop-drop n m xs
    ∙ ap (λ k. drop k (x ∷ xs)) (let e : suc (n + m) ≡ suc n + m = omega arith in e)

overwrite-append :
    (before old src : List ℕ)
    → overwrite (before ++ old) (length before) src ≡ (before ++ src) ++ drop (length src) old
overwrite-append before old src = rw (
  take-append before old,
  ← drop-drop (length before) (length src) (before ++ old),
  drop-append before old,
  append_assoc,
)

-- The concatenation loop writes the chunks one after another from `offset` on, and nothing else,
-- if they fit in the buffer.
assemble_at :
    (chunks : List (List ℕ)) (before old : List ℕ) (offset : ℕ)
    → offset ≡ length before
    → length (flatten chunks) ≤ length old
    → assemble chunks (before ++ old) offset
      ≡ some (before ++ (flatten chunks ++ drop (length (flatten chunks)) old))
unfolding assemble flatten
assemble_at [] before old offset e h = refl
assemble_at (c ∷ chunks) before old offset e h =
    rw (fits, e, overwrite-append before old c)
      (assemble_at chunks (before ++ c) (drop (length c) old) (length before + length c)
          (sym (length-append before c)) room
        ∙ ap some same)
  where
    sizes : length (flatten (c ∷ chunks)) ≡ length c + length (flatten chunks)
    sizes = length-append c (flatten chunks)

    fits : ltb (length (before ++ old)) (offset + length c) ≡ false
    fits = ground (arith, length-append before old, sizes)

    room : length (flatten chunks) ≤ length (drop (length c) old)
    room = omega (arith, sizes, length-drop (length c) old)

    same :
        (before ++ c) ++ (flatten chunks ++ drop (length (flatten chunks)) (drop (length c) old))
        ≡ before ++ (flatten (c ∷ chunks) ++ drop (length (flatten (c ∷ chunks))) old)
    same =
        rw (sizes, drop-drop (length c) (length (flatten chunks)) old, append_assoc, append_assoc)

-- The loop ends in an overflow, if they do not fit.
assemble_over :
    (chunks : List (List ℕ)) (bytes : List ℕ) (offset : ℕ)
    → length bytes < offset + length (flatten chunks)
    → offset ≤ length bytes
    → assemble chunks bytes offset ≡ none
unfolding assemble flatten
assemble_over [] bytes offset h k = absurd (omega arith)
assemble_over (c ∷ chunks) bytes offset h k =
    elim (Bool-cases (ltb (length bytes) (offset + length c))) [
      | inl over ↦ rw over
      | inr fits ↦ rw fits (
          assemble_over chunks (overwrite bytes offset c) (offset + length c)
            (omega (arith, kept fits, length-append c (flatten chunks)))
            (omega (arith, kept fits, within fits)))
    ]
  where
    within : ltb (length bytes) (offset + length c) ≡ false → offset + length c ≤ length bytes
    within fits = ground arith

    kept :
        ltb (length bytes) (offset + length c) ≡ false
        → length (overwrite bytes offset c) ≡ length bytes
    kept fits = omega (
      arith,
      within fits,
      length-append (take offset bytes) (c ++ drop (offset + length c) bytes),
      length-append c (drop (offset + length c) bytes),
      length-take offset bytes,
      length-drop (offset + length c) bytes,
    )

-- Chunks put together in a buffer of any old content: an overflow exactly when they are longer than
-- it, and otherwise the chunks in order, before what they leave of the old content.
pub assemble_lem :
    (chunks : List (List ℕ)) (old : List ℕ)
    → assemble chunks old 0 ≡ (
        if ltb (length old) (length (flatten chunks))
        then none
        else some (flatten chunks ++ drop (length (flatten chunks)) old))
assemble_lem chunks old = elim (Bool-cases (ltb (length old) (length (flatten chunks)))) [
  | inl over ↦ rw over (assemble_over chunks old 0 (ground arith) (omega arith))
  | inr fits ↦ rw fits (assemble_at chunks [] old 0 refl (ground arith))
]
