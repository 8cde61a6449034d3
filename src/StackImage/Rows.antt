-- ===== src/StackImage/Rows.antt =====
-- The rows of the image, without the padding of the buffer's lines.
use native.Mathlib.Nat.{add_comm, zero-mul, add-mul, suc-mul, mul_comm}
use telefacet.Shared.{
  ℕ, zero, suc, ◌+◌, ◌-◌, ◌*◌, ◌^◌, ◌<◌, ◌≤◌, ◌≡◌, refl, ap, ap₂, sym, subst, ◌∙◌, inl, inr, true,
  false, Bool-cases, leb, List, [], ◌∷◌, ◌++◌, some, none, arith, length, length-append,
  length-take, length-drop, get_elem?, take, drop, min,
}
use telefacet.Frame.{FrameBuffer}
use telefacet.StackImage.{has_sf32, npy_header, copy_rows, stack_image_npy}

get_elem?-drop : (n i : ℕ) (xs : List ℕ) → get_elem? (drop n xs) i ≡ get_elem? xs (n + i)
get_elem?-drop zero i xs = ap (get_elem? xs) (omega arith)
get_elem?-drop (suc n) i [] = refl
get_elem?-drop (suc n) i (x ∷ xs) =
    let e : suc n + i ≡ suc (n + i) = omega arith in
    get_elem?-drop n i xs ∙ ap (get_elem? (x ∷ xs)) (sym e)

get_elem?-take : (n i : ℕ) (xs : List ℕ) → i < n → get_elem? (take n xs) i ≡ get_elem? xs i
get_elem?-take zero i xs h = absurd (omega arith)
get_elem?-take (suc n) i [] h = refl
get_elem?-take (suc n) zero (x ∷ xs) h = refl
get_elem?-take (suc n) (suc i) (x ∷ xs) h = get_elem?-take n i xs (omega arith)

get_elem?-append_left :
    (xs ys : List ℕ) (i : ℕ) → i < length xs → get_elem? (xs ++ ys) i ≡ get_elem? xs i
get_elem?-append_left [] ys i h = absurd (omega arith)
get_elem?-append_left (x ∷ xs) ys zero h = refl
get_elem?-append_left (x ∷ xs) ys (suc i) h = get_elem?-append_left xs ys i (omega arith)

get_elem?-append_right :
    (xs ys : List ℕ) (i : ℕ) → get_elem? (xs ++ ys) (length xs + i) ≡ get_elem? ys i
get_elem?-append_right [] ys i = ap (get_elem? ys) (omega arith)
get_elem?-append_right (x ∷ xs) ys i =
    let e : suc (length xs) + i ≡ suc (length xs + i) = omega arith in
    ap (get_elem? (x ∷ xs ++ ys)) e ∙ get_elem?-append_right xs ys i

-- The bytes of the rows from row `y` on, each where it is in the buffer.
abbrev RowsFrom : ℕ → ℕ → FrameBuffer → List ℕ → Type 0
RowsFrom count y f rows =
    (length rows ≡ count * (f.width * 4))
    × ((i x : ℕ)
        → i < count
        → x < f.width * 4
        → get_elem? rows (i * (f.width * 4) + x)
          ≡ get_elem? f.bytes ((y + i) * f.bytes_per_line + x))

RowsFrom-cons :
    (count y : ℕ) (f : FrameBuffer) (first rest : List ℕ)
    → length first ≡ f.width * 4
    → ((x : ℕ) → x < f.width * 4 → get_elem? first x ≡ get_elem? f.bytes (y * f.bytes_per_line + x))
    → RowsFrom count (y + 1) f rest
    → RowsFrom (suc count) y f (first ++ rest)
RowsFrom-cons count y f first rest len here (rest_len, later) = (
  length-append first rest
      ∙ ap₂ ◌+◌ len rest_len
      ∙ add_comm row (count * row)
      ∙ sym (suc-mul count row),
  placed,
)
  where
    row : ℕ
    row = f.width * 4

    placed :
        (i x : ℕ)
        → i < suc count
        → x < f.width * 4
        → get_elem? (first ++ rest) (i * (f.width * 4) + x)
          ≡ get_elem? f.bytes ((y + i) * f.bytes_per_line + x)
    placed zero x lt lx =
        let at_start : zero * (f.width * 4) + x ≡ x =
          ap (λ k. k + x) (zero-mul (f.width * 4)) ∙ omega arith in
        let same_row : y ≡ y + zero = omega arith in
        ap (get_elem? (first ++ rest)) at_start
        ∙ get_elem?-append_left first rest x (subst (λ k. x < k) (sym len) lx)
        ∙ here x lx
        ∙ ap (λ k. get_elem? f.bytes (k * f.bytes_per_line + x)) same_row
    placed (suc i) x lt lx =
        let after : suc i * (f.width * 4) + x ≡ length first + (i * (f.width * 4) + x) =
          let unfolded : suc i * (f.width * 4) ≡ i * (f.width * 4) + f.width * 4 =
            suc-mul i (f.width * 4) in
          ap (λ k. k + x) unfolded ∙ omega arith in
        let same_row : y + 1 + i ≡ y + suc i = omega arith in
        ap (get_elem? (first ++ rest)) after
        ∙ get_elem?-append_right first rest (i * (f.width * 4) + x)
        ∙ later i x (omega arith) lx
        ∙ ap (λ k. get_elem? f.bytes (k * f.bytes_per_line + x)) same_row

copy_rows-RowsFrom :
    (count y : ℕ) (f : FrameBuffer)
    → f.width * 4 ≤ f.bytes_per_line
    → (y + count) * f.bytes_per_line ≤ length f.bytes
    → (rows : List ℕ) × (copy_rows count y f ≡ some rows) × RowsFrom count y f rows
unfolding copy_rows
copy_rows-RowsFrom zero y f w h = ([], refl, (omega arith, λ i x lt _. absurd (omega arith)))
copy_rows-RowsFrom (suc count) y f w h =
    let bpl = f.bytes_per_line in
    let row = f.width * 4 in
    let split : (y + suc count) * bpl ≡ y * bpl + (count * bpl + bpl) =
      add-mul y (suc count) bpl ∙ ap (λ k. y * bpl + k) (suc-mul count bpl) in
    let next : y + 1 + count ≡ y + suc count = omega arith in
    let (rest, e, (len, at)) =
      copy_rows-RowsFrom count (y + 1) f w (subst (λ k. k * bpl ≤ length f.bytes) (sym next) h) in
    let fits : leb (y * bpl + row) (length f.bytes) ≡ true = ground (arith, h, split, w) in
    (
      take row (drop (y * bpl) f.bytes) ++ rest,
      rw (fits, e) refl,
      RowsFrom-cons count y f (take row (drop (y * bpl) f.bytes)) rest
          (length-take row (drop (y * bpl) f.bytes)
            ∙ ap (min row) (length-drop (y * bpl) f.bytes)
            ∙ omega arith)
          (λ x lx.
            get_elem?-take row x (drop (y * bpl) f.bytes) lx ∙ get_elem?-drop (y * bpl) x f.bytes)
          (len, at),
    )

sizes :
    (f : FrameBuffer)
    → has_sf32 f ≡ true
    → f.width * 4 < 2 ^ 32
    → (f.width * 4 ≤ f.bytes_per_line) × ((0 + f.height) * f.bytes_per_line ≤ length f.bytes)
unfolding has_sf32
sizes f full narrow =
    let product : f.bytes_per_line * f.height ≡ f.height * f.bytes_per_line =
      mul_comm f.bytes_per_line f.height in
    let start : 0 + f.height ≡ f.height = omega arith in
    (
      ground arith,
      subst (λ k. k * f.bytes_per_line ≤ length f.bytes) (sym start) (ground (arith, product)),
    )

-- With rows of less than 2^32 bytes, an image of its declared size becomes the header and its rows,
-- without the padding at the end of each line, and no byte past the buffer is read.
pub stack_image_npy_lem :
    (f : FrameBuffer)
    → has_sf32 f ≡ true
    → f.width * 4 < 2 ^ 32
    → (rows : List ℕ) × (stack_image_npy f ≡ some (npy_header f.height f.width ++ rows))
      × (length rows ≡ f.height * (f.width * 4))
      × ((y x : ℕ)
          → y < f.height
          → x < f.width * 4
          → get_elem? rows (y * (f.width * 4) + x) ≡ get_elem? f.bytes (y * f.bytes_per_line + x))
unfolding stack_image_npy
stack_image_npy_lem f full narrow =
    let (lines, size) = sizes f full narrow in
    let (rows, e, (len, at)) = copy_rows-RowsFrom f.height 0 f lines size in
    (
      rows,
      rw (full, e) refl,
      len,
      λ y x ly lx.
          let base : 0 + y ≡ y = omega arith in
          at y x ly lx ∙ ap (λ k. get_elem? f.bytes (k * f.bytes_per_line + x)) base,
    )

copy_rows_overrun :
    (count y : ℕ) (f : FrameBuffer)
    → f.bytes_per_line < f.width * 4
    → length f.bytes ≡ (y + suc count) * f.bytes_per_line
    → copy_rows (suc count) y f ≡ none
unfolding copy_rows
copy_rows_overrun zero y f w size =
    let bpl = f.bytes_per_line in
    let split : (y + 1) * bpl ≡ y * bpl + 1 * bpl = add-mul y 1 bpl in
    let past : leb (y * bpl + f.width * 4) (length f.bytes) ≡ false =
      ground (arith, size, split, w) in
    rw past refl
copy_rows_overrun (suc count) y f w size =
    let next : y + suc (suc count) ≡ y + 1 + suc count = omega arith in
    let later : copy_rows (suc count) (y + 1) f ≡ none =
      copy_rows_overrun count (y + 1) f w (size ∙ ap (λ k. k * f.bytes_per_line) next) in
    elim (Bool-cases (leb (y * f.bytes_per_line + f.width * 4) (length f.bytes))) [
      | inl fits ↦ rw (fits, later) refl
      | inr past ↦ rw past refl
    ]

has_rows : (f : FrameBuffer) → has_sf32 f ≡ true → 0 < f.height
unfolding has_sf32
has_rows f h = ground arith

-- The size of a line is compared in 32 bits: a frame whose lines are shorter than its width, since
-- four times the width passes 2^32, can be taken for a full image, and a buffer of just the size
-- that its lines need is then read past its end.
pub stack_image_npy_overruns :
    (f : FrameBuffer)
    → has_sf32 f ≡ true
    → f.bytes_per_line < f.width * 4
    → length f.bytes ≡ f.height * f.bytes_per_line
    → stack_image_npy f ≡ none
unfolding stack_image_npy
stack_image_npy_overruns f full short size =
    let tall : 0 < f.height = has_rows f full in
    let one_more : 0 + suc (f.height - 1) ≡ f.height = omega arith in
    let same : suc (f.height - 1) ≡ f.height = omega arith in
    let past : copy_rows f.height 0 f ≡ none =
      subst (λ k. copy_rows k 0 f ≡ none) same
        (copy_rows_overrun (f.height - 1) 0 f short
          (size ∙ ap (λ k. k * f.bytes_per_line) (sym one_more))) in
    rw (full, past) refl
