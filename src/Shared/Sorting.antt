-- ===== src/Shared/Sorting.antt =====
-- `std::sort` by a number, as an insertion sort. Entries of one number have no order there.
use Prim.Native.Nat.{ℕ, ◌≤◌}
use mathlib.Core.Path.{refl, sym, ap, subst}
use mathlib.Core.Logic.{inl, inr}
use mathlib.Core.List.{List, [], ◌∷◌, map, Permᴰ}
use native.Mathlib.Omega.{arith}
use telefacet.Shared.Tests.{leb, leb→le, Bool-cases, if◌then◌else◌}
use telefacet.Shared.Lists.{All}

module _ {ℓ} {A : Type ℓ} (key : A → ℕ) where
  unfoldable pub insert_on : A → List A → List A
  insert_on a [] = a ∷ []
  insert_on a (b ∷ rest) = if leb (key a) (key b) then a ∷ b ∷ rest else b ∷ insert_on a rest

  unfoldable pub sort_on : List A → List A
  unfolding insert_on
  sort_on [] = []
  sort_on (a ∷ rest) = insert_on a (sort_on rest)

  abbrev pub IsSorted : List A → Type 0
  IsSorted [] = Unit {0}
  IsSorted (a ∷ rest) = All (λ b. key a ≤ key b) rest × IsSorted rest

perm_refl {ℓ} : {A : Type ℓ} (l : List A) → Permᴰ l l
perm_refl [] = Permᴰ.nil
perm_refl (a ∷ rest) = Permᴰ.cons refl (perm_refl rest)

pub All-Permᴰ {ℓ} :
    {A : Type ℓ} (P : A → Type 0) {l₁ l₂ : List A} → Permᴰ l₁ l₂ → All P l₁ → All P l₂
All-Permᴰ P Permᴰ.nil h = h
All-Permᴰ P (Permᴰ.cons e p) h = (subst P e h.0, All-Permᴰ P p h.1)
All-Permᴰ P (Permᴰ.swap e f) h = (subst P f h.1.0, (subst P e h.0, h.1.1))
All-Permᴰ P (Permᴰ.trans p q) h = All-Permᴰ P q (All-Permᴰ P p h)

pub map-Permᴰ {ℓ κ} :
    {A : Type ℓ} {B : Type κ} (f : A → B) {l₁ l₂ : List A}
    → Permᴰ l₁ l₂
    → Permᴰ (map f l₁) (map f l₂)
map-Permᴰ f Permᴰ.nil = Permᴰ.nil
map-Permᴰ f (Permᴰ.cons e p) = Permᴰ.cons (ap f e) (map-Permᴰ f p)
map-Permᴰ f (Permᴰ.swap e g) = Permᴰ.swap (ap f e) (ap f g)
map-Permᴰ f (Permᴰ.trans p q) = Permᴰ.trans (map-Permᴰ f p) (map-Permᴰ f q)

pub symm-Permᴰ {ℓ} : {A : Type ℓ} {l₁ l₂ : List A} → Permᴰ l₁ l₂ → Permᴰ l₂ l₁
symm-Permᴰ Permᴰ.nil = Permᴰ.nil
symm-Permᴰ (Permᴰ.cons e p) = Permᴰ.cons (sym e) (symm-Permᴰ p)
symm-Permᴰ (Permᴰ.swap e f) = Permᴰ.swap (sym f) (sym e)
symm-Permᴰ (Permᴰ.trans p q) = Permᴰ.trans (symm-Permᴰ q) (symm-Permᴰ p)

module _ {ℓ} {A : Type ℓ} (key : A → ℕ) where
  insert_on-All : (P : A → Type 0) (a : A) (l : List A) → P a → All P l → All P (insert_on key a l)
  unfolding insert_on
  insert_on-All P a [] p h = (p, tt)
  insert_on-All P a (b ∷ rest) p h = elim (Bool-cases (leb (key a) (key b))) [
    | inl e ↦ rw e (p, h)
    | inr e ↦ rw e (h.0, insert_on-All P a rest p h.1)
  ]

  All-le : (m n : ℕ) (l : List A) → m ≤ n → All (λ b. n ≤ key b) l → All (λ b. m ≤ key b) l
  All-le m n [] e h = tt
  All-le m n (b ∷ rest) e h = (omega (arith, e, h.0), All-le m n rest e h.1)

  insert_on-IsSorted : (a : A) (l : List A) → IsSorted key l → IsSorted key (insert_on key a l)
  unfolding insert_on
  insert_on-IsSorted a [] h = (tt, tt)
  insert_on-IsSorted a (b ∷ rest) h = elim (Bool-cases (leb (key a) (key b))) [
    | inl e ↦
        let first : key a ≤ key b = leb→le (key a) (key b) e in
        rw e ((first, All-le (key a) (key b) rest first h.0), h)
    | inr e ↦
        let later : key b ≤ key a = ground (arith, e) in
        rw e (insert_on-All (λ c. key b ≤ key c) a rest later h.0, insert_on-IsSorted a rest h.1)
  ]

  pub sort_on-IsSorted : (l : List A) → IsSorted key (sort_on key l)
  unfolding sort_on
  sort_on-IsSorted [] = tt
  sort_on-IsSorted (a ∷ rest) = insert_on-IsSorted a (sort_on key rest) (sort_on-IsSorted rest)

  insert_on-Permᴰ : (a : A) (l : List A) → Permᴰ (insert_on key a l) (a ∷ l)
  unfolding insert_on
  insert_on-Permᴰ a [] = perm_refl (a ∷ [])
  insert_on-Permᴰ a (b ∷ rest) = elim (Bool-cases (leb (key a) (key b))) [
    | inl e ↦ rw e (perm_refl (a ∷ b ∷ rest))
    | inr e ↦ rw e (Permᴰ.trans (Permᴰ.cons refl (insert_on-Permᴰ a rest)) (Permᴰ.swap refl refl))
  ]

  pub sort_on-Permᴰ : (l : List A) → Permᴰ (sort_on key l) l
  unfolding sort_on
  sort_on-Permᴰ [] = Permᴰ.nil
  sort_on-Permᴰ (a ∷ rest) =
      Permᴰ.trans (insert_on-Permᴰ a (sort_on key rest)) (Permᴰ.cons refl (sort_on-Permᴰ rest))
