-- ===== src/Shared/Maps.antt =====
-- `std::unordered_map` with a number for a key, as an association list.
use Prim.Native.Nat.{ℕ}
use mathlib.Core.Path.{◌≡◌, refl, subst}
use mathlib.Core.Logic.{◌≢◌, inl, inr}
use mathlib.Core.List.{List, [], ◌∷◌}
use mathlib.Core.Option.{Option, none, some}
use native.Mathlib.Omega.{arith}
use telefacet.Shared.Tests.{◌==◌, ==_iff, Bool-cases, if◌then◌else◌}
use telefacet.Shared.Lists.{All}

module _ {ℓ} {V : Type ℓ} where
  -- `find(key)`
  abbrev pub lookup : ℕ → List (ℕ × V) → Option V
  lookup k [] = none
  lookup k ((j, v) ∷ m) = if j == k then some v else lookup k m

  -- `m[key] = v`
  abbrev pub insert : ℕ → V → List (ℕ × V) → List (ℕ × V)
  insert k v [] = (k, v) ∷ []
  insert k v ((j, w) ∷ m) = if j == k then (k, v) ∷ m else (j, w) ∷ insert k v m

  -- `erase(key)`
  abbrev pub erase : ℕ → List (ℕ × V) → List (ℕ × V)
  erase k [] = []
  erase k ((j, w) ∷ m) = if j == k then m else (j, w) ∷ erase k m

  -- `emplace(key, v)`, which keeps an entry that is there.
  abbrev pub emplace : ℕ → V → List (ℕ × V) → List (ℕ × V)
  emplace k v [] = (k, v) ∷ []
  emplace k v ((j, w) ∷ m) = if j == k then (j, w) ∷ m else (j, w) ∷ emplace k v m

  -- No key stands twice.
  abbrev pub Distinct : List (ℕ × V) → Type 0
  Distinct [] = Unit {0}
  Distinct ((j, v) ∷ m) = All (λ e. e.0 ≢ j) m × Distinct m

module _ {ℓ} {V : Type ℓ} where
  pub lookup-insert :
      (k j : ℕ) (v : V) (m : List (ℕ × V))
      → lookup j (insert k v m) ≡ (if k == j then some v else lookup j m)
  lookup-insert k j v [] = refl
  lookup-insert k j v ((i, w) ∷ m) = ground (arith, lookup-insert k j v m)

  pub lookup-emplace :
      (k j : ℕ) (v : V) (m : List (ℕ × V))
      → lookup k m ≡ none
      → lookup j (emplace k v m) ≡ (if k == j then some v else lookup j m)
  lookup-emplace k j v [] h = refl
  lookup-emplace k j v ((i, w) ∷ m) h = ground (arith, lookup-emplace k j v m)

  pub lookup-erase_ne : (k j : ℕ) (m : List (ℕ × V)) → k ≢ j → lookup j (erase k m) ≡ lookup j m
  lookup-erase_ne k j [] h = refl
  lookup-erase_ne k j ((i, w) ∷ m) h = ground (arith, lookup-erase_ne k j m)

  pub lookup-absent : (k : ℕ) (m : List (ℕ × V)) → All (λ e. e.0 ≢ k) m → lookup k m ≡ none
  lookup-absent k [] h = refl
  lookup-absent k ((i, w) ∷ m) h = ground (arith, h.0, lookup-absent k m h.1)

  pub lookup-erase_self : (k : ℕ) (m : List (ℕ × V)) → Distinct m → lookup k (erase k m) ≡ none
  lookup-erase_self k [] h = refl
  lookup-erase_self k ((i, w) ∷ m) h =
      ground (arith, lookup-erase_self k m h.1, lookup-absent i m h.0)

  pub All-insert {κ} :
      (P : ℕ × V → Type κ) (k : ℕ) (v : V) (m : List (ℕ × V))
      → P (k, v)
      → All P m
      → All P (insert k v m)
  All-insert P k v [] p h = (p, tt)
  All-insert P k v ((i, w) ∷ m) p h = ground (arith, All-insert P k v m p h.1)

  pub All-emplace {κ} :
      (P : ℕ × V → Type κ) (k : ℕ) (v : V) (m : List (ℕ × V))
      → P (k, v)
      → All P m
      → All P (emplace k v m)
  All-emplace P k v [] p h = (p, tt)
  All-emplace P k v ((i, w) ∷ m) p h = ground (arith, All-emplace P k v m p h.1)

  pub All-erase {κ} : (P : ℕ × V → Type κ) (k : ℕ) (m : List (ℕ × V)) → All P m → All P (erase k m)
  All-erase P k [] h = tt
  All-erase P k ((i, w) ∷ m) h = ground (arith, All-erase P k m h.1)

  pub All-lookup {κ} :
      (P : ℕ × V → Type κ) (k : ℕ) (m : List (ℕ × V)) (v : V)
      → lookup k m ≡ some v
      → All P m
      → P (k, v)
  All-lookup P k [] v e h = cc
  All-lookup P k ((i, w) ∷ m) v e h = elim (Bool-cases (i == k)) [
    | inl hit ↦
        let same : i ≡ k = (==_iff i k).0 hit in
        let found : w ≡ v = ground arith in
        subst (λ x. P (k, x)) found (subst (λ j. P (j, w)) same h.0)
    | inr miss ↦ All-lookup P k m v (ground arith) h.1
  ]

  pub insert-Distinct : (k : ℕ) (v : V) (m : List (ℕ × V)) → Distinct m → Distinct (insert k v m)
  insert-Distinct k v [] h = (tt, tt)
  insert-Distinct k v ((i, w) ∷ m) h =
      ground (arith, insert-Distinct k v m h.1, All-insert (λ e. e.0 ≢ i) k v m)

  pub emplace-Distinct : (k : ℕ) (v : V) (m : List (ℕ × V)) → Distinct m → Distinct (emplace k v m)
  emplace-Distinct k v [] h = (tt, tt)
  emplace-Distinct k v ((i, w) ∷ m) h =
      ground (arith, emplace-Distinct k v m h.1, All-emplace (λ e. e.0 ≢ i) k v m)

  pub erase-Distinct : (k : ℕ) (m : List (ℕ × V)) → Distinct m → Distinct (erase k m)
  erase-Distinct k [] h = tt
  erase-Distinct k ((i, w) ∷ m) h =
      ground (arith, erase-Distinct k m h.1, All-erase (λ e. e.0 ≢ i) k m)

  pub erase-insert : (k : ℕ) (v : V) (m : List (ℕ × V)) → erase k (insert k v m) ≡ erase k m
  erase-insert k v [] = ground arith
  erase-insert k v ((i, w) ∷ m) = ground (arith, erase-insert k v m)

  pub erase-emplace :
      (k : ℕ) (v : V) (m : List (ℕ × V)) → lookup k m ≡ none → erase k (emplace k v m) ≡ m
  erase-emplace k v [] h = ground arith
  erase-emplace k v ((i, w) ∷ m) h = ground (arith, erase-emplace k v m)
