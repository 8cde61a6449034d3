-- ===== src/Config/Validation.antt =====
-- config/ConfigLoader.cpp: what the loader accepts, and what it throws otherwise.
use telefacet.Shared.{
  ℕ, ltb, Bool, true, false, not, ◌&&◌, ◌||◌, List, [], ◌∷◌, ◌++◌, Option, Text, codes, ℤ, pos,
  negsuc, same_text, to_string, if◌then◌else◌,
}
use telefacet.Messages.{is_empty_text}
use telefacet.Sidecar.{is_prefix}
use telefacet.Config.{FrameSavingCfg}

-- What a part of the loader gives: a value, or the text of what it throws.
pub data Checked {ℓ} (A : Type ℓ) : Type ℓ where
  ok : A → Checked A
  failed : Text → Checked A

infixl 5 ◌>>=◌
abbrev pub ◌>>=◌ {ℓ κ} : {A : Type ℓ} {B : Type κ} → Checked A → (A → Checked B) → Checked B
ok a >>= f = f a
failed e >>= f = failed e

-- What the code uses of yaml-cpp. `get` is `node[key]`: none for a key that is missing. The others
-- are `IsSequence`, `size`, `node[i]` and `as`.
pub record YamlOps (Y : Type 0) : Type 0 where
  pub get : Text → Y → Checked (Option Y)
  pub is_sequence : Y → Bool
  pub size : Y → ℕ
  pub elem : ℕ → Y → Y
  pub as_text : Y → Checked Text
  pub as_bool : Y → Checked Bool
  pub as_unsigned : Y → Checked ℕ
  pub as_size : Y → Checked ℕ
  pub as_int : Y → Checked ℤ
  pub as_int64 : Y → Checked ℤ
  pub as_double : Y → Checked ℕ

-- The comparisons of doubles.
pub record DoubleOrder : Type 0 where
  pub equal : ℕ → ℕ → Bool
  pub at_least : ℕ → ℕ → Bool
  pub at_most : ℕ → ℕ → Bool

-- `v < lo || v > hi`, for bounds that are not negative.
abbrev pub is_outside : ℕ → ℕ → ℤ → Bool
is_outside lo hi (pos n) = ltb n lo || ltb hi n
is_outside lo hi (negsuc n) = true

unfoldable pub has_scheme : Text → Bool
unfolding is_prefix
has_scheme address = is_prefix (codes "ws://") address || is_prefix (codes "wss://") address

unfoldable pub validate_address : Text → ℕ → Checked (Unit {0})
unfolding has_scheme
validate_address address index =
    if has_scheme address
    then ok tt
    else failed (
        codes "server "
        ++ to_string index
        ++ codes " address must use ws:// or wss://: "
        ++ address)

abbrev pub valid_modes : List Text
valid_modes =
    codes "none"
    ∷ codes "buffer"
    ∷ codes "batch"
    ∷ codes "checkerboard"
    ∷ codes "checkerboard2x2"
    ∷ codes "aruco"
    ∷ codes "aruco2x2"
    ∷ []

-- `std::find(...) != end`
unfoldable pub is_listed : Text → List Text → Bool
is_listed t [] = false
is_listed t (u ∷ rest) = same_text u t || is_listed t rest

abbrev list_after : Text → List Text → Text
list_after sofar [] = sofar
list_after sofar (m ∷ rest) =
    list_after (sofar ++ ((if is_empty_text sofar then [] else codes ", ") ++ m)) rest

abbrev pub valid_list : Text
valid_list = list_after [] valid_modes

abbrev pub is_any : Text → Text → Text → Bool
is_any a b mode = same_text mode a || same_text mode b

unfoldable pub validate_mode : Text → Checked (Unit {0})
unfolding is_listed
validate_mode mode =
    if is_any (codes "trigger") (codes "stack") mode
    then failed (
        codes "processing.mode '"
        ++ mode
        ++ codes "' no longer exists: trigger and stack captures work in any mode "
        ++ codes "(protocol v8) "
        ++ 226 ∷ 128 ∷ 148 ∷ codes " use one of: "
        ++ valid_list)
    else if not (is_listed mode valid_modes)
    then failed
        (codes "processing.mode invalid: " ++ mode ++ codes " (one of: " ++ valid_list ++ codes ")")
    else ok tt

unfoldable pub check_int : Text → ℕ → ℕ → ℤ → Checked (Unit {0})
check_int key lo hi v =
    if is_outside lo hi v
    then failed (
        codes "processing."
        ++ key
        ++ codes " must be an integer in ["
        ++ to_string lo
        ++ codes ", "
        ++ to_string hi
        ++ codes "]")
    else ok tt

unfoldable pub check_window : ℤ → Checked (Unit {0})
check_window v =
    if is_outside 0 100 v
    then failed (codes "processing.checkerboard_subpix_window must be in [0, 100]")
    else ok tt

unfoldable pub check_exposure : ℤ → Checked (Unit {0})
check_exposure v =
    if is_outside 0 10000000 v
    then failed (
        codes "processing.stack_exposure_time must be in [0, 10000000] us "
        ++ codes "(0 = keep the preview's)")
    else ok tt

abbrev pub is_gain : DoubleOrder → ℕ → Bool
is_gain order g =
    order.equal g 0 || (order.at_least g 0x3ff0000000000000 && order.at_most g 0x4050000000000000)

unfoldable pub check_gain : DoubleOrder → ℕ → Checked (Unit {0})
check_gain order g =
    if not (is_gain order g)
    then failed (codes "processing.stack_analogue_gain must be 0 (unpinned) or in [1, 64]")
    else ok tt

-- One step after the other, up to the first that throws.
unfoldable pub chain : {C : Type 0} → List (C → Checked C) → C → Checked C
chain [] c = ok c
chain (step ∷ rest) c = step c >>= chain rest

abbrev pub accept : {A : Type 0} → A → Checked (Unit {0})
accept a = ok tt

abbrev pub for_mode :
    Text
    → Text
    → (FrameSavingCfg → Checked FrameSavingCfg)
    → FrameSavingCfg
    → Checked FrameSavingCfg
for_mode a b load c = if is_any a b c.mode then load c else ok c

unfoldable pub with_valid_mode : FrameSavingCfg → Checked FrameSavingCfg
unfolding validate_mode
with_valid_mode c = validate_mode c.mode >>= λ _. ok c
