-- ===== src/Config/Load/Checks.antt =====
-- config/ConfigLoader.cpp: what every configuration that is loaded satisfies.
use telefacet.Shared.{
  ℕ, ◌≤◌, Bool, true, false, not, List, [], ◌∷◌, some, All, Text, codes, ℤ, pos, negsuc,
  if◌then◌else◌, ◌≡◌, refl, arith,
}
use telefacet.Config.{FrameSavingCfg}
use telefacet.Config.Validation.{
  Checked, ok, failed, ◌>>=◌, DoubleOrder, is_outside, valid_modes, is_listed, is_any,
  validate_mode, check_int, check_window, check_exposure, is_gain, check_gain, chain,
  with_valid_mode, for_mode,
}

-- A value that is given satisfies `P`.
abbrev pub Ensures : {A : Type 0} → (A → Type 0) → Checked A → Type 0
Ensures P (ok a) = P a
Ensures P (failed e) = Unit {0}

pub chain-Ensures :
    {A B : Type 0} (Q : A → Type 0) (P : B → Type 0) (m : Checked A) (f : A → Checked B)
    → Ensures Q m
    → ((a : A) → Q a → Ensures P (f a))
    → Ensures P (m >>= f)
chain-Ensures Q P (ok a) f h k = k a h
chain-Ensures Q P (failed e) f h k = tt

pub chain-any :
    {A B : Type 0} (P : B → Type 0) (m : Checked A) (f : A → Checked B)
    → ((a : A) → m ≡ ok a → Ensures P (f a))
    → Ensures P (m >>= f)
chain-any P (ok a) f k = k a refl
chain-any P (failed e) f k = tt

-- A step keeps `P`.
pub record Keeps {C : Type 0} (P : C → Type 0) (step : C → Checked C) : Type 0 where
  pub keeps : (c : C) → P c → Ensures P (step c)

pub chain-Keeps :
    {C : Type 0} (P : C → Type 0) (l : List (C → Checked C)) → All (Keeps P) l → Keeps P (chain l)
unfolding chain
chain-Keeps P [] h = record { keeps = λ c p. p }
chain-Keeps P (step ∷ rest) h = record {
  keeps =
      λ c p. chain-Ensures P P (step c) (chain rest) (h.0.keeps c p) (chain-Keeps P rest h.1).keeps;
}

-- A number from `lo` to `hi`.
abbrev pub IsFrom : ℕ → ℕ → ℤ → Type 0
IsFrom lo hi z = (n : ℕ) × (z ≡ pos n) × (lo ≤ n) × (n ≤ hi)

is_outside-IsFrom : (lo hi : ℕ) (z : ℤ) → is_outside lo hi z ≡ false → IsFrom lo hi z
is_outside-IsFrom lo hi (pos n) h = (n, refl, ground (arith, h), ground (arith, h))
is_outside-IsFrom lo hi (negsuc n) h = cc

-- The ranges of the parts that a server is sent with every capture, and of the window.
abbrev pub AreInBounds : DoubleOrder → FrameSavingCfg → Type 0
AreInBounds order c =
    IsFrom 0 100 c.trigger_skip_frames
    × (IsFrom 1 1024 c.stack_num_frames
        × (IsFrom 0 100 c.stack_skip_frames
            × (IsFrom 0 10000000 c.stack_exposure_time
                × ((is_gain order c.stack_analogue_gain ≡ true)
                    × ((w : ℤ) → c.checkerboard_subpix_window ≡ some w → IsFrom 0 100 w)))))

abbrev pub IsUsable : DoubleOrder → FrameSavingCfg → Type 0
IsUsable order c = AreInBounds order c × (is_listed c.mode valid_modes ≡ true)

-- A check that throws if `test` says so.
unless-passes :
    (test : Bool) (message : Text)
    → (if test then failed message else ok (tt {0})) ≡ ok tt
    → test ≡ false
unless-passes true message e = cc
unless-passes false message e = refl

pub check_int-IsFrom :
    (key : Text) (lo hi : ℕ) (z : ℤ) → check_int key lo hi z ≡ ok tt → IsFrom lo hi z
unfolding check_int
check_int-IsFrom key lo hi z e = is_outside-IsFrom lo hi z (unless-passes (is_outside lo hi z) _ e)

pub check_window-IsFrom : (z : ℤ) → check_window z ≡ ok tt → IsFrom 0 100 z
unfolding check_window
check_window-IsFrom z e = is_outside-IsFrom 0 100 z (unless-passes (is_outside 0 100 z) _ e)

pub check_exposure-IsFrom : (z : ℤ) → check_exposure z ≡ ok tt → IsFrom 0 10000000 z
unfolding check_exposure
check_exposure-IsFrom z e =
    is_outside-IsFrom 0 10000000 z (unless-passes (is_outside 0 10000000 z) _ e)

not-false : (b : Bool) → not b ≡ false → b ≡ true
not-false true e = refl
not-false false e = cc

pub check_gain_lem :
    (order : DoubleOrder) (g : ℕ) → check_gain order g ≡ ok tt → is_gain order g ≡ true
unfolding check_gain
check_gain_lem order g e = not-false (is_gain order g) (unless-passes (not (is_gain order g)) _ e)

neither-passes :
    (first second : Bool) (m n : Text)
    → (if first then failed m else if second then failed n else ok (tt {0})) ≡ ok tt
    → second ≡ false
neither-passes true second m n e = cc
neither-passes false true m n e = cc
neither-passes false false m n e = refl

validate_mode_lem : (mode : Text) → validate_mode mode ≡ ok tt → is_listed mode valid_modes ≡ true
unfolding validate_mode
validate_mode_lem mode e = not-false (is_listed mode valid_modes) (
    neither-passes (is_any (codes "trigger") (codes "stack") mode)
      (not (is_listed mode valid_modes)) _ _ e)

pub for_mode-Keeps :
    {P : FrameSavingCfg → Type 0} (a b : Text) (load : FrameSavingCfg → Checked FrameSavingCfg)
    → Keeps P load
    → Keeps P (for_mode a b load)
for_mode-Keeps {P} a b load k = record { keeps = λ c h. split c h (is_any a b c.mode) }
  where
    split : (c : FrameSavingCfg) → P c → (t : Bool) → Ensures P (if t then load c else ok c)
    split c h true = k.keeps c h
    split c h false = h

pub with_valid_mode-Ensures :
    (order : DoubleOrder) (c : FrameSavingCfg)
    → AreInBounds order c
    → Ensures (IsUsable order) (with_valid_mode c)
unfolding with_valid_mode
with_valid_mode-Ensures order c h =
    chain-any (IsUsable order) (validate_mode c.mode) _ λ u e. (h, validate_mode_lem c.mode e)
