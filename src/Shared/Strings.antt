-- ===== src/Shared/Strings.antt =====
-- Texts as lists of bytes: literals, and `std::to_string` of a number.
use Prim.Native.Nat.{ℕ, zero, suc, ◌+◌, ◌/◌, ◌%◌}
use Prim.Native.Char.{code}
use Prim.Native.String.{String}
use mathlib.Core.List.{List, [], ◌∷◌}
use mathlib.Core.Bool.{Bool, true, false, ◌&&◌}
use telefacet.Shared.Tests.{◌==◌, ltb, if◌then◌else◌}

abbrev pub Text : Type 0
Text = List ℕ

-- `std::string::operator==`
abbrev pub same_text : Text → Text → Bool
same_text [] [] = true
same_text [] (c ∷ text) = false
same_text (k ∷ key) [] = false
same_text (k ∷ key) (c ∷ text) = k == c && same_text key text

-- The code points of a literal: its bytes, if it is ASCII.
abbrev pub codes : String → Text
codes String.[] = []
codes (String.◌∷◌ c s) = code c ∷ codes s

-- The decimal digits of `n`, before `after`. A digit a round: `n + 1` rounds are enough.
abbrev digits : ℕ → ℕ → Text → Text
digits zero n after = after
digits (suc fuel) n after =
    let this = (b'0' + n % 10) ∷ after in
    let more = digits fuel (n / 10) this in if ltb n 10 then this else more

-- `std::to_string`
unfoldable pub to_string : ℕ → Text
to_string n = digits (n + 1) n []
