-- ===== src/Json.antt =====
-- What the code uses of `nlohmann::json`, a library that is not part of the repository.
use telefacet.Shared.{ℕ, Bool, Option, Text, ℤ, List}

-- `J` holds JSON values. The `value_` operations are `value(key, default)`: they give none where the
-- library throws, on a value that is no object and on a member of another type.
pub record JsonOps (J : Type 0) : Type 0 where
  pub null : J
  pub parse : Text → Option J
  pub contains : Text → J → Bool
  pub at : Text → J → J
  pub is_object : J → Bool
  pub is_array : J → Bool
  pub is_null : J → Bool
  pub elements : J → List J
  pub value_unsigned : Text → ℕ → J → Option ℕ
  pub value_int : Text → ℤ → J → Option ℤ
  pub value_text : Text → Text → J → Option Text
  pub value_bool : Text → Bool → J → Option Bool
  pub value_double : Text → ℕ → J → Option ℕ
  pub get_double : J → Option ℕ

-- What the code uses of it to build values. `set` is `j[key] = v` on an object; `dump` gives none where
-- the library throws, on a text that is no UTF-8, and `dump_error` the exception's text. A float and a double are their bit patterns.
pub record JsonMake (J : Type 0) : Type 0 where
  pub null_value : J
  pub object : List (Text × J) → J
  pub array : List J → J
  pub text : Text → J
  pub unsigned : ℕ → J
  pub int : ℤ → J
  pub bool : Bool → J
  pub single : ℕ → J
  pub double : ℕ → J
  pub set : Text → J → J → J
  pub dump : J → Option Text
  pub dump_indented : ℕ → J → Option Text
  pub dump_error : J → Text
