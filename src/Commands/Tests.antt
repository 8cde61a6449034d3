-- ===== src/Commands/Tests.antt =====
-- A stack request far out of range.
use telefacet.Shared.{
  ℕ, ltb, Bool, true, false, List, [], ◌∷◌, Option, none, some, Text, codes, ℤ, pos, negsuc,
  same_text, if◌then◌else◌, ◌≡◌, refl, arith,
}
use telefacet.Json.{JsonMake}
use telefacet.Client.{StackRequest}
use telefacet.Commands.{sixty_four, stack_json, trigger_json}
use telefacet.Commands.Ranges.{JsonLaws, FieldIs, IsWithin, IsClamped, requests_in_range}

-- JSON without arrays; an object as its newest field and the rest.
data Value : Type 0 where
  nothing : Value
  word : Text → Value
  natural bits : ℕ → Value
  whole : ℤ → Value
  flag : Bool → Value
  entry : Text → Value → Value → Value

abbrev entries : List (Text × Value) → Value
entries [] = nothing
entries ((key, v) ∷ rest) = entry key v (entries rest)

abbrev look_up : Text → Value → Option Value
look_up key nothing = none
look_up key (word t) = none
look_up key (natural n) = none
look_up key (bits n) = none
look_up key (whole n) = none
look_up key (flag b) = none
look_up key (entry k v rest) = if same_text key k then some v else look_up key rest

abbrev values : JsonMake Value
values = record {
  null_value = nothing;
  object = entries;
  array = λ l. nothing;
  text = word;
  unsigned = natural;
  int = whole;
  bool = flag;
  single = bits;
  double = bits;
  set = entry;
  dump = λ j. none;
  dump_indented = λ n j. none;
  dump_error = λ j. [];
}

abbrev values_laws : JsonLaws values
values_laws = record {
  field = look_up;
  field-set = λ key other v j. refl;
  field-object = λ key other v rest e. ground (arith, e);
  field-empty = λ key. refl;
}

abbrev too_much : StackRequest
too_much = record {
  camera_id = none;
  num_frames = some (pos 5000);
  exposure_time_us = some (pos 20000000);
  analogue_gain = some 0x4059000000000000;
  skip_frames = some (negsuc 3);
  send_image = some true;
}

ltb-irreflexive : (n : ℕ) → ltb n n ≡ false
ltb-irreflexive n = ground arith

requests_in_range_example :
    FieldIs values values_laws
      (IsWithin values values_laws 1 1024)
      (codes "num_frames")
      (stack_json values ltb too_much)
    × (FieldIs values values_laws
          (IsWithin values values_laws 1 10000000)
          (codes "exposure_time")
          (stack_json values ltb too_much)
        × (FieldIs values values_laws
              (IsClamped values values_laws ltb)
              (codes "analogue_gain")
              (stack_json values ltb too_much)
            × (FieldIs values values_laws
                  (IsWithin values values_laws 0 100)
                  (codes "skip_frames")
                  (stack_json values ltb too_much)
                × FieldIs values values_laws
                    (IsWithin values values_laws 1 100)
                    (codes "skip_frames")
                    (trigger_json values ltb none (some (pos 300)) none))))
requests_in_range_example =
    requests_in_range values values_laws ltb ltb-irreflexive refl too_much none (some (pos 300))
      none

clamped : look_up (codes "num_frames") (stack_json values ltb too_much) ≡ some (whole (pos 1024))
unfolding stack_json
clamped = refl

clamped_gain :
    look_up (codes "analogue_gain") (stack_json values ltb too_much) ≡ some (bits sixty_four)
unfolding stack_json
clamped_gain = refl
