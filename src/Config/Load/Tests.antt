-- ===== src/Config/Load/Tests.antt =====
-- A file with one server, loaded.
use telefacet.Shared.{
  ℕ, zero, suc, ◌+◌, ◌==◌, leb, Bool, true, false, [], ◌∷◌, Option, none, some, Text, codes, ℤ, pos,
  negsuc, same_text, if◌then◌else◌, ◌≡◌, refl,
}
use telefacet.Config.{Config, default_saving, default_captures}
use telefacet.Config.Validation.{
  Checked, ok, failed, ◌>>=◌, YamlOps, DoubleOrder, chain, validate_address, has_scheme,
  with_valid_mode, validate_mode, is_listed, check_int,
}
use telefacet.Config.Load.{
  load_from_file, load_root, require_key, check_sequence, load_servers, load_server, server_steps,
  read, load_processing, processing_steps, body_steps, load_files, file_steps, load_checkerboard,
  checkerboard_steps, load_requests, request_steps, load_aruco, aruco_steps, load_captures,
}
use telefacet.Config.Load.Loaded.{IsConfig, load_from_file-IsConfig}

-- A document: a mapping and a sequence as their first entry and the rest.
data Node : Type 0 where
  nothing : Node
  word : Text → Node
  number : ℤ → Node
  flag : Bool → Node
  entry : Text → Node → Node → Node
  item : Node → Node → Node

abbrev look_up : Text → Node → Option Node
look_up key nothing = none
look_up key (word t) = none
look_up key (number z) = none
look_up key (flag b) = none
look_up key (item n rest) = none
look_up key (entry k v rest) = if same_text key k then some v else look_up key rest

abbrev is_items : Node → Bool
is_items nothing = false
is_items (word t) = false
is_items (number z) = false
is_items (flag b) = false
is_items (item n rest) = true
is_items (entry k v rest) = false

abbrev count_items : Node → ℕ
count_items nothing = 0
count_items (word t) = 0
count_items (number z) = 0
count_items (flag b) = 0
count_items (item n rest) = count_items rest + 1
count_items (entry k v rest) = 0

abbrev nth_item : ℕ → Node → Node
nth_item i nothing = nothing
nth_item i (word t) = nothing
nth_item i (number z) = nothing
nth_item i (flag b) = nothing
nth_item zero (item n rest) = n
nth_item (suc i) (item n rest) = nth_item i rest
nth_item i (entry k v rest) = nothing

abbrev bad : {A : Type 0} → Checked A
bad = failed (codes "bad conversion")

abbrev as_word : Node → Checked Text
as_word nothing = bad
as_word (word t) = ok t
as_word (number z) = bad
as_word (flag b) = bad
as_word (item n rest) = bad
as_word (entry k v rest) = bad

abbrev as_number : Node → Checked ℤ
as_number nothing = bad
as_number (word t) = bad
as_number (number z) = ok z
as_number (flag b) = bad
as_number (item n rest) = bad
as_number (entry k v rest) = bad

abbrev natural_of : ℤ → Checked ℕ
natural_of (pos n) = ok n
natural_of (negsuc n) = bad

abbrev as_flag : Node → Checked Bool
as_flag nothing = bad
as_flag (word t) = bad
as_flag (number z) = bad
as_flag (flag b) = ok b
as_flag (item n rest) = bad
as_flag (entry k v rest) = bad

abbrev nodes : YamlOps Node
nodes = record {
  get = λ key n. ok (look_up key n);
  is_sequence = is_items;
  size = count_items;
  elem = nth_item;
  as_text = as_word;
  as_bool = as_flag;
  as_unsigned = λ n. as_number n >>= natural_of;
  as_size = λ n. as_number n >>= natural_of;
  as_int = as_number;
  as_int64 = as_number;
  as_double = λ n. as_number n >>= natural_of;
}

abbrev by_bits : DoubleOrder
by_bits = record { equal = ◌==◌; at_least = λ a b. leb b a; at_most = leb }

abbrev pi : Node
pi = entry (codes "address") (word (codes "ws://pi:9001")) (entry (codes "raw") (flag true) nothing)

abbrev file : Node
file = entry (codes "servers") (item pi nothing) (
    entry (codes "processing") (entry (codes "stack_num_frames") (number (pos 64)) nothing) nothing)

abbrev loaded : Config
loaded = record {
  servers =
      record {
        address = codes "ws://pi:9001";
        sensor = [];
        width = none;
        height = none;
        raw = true;
      }
      ∷ [];
  saving = record default_saving { stack_num_frames = pos 64 };
  captures = default_captures;
}

loads : load_from_file nodes by_bits (λ path. ok file) (codes "config.yaml") ≡ ok loaded
unfolding load_from_file load_root require_key check_sequence load_servers load_server server_steps
    chain read validate_address has_scheme load_processing processing_steps with_valid_mode
    validate_mode is_listed body_steps load_files file_steps load_checkerboard checkerboard_steps
    load_requests request_steps check_int load_aruco aruco_steps load_captures
loads = refl

load_from_file-IsConfig_example : IsConfig by_bits loaded
load_from_file-IsConfig_example =
    load_from_file-IsConfig nodes by_bits refl (λ path. ok file) (codes "config.yaml") loaded loads
