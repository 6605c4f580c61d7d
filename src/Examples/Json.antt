-- ===== src/Examples/Json.antt =====
-- JSON values for the tests: a concrete form of what the crates give.
use fura.Base.{ℕ, Bool, Option, none, some, List, [], ◌∷◌, String, str_eq as ◌==◌, if◌then◌else◌}
use fura.Session.Crates.{Crates}

mutual
  pub data Json : Type 0 where
    flag : Bool → Json
    number : ℕ → Json
    text : String → Json
    array : Items → Json
    object : Fields → Json

  pub data Items : Type 0 where
    nil : Items
    cons : Json → Items → Items

  pub data Fields : Type 0 where
    end : Fields
    field : String → Json → Fields → Fields

abbrev items : Items → List Json
items nil = []
items (cons v vs) = v ∷ items vs

abbrev field_of : String → Fields → Option Json
field_of key end = none
field_of key (field name v fs) = if name == key then some v else field_of key fs

abbrev get_of : String → Json → Option Json
get_of key (object fs) = field_of key fs
get_of key (flag b) = none
get_of key (number n) = none
get_of key (text s) = none
get_of key (array vs) = none

abbrev text_of : Json → Option String
text_of (text s) = some s
text_of (object fs) = none
text_of (flag b) = none
text_of (number n) = none
text_of (array vs) = none

abbrev flag_of : Json → Option Bool
flag_of (flag b) = some b
flag_of (text s) = none
flag_of (object fs) = none
flag_of (number n) = none
flag_of (array vs) = none

abbrev number_of : Json → Option ℕ
number_of (number n) = some n
number_of (flag b) = none
number_of (text s) = none
number_of (object fs) = none
number_of (array vs) = none

abbrev array_of : Json → Option (List Json)
array_of (array vs) = some (items vs)
array_of (number n) = none
array_of (flag b) = none
array_of (text s) = none
array_of (object fs) = none

-- Hashes and JSON text are not told apart here, and no typed value is read.
abbrev pub crates : Crates
crates = record {
  Value = Json;
  get = get_of;
  as_str = text_of;
  as_bool = flag_of;
  as_array = array_of;
  as_u64 = number_of;
  Float = ℕ;
  float_zero = 0;
  as_f64 = number_of;
  from_value = λ T v. none;
  to_json = λ T v. "";
  Hasher = String;
  hasher = "";
  update = λ h s. s;
  finalize = λ h. h;
  update_u64 = λ h n. h;
}
