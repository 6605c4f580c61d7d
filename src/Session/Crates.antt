-- ===== src/Session/Crates.antt =====
-- What a session's record takes from crates: `serde_json::Value` and its accessors, JSON text of a
-- serializable value, the hasher of blake3, and `f64`.
use fura.Base.{ℕ, Bool, Option, List, String}

pub record Crates : Type 1 where
  pub Value : Type 0
  -- `Value::get` with a string index, `as_str`, `as_bool`, `as_array`, `as_u64`, `as_f64`.
  pub get : String → Value → Option Value
  pub as_str : Value → Option String
  pub as_bool : Value → Option Bool
  pub as_array : Value → Option (List Value)
  pub as_u64 : Value → Option ℕ
  pub Float : Type 0
  pub float_zero : Float
  pub as_f64 : Value → Option Float
  -- `serde_json::from_value`
  pub from_value : (T : Type 0) → Value → Option T
  -- `serde_json::to_writer` of a value that derives `Serialize`.
  pub to_json : (T : Type 0) → T → String
  -- `blake3::Hasher::new`, `update` with the bytes of a text, `finalize` as hexadecimal digits.
  pub Hasher : Type 0
  pub hasher : Hasher
  pub update : Hasher → String → Hasher
  pub finalize : Hasher → String
  -- `update` with the eight bytes of a `u64`, least first.
  pub update_u64 : Hasher → ℕ → Hasher
