-- ===== src/Frame/Json.antt =====
-- What src/rpc_frame.rs uses of the serde_json and base64 crates. Text is a list of bytes.
use fura.Base.{ℕ, Bool, Option, List, String}

-- serde_json's `Value` with the accessors and the parser, and the standard base64 decoder.
pub record Codec : Type 1 where
  pub Value : Type 0
  -- `Value::get` with a string index: `none` on whatever is no object
  pub get : Value → String → Option Value
  pub as_str : Value → Option String
  pub as_u64 : Value → Option ℕ
  pub is_object : Value → Bool
  -- `from_str` and `from_slice`
  pub parse : List ℕ → Option Value
  pub decode_base64 : String → Option (List ℕ)
