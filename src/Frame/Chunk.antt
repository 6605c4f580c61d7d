-- ===== src/Frame/Chunk.antt =====
-- src/rpc_frame.rs: the limits, the errors and `RpcChunk::from_value`.
use fura.Base.{ℕ, ◌*◌, ◌^◌, Bool, true, false, not, Option, none, some, String, leb, ◌==◌}
use fura.Frame.Json.{Codec}

abbrev pub max_rpc_frame_bytes : ℕ
max_rpc_frame_bytes = 1024 * 1024

abbrev pub max_rpc_reassembled_bytes : ℕ
max_rpc_reassembled_bytes = 64 * 1024 * 1024

abbrev pub rpc_chunk_payload_bytes : ℕ
rpc_chunk_payload_bytes = 256 * 1024

-- One constructor for each message of `RpcFrameDecodeError`.
pub data FrameError : Type 0 where
  physical_frame_too_long : FrameError
  invalid_json : FrameError
  chunk_interrupted : FrameError
  logical_frame_too_long : FrameError
  no_start : FrameError
  inconsistent_metadata : FrameError
  invalid_base64 : FrameError
  payload_too_long : FrameError
  chunks_exceed_length : FrameError
  length_mismatch : FrameError
  reassembled_not_json : FrameError
  reassembled_not_object : FrameError
  not_an_object : FrameError
  missing_string : String → FrameError
  missing_integer : String → FrameError
  integer_too_large : String → FrameError
  zero_count : FrameError
  index_out_of_bounds : FrameError

pub data Result {ℓ} (A : Type ℓ) : Type ℓ where
  ok : A → Result A
  err : FrameError → Result A

-- The `?` operator.
infixl 5 ◌>>=◌ ◌>>◌
abbrev pub ◌>>=◌ {ℓ κ} : {A : Type ℓ} {B : Type κ} → Result A → (A → Result B) → Result B
err e >>= rest = err e
ok a >>= rest = rest a

abbrev pub ◌>>◌ {ℓ κ} : {A : Type ℓ} {B : Type κ} → Result A → Result B → Result B
err e >> next = err e
ok a >> next = next

-- `if b { return Err(e) }`
abbrev pub reject : Bool → FrameError → Result (Unit {0})
reject true e = err e
reject false e = ok tt

-- `ok_or_else`
abbrev pub ok_or {ℓ} : {A : Type ℓ} → Option A → FrameError → Result A
ok_or none e = err e
ok_or (some a) e = ok a

-- `and_then`
abbrev pub and_then {ℓ κ} : {A : Type ℓ} {B : Type κ} → Option A → (A → Option B) → Option B
and_then none f = none
and_then (some a) f = f a

pub record RpcChunk : Type 0 where
  pub chunk_id : String
  pub index : ℕ
  pub count : ℕ
  pub byte_length : ℕ
  pub encoded : String

module _ (codec : Codec) where
  open codec use {Value, get, as_str, as_u64, is_object}

  unfoldable pub required_str : Value → String → Result String
  required_str object field = ok_or (and_then (get object field) as_str) (missing_string field)

  -- `usize` has 64 bits.
  unfoldable pub required_usize : Value → String → Result ℕ
  required_usize object field = do
    value ← ok_or (and_then (get object field) as_u64) (missing_integer field)
    reject (leb (2 ^ 64) value) (integer_too_large field)
    ok value

  unfoldable pub from_value : Value → Result RpcChunk
  unfolding required_str required_usize
  from_value value = do
    reject (not (is_object value)) not_an_object
    chunk_id ← required_str value "chunkId"
    index ← required_usize value "index"
    count ← required_usize value "count"
    byte_length ← required_usize value "byteLength"
    encoded ← required_str value "data"
    reject (count == 0) zero_count
    reject (leb count index) index_out_of_bounds
    ok (record {
      chunk_id = chunk_id;
      index = index;
      count = count;
      byte_length = byte_length;
      encoded = encoded;
    })
