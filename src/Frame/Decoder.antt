-- ===== src/Frame/Decoder.antt =====
-- src/rpc_frame.rs: `RpcFrameDecoder`. A call returns the decoder as it leaves it, and its result.
use fura.Base.{
  ℕ, ◌+◌, Bool, false, not, ◌||◌, Option, none, some, List, [], ◌++◌, String, ltb, ◌==◌, str_eq,
  if◌then◌else◌, length,
}
use fura.Frame.Json.{Codec}
use fura.Frame.Chunk.{
  max_rpc_frame_bytes, max_rpc_reassembled_bytes, rpc_chunk_payload_bytes, physical_frame_too_long,
  invalid_json, chunk_interrupted, logical_frame_too_long, no_start, inconsistent_metadata,
  invalid_base64, payload_too_long, chunks_exceed_length, length_mismatch, reassembled_not_json,
  reassembled_not_object, Result, ok, err, ◌>>=◌, ok_or, and_then, RpcChunk, from_value,
}

pub record PendingRpcChunks : Type 0 where
  pub chunk_id : String
  pub count : ℕ
  pub byte_length : ℕ
  pub next_index : ℕ
  pub chunks : List ℕ

-- The decoder's only field, `pending`.
abbrev pub Decoder : Type 0
Decoder = Option PendingRpcChunks

abbrev pub fresh : RpcChunk → PendingRpcChunks
fresh chunk = record {
  chunk_id = chunk.chunk_id;
  count = chunk.count;
  byte_length = chunk.byte_length;
  next_index = 0;
  chunks = [];
}

-- A chunk with index 0 starts a sequence over.
unfoldable pub start : RpcChunk → Decoder → Decoder
start chunk pending = if chunk.index == 0 then some (fresh chunk) else pending

unfoldable pub is_inconsistent : PendingRpcChunks → RpcChunk → Bool
is_inconsistent pending chunk =
    not (str_eq pending.chunk_id chunk.chunk_id)
    || not (pending.count == chunk.count)
    || not (pending.byte_length == chunk.byte_length)
    || not (pending.next_index == chunk.index)

abbrev extended : PendingRpcChunks → List ℕ → PendingRpcChunks
extended pending decoded = record pending {
  chunks = pending.chunks ++ decoded;
  next_index = pending.next_index + 1;
}

module _ (codec : Codec) where
  open codec use {Value, get, as_str, is_object, parse, decode_base64}

  abbrev pub Answer : Type 0
  Answer = Decoder × Result (Option Value)

  unfoldable pub is_rpc_chunk : Value → Bool
  is_rpc_chunk frame = elim (and_then (get frame "type") as_str) [
    | none ↦ false
    | some t ↦ str_eq t "rpc_chunk"
  ]

  -- The frame of the collected bytes.
  unfoldable pub reassemble : PendingRpcChunks → Result (Option Value)
  reassemble pending =
      if not (length pending.chunks == pending.byte_length) then err length_mismatch else (do
        frame ← ok_or (parse pending.chunks) reassembled_not_json
        if not (is_object frame) then err reassembled_not_object else ok (some frame))

  -- The payload of a chunk that fits the sequence.
  unfoldable pub add_payload : PendingRpcChunks → List ℕ → Answer
  add_payload pending decoded =
      if ltb rpc_chunk_payload_bytes (length decoded)
      then (none, err payload_too_long)
      else if ltb pending.byte_length (length pending.chunks + length decoded)
      then (none, err chunks_exceed_length)
      else if ltb (pending.next_index + 1) pending.count
      then (some (extended pending decoded), ok none)
      else (none, reassemble (extended pending decoded))

  -- What is not base64 leaves the sequence where it was.
  unfoldable pub decode_payload : PendingRpcChunks → Option (List ℕ) → Answer
  decode_payload pending none = (some pending, err invalid_base64)
  decode_payload pending (some decoded) = add_payload pending decoded

  unfoldable pub push_to : Decoder → RpcChunk → Answer
  push_to none chunk = (none, err no_start)
  push_to (some pending) chunk =
      if is_inconsistent pending chunk
      then (none, err inconsistent_metadata)
      else decode_payload pending (decode_base64 chunk.encoded)

  -- A chunk that cannot be read leaves the sequence where it was.
  unfoldable pub push_chunk : Decoder → Result RpcChunk → Answer
  push_chunk pending (err e) = (pending, err e)
  push_chunk pending (ok chunk) =
      if ltb max_rpc_reassembled_bytes chunk.byte_length
      then (none, err logical_frame_too_long)
      else push_to (start chunk pending) chunk

  unfoldable pub push_plain : Decoder → Value → Answer
  push_plain none frame = (none, ok (some frame))
  push_plain (some _) frame = (none, err chunk_interrupted)

  unfoldable pub push_value : Decoder → Value → Answer
  push_value pending frame =
      if not (is_rpc_chunk frame)
      then push_plain pending frame
      else push_chunk pending (from_value codec frame)

  unfoldable pub push_parsed : Decoder → Option Value → Answer
  push_parsed pending none = (pending, err invalid_json)
  push_parsed pending (some frame) = push_value pending frame

  unfoldable pub push_line : Decoder → List ℕ → Answer
  push_line pending line =
      if ltb max_rpc_frame_bytes (length line)
      then (pending, err physical_frame_too_long)
      else push_parsed pending (parse line)
