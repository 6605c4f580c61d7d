-- ===== src/Frame/Bounds.antt =====
-- The memory that the decoder holds between calls is bounded.
use fura.Base.{
  ℕ, ◌*◌, ◌≤◌, ◌<◌, ◌≡◌, refl, Option, none, some, List, arith, ltb, ◌==◌, length, length-append,
  Bool-cases, inl, inr,
}
use fura.Frame.Json.{Codec}
use fura.Frame.Chunk.{
  max_rpc_frame_bytes, max_rpc_reassembled_bytes, rpc_chunk_payload_bytes, Result, ok, err,
  RpcChunk, from_value,
}
use fura.Frame.Decoder.{
  PendingRpcChunks, Decoder, start, push_to, push_chunk, push_plain, push_value, push_parsed,
  push_line, decode_payload, add_payload, is_inconsistent, is_rpc_chunk,
}

-- A sequence under way: it waits for a chunk, has collected at most what it announced and at most a
-- full payload for each chunk, and announced no more than the limit.
pub record IsBoundedSequence (p : PendingRpcChunks) : Type 0 where
  pub waits : p.next_index < p.count
  pub collected : length p.chunks ≤ p.byte_length
  pub announced : p.byte_length ≤ max_rpc_reassembled_bytes
  pub payloads : length p.chunks ≤ p.next_index * rpc_chunk_payload_bytes

abbrev pub IsBounded : Decoder → Type 0
IsBounded none = Unit
IsBounded (some p) = IsBoundedSequence p

module _ (codec : Codec) where
  open codec use {Value, parse, decode_base64}

  add_payload-IsBounded :
      (p : PendingRpcChunks) (decoded : List ℕ)
      → IsBoundedSequence p
      → IsBounded (add_payload codec p decoded).0
  unfolding add_payload
  add_payload-IsBounded p decoded b = ground (arith, length-append p.chunks decoded)

  decode_payload-IsBounded :
      (p : PendingRpcChunks) (payload : Option (List ℕ))
      → IsBoundedSequence p
      → IsBounded (decode_payload codec p payload).0
  unfolding decode_payload
  decode_payload-IsBounded p none b = b
  decode_payload-IsBounded p (some decoded) b = add_payload-IsBounded p decoded b

  push_to-IsBounded :
      (d : Decoder) (chunk : RpcChunk) → IsBounded d → IsBounded (push_to codec d chunk).0
  unfolding push_to
  push_to-IsBounded none chunk b = tt
  push_to-IsBounded (some p) chunk b = elim (Bool-cases (is_inconsistent p chunk)) [
    | inl off ↦ rw off tt
    | inr fits ↦ rw fits (decode_payload-IsBounded p (decode_base64 chunk.encoded) b)
  ]

  start-IsBounded :
      (d : Decoder) (chunk : RpcChunk)
      → 0 < chunk.count
      → chunk.byte_length ≤ max_rpc_reassembled_bytes
      → IsBounded d
      → IsBounded (start chunk d)
  unfolding start
  start-IsBounded d chunk c l b = elim (Bool-cases (chunk.index == 0)) [
    | inl first ↦
        rw first
          (record { waits = c; collected = omega arith; announced = l; payloads = omega arith })
    | inr later ↦ rw later b
  ]

  -- A chunk that was read has an index below its count.
  pub from_value_bounds :
      (frame : Value) (chunk : RpcChunk)
      → from_value codec frame ≡ ok chunk
      → chunk.index < chunk.count
  unfolding from_value
  from_value_bounds frame chunk h = ground arith

  push_chunk-IsBounded :
      (d : Decoder) (r : Result RpcChunk)
      → ((chunk : RpcChunk) → r ≡ ok chunk → 0 < chunk.count)
      → IsBounded d
      → IsBounded (push_chunk codec d r).0
  unfolding push_chunk
  push_chunk-IsBounded d (err e) c b = b
  push_chunk-IsBounded d (ok chunk) c b =
      elim (Bool-cases (ltb max_rpc_reassembled_bytes chunk.byte_length)) [
        | inl long ↦ rw long tt
        | inr short ↦ rw short (
            push_to-IsBounded (start chunk d) chunk
              (start-IsBounded d chunk (c chunk refl) (ground arith) b))
      ]

  push_plain-IsBounded : (d : Decoder) (frame : Value) → IsBounded (push_plain codec d frame).0
  unfolding push_plain
  push_plain-IsBounded none frame = tt
  push_plain-IsBounded (some p) frame = tt

  push_value-IsBounded :
      (d : Decoder) (frame : Value) → IsBounded d → IsBounded (push_value codec d frame).0
  unfolding push_value
  push_value-IsBounded d frame b = elim (Bool-cases (is_rpc_chunk codec frame)) [
    | inl is_chunk ↦ rw is_chunk (
        push_chunk-IsBounded d (from_value codec frame)
          (λ chunk read. omega (arith, from_value_bounds frame chunk read)) b)
    | inr plain ↦ rw plain (push_plain-IsBounded d frame)
  ]

  push_parsed-IsBounded :
      (d : Decoder) (frame : Option Value) → IsBounded d → IsBounded (push_parsed codec d frame).0
  unfolding push_parsed
  push_parsed-IsBounded d none b = b
  push_parsed-IsBounded d (some frame) b = push_value-IsBounded d frame b

  -- Whatever line comes in, and whatever the answer: if the decoder held a bounded sequence or none,
  -- it holds a bounded sequence or none afterwards.
  pub push_line-IsBounded :
      (d : Decoder) (line : List ℕ) → IsBounded d → IsBounded (push_line codec d line).0
  unfolding push_line
  push_line-IsBounded d line b = elim (Bool-cases (ltb max_rpc_frame_bytes (length line))) [
    | inl long ↦ rw long b
    | inr short ↦ rw short (push_parsed-IsBounded d (parse line) b)
  ]
