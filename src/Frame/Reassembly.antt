-- ===== src/Frame/Reassembly.antt =====
-- A frame that its sender cut into chunks comes out whole.
use mathlib.Core.List.{append-nil, append_assoc}
use fura.Base.{
  ℕ, suc, ◌+◌, ◌^◌, ◌≤◌, ◌<◌, ◌≡◌, refl, ap, ◌∙◌, true, false, Option, none, some, List, [], ◌∷◌,
  ◌++◌, arith, ltb, ==_refl, eq_refl, length, length-append, String,
}
use fura.Frame.Json.{Codec}
use fura.Frame.Chunk.{
  max_rpc_reassembled_bytes, rpc_chunk_payload_bytes, Result, ok, RpcChunk, from_value, and_then,
}
use fura.Frame.Decoder.{
  PendingRpcChunks, Decoder, start, push_to, push_chunk, push_value, decode_payload, add_payload,
  is_inconsistent, is_rpc_chunk, reassemble,
}

abbrev pub concat : List (List ℕ) → List ℕ
concat [] = []
concat (p ∷ ps) = p ++ concat ps

module _ (codec : Codec) where
  open codec use {Value, get, as_str, as_u64, is_object, parse, decode_base64}

  -- The JSON value is the frame of this chunk, and the chunk carries this payload.
  pub record Carries (chunk : RpcChunk) (frame : Value) (payload : List ℕ) : Type 0 where
    pub object : is_object frame ≡ true
    pub typed : and_then (get frame "type") as_str ≡ some "rpc_chunk"
    pub chunk_id : and_then (get frame "chunkId") as_str ≡ some chunk.chunk_id
    pub index : and_then (get frame "index") as_u64 ≡ some chunk.index
    pub count : and_then (get frame "count") as_u64 ≡ some chunk.count
    pub byte_length : and_then (get frame "byteLength") as_u64 ≡ some chunk.byte_length
    pub encoded : and_then (get frame "data") as_str ≡ some chunk.encoded
    pub decoded : decode_base64 chunk.encoded ≡ some payload

  -- The frames of a sequence, from chunk `i` on: consecutive indices, one id, count and length, and
  -- payloads that fit a chunk.
  pub data Sequence (id : String) (count byte_length : ℕ)
      : ℕ → List Value → List (List ℕ) → Type 0 where
    done : {i : ℕ} → Sequence id count byte_length i [] []
    next :
        {i : ℕ} {frames : List Value} {payloads : List (List ℕ)} (frame : Value) (payload : List ℕ)
        (encoded : String)
        → Carries
            (record {
              chunk_id = id;
              index = i;
              count = count;
              byte_length = byte_length;
              encoded = encoded;
            })
            frame
            payload
        → length payload ≤ rpc_chunk_payload_bytes
        → Sequence id count byte_length (suc i) frames payloads
        → Sequence id count byte_length i (frame ∷ frames) (payload ∷ payloads)

  -- The frames one after the other, and the answers.
  unfoldable pub push_all : Decoder → List Value → Decoder × List (Result (Option Value))
  push_all d [] = (d, [])
  push_all d (frame ∷ frames) =
      let (d', answer) = push_value codec d frame in
      let (d'', answers) = push_all d' frames in (d'', answer ∷ answers)

  -- Nothing until the last frame, and then the whole value.
  abbrev pub last_answer : List Value → Value → List (Result (Option Value))
  last_answer [] v = []
  last_answer (f ∷ []) v = ok (some v) ∷ []
  last_answer (f ∷ g ∷ fs) v = ok none ∷ last_answer (g ∷ fs) v

  from_value_lem :
      (chunk : RpcChunk) (frame : Value) (payload : List ℕ)
      → chunk.index < chunk.count
      → chunk.count < 2 ^ 64
      → chunk.byte_length < 2 ^ 64
      → Carries chunk frame payload
      → from_value codec frame ≡ ok chunk
  unfolding from_value
  from_value_lem chunk frame payload i c b k = ground arith

  is_rpc_chunk_lem :
      (chunk : RpcChunk) (frame : Value) (payload : List ℕ)
      → Carries chunk frame payload
      → is_rpc_chunk codec frame ≡ true
  unfolding is_rpc_chunk
  is_rpc_chunk_lem chunk frame payload k = rw (k.typed, is_rpc_chunk) refl

  -- A chunk that fits the sequence reaches its payload.
  push_value_lem :
      (d : Decoder) (p : PendingRpcChunks) (chunk : RpcChunk) (frame : Value) (payload : List ℕ)
      → start chunk d ≡ some p
      → is_inconsistent p chunk ≡ false
      → chunk.index < chunk.count
      → chunk.count < 2 ^ 64
      → chunk.byte_length ≤ max_rpc_reassembled_bytes
      → Carries chunk frame payload
      → push_value codec d frame ≡ add_payload codec p payload
  unfolding push_value push_chunk push_to decode_payload
  push_value_lem d p chunk frame payload begun fits i c b k =
      let short : ltb max_rpc_reassembled_bytes chunk.byte_length ≡ false = ground arith in
      rw (is_rpc_chunk_lem chunk frame payload k) (
        rw (from_value_lem chunk frame payload i c (omega arith) k)
          (rw short (rw begun (rw fits (rw (k.decoded) refl)))))

  module _ (id : String) (count byte_length : ℕ) where
    -- The sequence before chunk `i`, with the bytes so far.
    abbrev at : ℕ → List ℕ → PendingRpcChunks
    at i chunks = record {
      chunk_id = id;
      count = count;
      byte_length = byte_length;
      next_index = i;
      chunks = chunks;
    }

    abbrev chunk_at : ℕ → String → RpcChunk
    chunk_at i encoded = record {
      chunk_id = id;
      index = i;
      count = count;
      byte_length = byte_length;
      encoded = encoded;
    }

    at_consistent :
        (i : ℕ) (acc : List ℕ) (e : String) → is_inconsistent (at i acc) (chunk_at i e) ≡ false
    unfolding is_inconsistent
    at_consistent i acc e =
        ground (arith, eq_refl id, ==_refl i, ==_refl count, ==_refl byte_length)

    add_payload_more :
        (i : ℕ) (acc payload : List ℕ)
        → length payload ≤ rpc_chunk_payload_bytes
        → length acc + length payload ≤ byte_length
        → suc i < count
        → add_payload codec (at i acc) payload ≡ (some (at (suc i) (acc ++ payload)), ok none)
    unfolding add_payload
    add_payload_more i acc payload fits room more = ground arith

    add_payload_last :
        (i : ℕ) (acc payload : List ℕ) (v : Value)
        → length payload ≤ rpc_chunk_payload_bytes
        → length acc + length payload ≡ byte_length
        → suc i ≡ count
        → parse (acc ++ payload) ≡ some v
        → is_object v ≡ true
        → add_payload codec (at i acc) payload ≡ (none, ok (some v))
    unfolding add_payload reassemble
    add_payload_last i acc payload v fits room last parsed object =
        ground (arith, length-append acc payload)

    later_start :
        (i : ℕ) (acc : List ℕ) (e : String)
        → start (chunk_at (suc i) e) (some (at (suc i) acc)) ≡ some (at (suc i) acc)
    unfolding start
    later_start i acc e = ground arith

    first_start : (d : Decoder) (e : String) → start (chunk_at 0 e) d ≡ some (at 0 [])
    unfolding start
    first_start d e = refl

    -- From any decoder that the next chunk brings to `at i acc`.
    push_all-Sequence :
        (d : Decoder) (v : Value) {i : ℕ} {frames : List Value} {payloads : List (List ℕ)}
        (acc : List ℕ)
        → Sequence id count byte_length i frames payloads
        → ((e : String) → start (chunk_at i e) d ≡ some (at i acc))
        → count < 2 ^ 64
        → byte_length ≤ max_rpc_reassembled_bytes
        → 0 < length frames
        → i + length frames ≡ count
        → length acc + length (concat payloads) ≡ byte_length
        → parse (acc ++ concat payloads) ≡ some v
        → is_object v ≡ true
        → push_all d frames ≡ (none, last_answer frames v)
    unfolding push_all
    push_all-Sequence d v acc done begun c b n len total parsed object = absurd (omega arith)
    push_all-Sequence d v {i = i} acc (next frame payload e k fits done) begun c b n len total
          parsed object =
        rw
          (push_value_lem d (at i acc) (chunk_at i e) frame payload (begun e)
              (at_consistent i acc e) (omega arith) c b k
            ∙ add_payload_last i acc payload v fits (omega (arith, length-append payload []))
                (omega arith) (rw append-nil at parsed) object)
          refl
    push_all-Sequence d v {i = i} acc
          (next frame payload e k fits
            (next {frames = frames} {payloads = payloads} g q e' k' fits' rest))
          begun c b n len total parsed object =
        rw
          (push_value_lem d (at i acc) (chunk_at i e) frame payload (begun e)
              (at_consistent i acc e) (omega arith) c b k
            ∙ add_payload_more i acc payload fits
                (omega (arith, length-append payload (q ++ concat payloads))) (omega arith))
          (ap (λ r. (r.0, ok none ∷ r.1))
            (push_all-Sequence (some (at (suc i) (acc ++ payload))) v (acc ++ payload)
              (next g q e' k' fits' rest) (later_start i (acc ++ payload)) c b (omega arith)
              (omega arith)
              (omega
                (arith, length-append payload (q ++ concat payloads), length-append acc payload))
              (ap parse (append_assoc acc payload (q ++ concat payloads)) ∙ parsed) object))

  -- A JSON object (the decoder refuses a reassembled value of another kind) cut into at least one and
  -- less than 2^64 chunks of at most 256 KiB, no more than 64 MiB in all: whatever the decoder held, it answers nothing to each frame but the last, and the object
  -- to the last, and it is then empty.
  pub push_all_reassembles :
      (id : String) (d : Decoder) (v : Value) (frames : List Value) (payloads : List (List ℕ))
      → Sequence id (length frames) (length (concat payloads)) 0 frames payloads
      → 0 < length frames
      → length frames < 2 ^ 64
      → length (concat payloads) ≤ max_rpc_reassembled_bytes
      → parse (concat payloads) ≡ some v
      → is_object v ≡ true
      → push_all d frames ≡ (none, last_answer frames v)
  push_all_reassembles id d v frames payloads s n c b parsed object =
      push_all-Sequence id (length frames) (length (concat payloads)) d v [] s
        (first_start id (length frames) (length (concat payloads)) d) c b n (omega arith)
        (omega arith) parsed object
