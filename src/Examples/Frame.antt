-- ===== src/Examples/Frame.antt =====
-- A small codec, and a frame of three bytes that comes in two chunks.
use fura.Base.{
  ℕ, ◌≡◌, refl, Bool, true, false, Option, none, some, List, [], ◌∷◌, String, str_eq, arith, length,
  ◌==◌, if◌then◌else◌,
}
use fura.Frame.Json.{Codec}
use fura.Frame.Decoder.{push_line}
use fura.Frame.Bounds.{IsBounded, push_line-IsBounded}
use fura.Frame.Reassembly.{Sequence, next, done, push_all, last_answer, push_all_reassembles}

data Json : Type 0 where
  text : String → Json
  number : ℕ → Json
  chunk : ℕ → String → Json
  state : Json

-- The fields of a chunk of a frame of two chunks and three bytes.
abbrev field : ℕ → String → String → Option Json
field index payload name =
    if str_eq name "type"
    then some (text "rpc_chunk")
    else if str_eq name "chunkId"
    then some (text "c1")
    else if str_eq name "index"
    then some (number index)
    else if str_eq name "count"
    then some (number 2)
    else if str_eq name "byteLength"
    then some (number 3)
    else if str_eq name "data"
    then some (text payload)
    else none

abbrev field_of : Json → String → Option Json
field_of (text s) name = none
field_of (number n) name = none
field_of (chunk index payload) name = field index payload name
field_of state name = none

abbrev text_of : Json → Option String
text_of (text s) = some s
text_of (number n) = none
text_of (chunk index payload) = none
text_of state = none

abbrev number_of : Json → Option ℕ
number_of (text s) = none
number_of (number n) = some n
number_of (chunk index payload) = none
number_of state = none

abbrev has_fields : Json → Bool
has_fields (text s) = false
has_fields (number n) = false
has_fields (chunk index payload) = true
has_fields state = true

abbrev codec : Codec
codec = record {
  Value = Json;
  get = field_of;
  as_str = text_of;
  as_u64 = number_of;
  is_object = has_fields;
  parse = λ bytes.
      if length bytes == 3
      then some state
      else if length bytes == 9
      then some (chunk 0 "AQI=")
      else none;
  decode_base64 = λ encoded.
      if str_eq encoded "AQI="
      then some (1 ∷ 2 ∷ [])
      else if str_eq encoded "Aw=="
      then some (3 ∷ [])
      else none;
}

abbrev frames : List Json
frames = chunk 0 "AQI=" ∷ chunk 1 "Aw==" ∷ []

frames-Sequence : Sequence codec "c1" 2 3 0 frames ((1 ∷ 2 ∷ []) ∷ (3 ∷ []) ∷ [])
frames-Sequence =
    next (chunk 0 "AQI=") (1 ∷ 2 ∷ []) "AQI="
      (record {
        object = refl;
        typed = refl;
        chunk_id = refl;
        index = refl;
        count = refl;
        byte_length = refl;
        encoded = refl;
        decoded = refl;
      })
      (omega arith)
      (next (chunk 1 "Aw==") (3 ∷ []) "Aw=="
        (record {
          object = refl;
          typed = refl;
          chunk_id = refl;
          index = refl;
          count = refl;
          byte_length = refl;
          encoded = refl;
          decoded = refl;
        })
        (omega arith) done)

push_all_reassembles_example : push_all codec none frames ≡ (none, last_answer codec frames state)
push_all_reassembles_example =
    push_all_reassembles codec "c1" none state frames ((1 ∷ 2 ∷ []) ∷ (3 ∷ []) ∷ []) frames-Sequence
      (omega arith) (omega arith) (omega arith) refl refl

abbrev line : List ℕ
line = 123 ∷ 34 ∷ 116 ∷ 34 ∷ 58 ∷ 34 ∷ 99 ∷ 34 ∷ 125 ∷ []

push_line-IsBounded_example : IsBounded (push_line codec none line).0
push_line-IsBounded_example = push_line-IsBounded codec none line tt
