-- ===== src/Recency/Line/Defs.antt =====
-- src/session_recency.rs: `JsonLine`, which lets a parser read one physical line of a reader and no
-- further, and `read_json_line`. Errors of the reader are left out.
use fura.Base.{
  ℕ, zero, suc, ◌+◌, ◌-◌, min, Bool, true, false, ◌||◌, Option, none, some, List, [], ◌∷◌, ◌++◌,
  ◌==◌, if◌then◌else◌, length, take, drop,
}

abbrev pub newline : ℕ
newline = 10

-- `iter().position(|byte| *byte == b'\n')`
abbrev pub shifted : Option ℕ → Option ℕ
shifted none = none
shifted (some i) = some (suc i)

unfoldable pub newline_position : List ℕ → Option ℕ
newline_position [] = none
newline_position (b ∷ bs) = if b == newline then some 0 else shifted (newline_position bs)

-- `map_or`
abbrev pub up_to : List ℕ → Option ℕ → ℕ
up_to bytes none = length bytes
up_to bytes (some index) = index + 1

unfoldable pub newline_at : ℕ → List ℕ → Bool
newline_at i [] = false
newline_at zero (b ∷ bs) = b == newline
newline_at (suc i) (b ∷ bs) = newline_at i bs

-- `rest` is what the reader has not yet given.
pub record JsonLine : Type 0 where
  pub rest : List ℕ
  pub ended : Bool
  pub consumed : ℕ

-- A read of `size` bytes of what is available: the line afterwards, and the bytes copied.
unfoldable pub give : ℕ → List ℕ → JsonLine → JsonLine × List ℕ
unfolding newline_at
give size available l = if size == 0 then (record l { ended = true }, []) else (
  record {
    rest = drop size l.rest;
    ended = newline_at (size - 1) available;
    consumed = l.consumed + size;
  },
  take size available,
)

-- As much as there is room for, up to the end of the line.
unfoldable pub read_some : List ℕ → ℕ → JsonLine → JsonLine × List ℕ
unfolding give newline_position
read_some available output l =
    let within = take (min (length available) output) available in
    give (up_to within (newline_position within)) available l

-- `read` with room for `output` bytes, where the reader has `buffered` bytes at hand.
unfoldable pub read : ℕ → ℕ → JsonLine → JsonLine × List ℕ
unfolding read_some
read buffered output l =
    if l.ended || output == 0 then (l, []) else read_some (take buffered l.rest) output l

-- Several reads, each with its buffered bytes and its room.
unfoldable pub read_all : List (ℕ × ℕ) → JsonLine → JsonLine × List ℕ
unfolding read
read_all [] l = (l, [])
read_all ((buffered, output) ∷ reads) l =
    let (l', bytes) = read buffered output l in
    let (l'', later) = read_all reads l' in (l'', bytes ++ later)

abbrev pub after_read : JsonLine → Option JsonLine → List ℕ → Option JsonLine
after_read l rest [] = some l
after_read l rest (b ∷ bs) = rest

-- `io::copy` into a sink: reads until a read gives nothing.
unfoldable pub copy_to_sink : ℕ → (ℕ → ℕ) → ℕ → JsonLine → Option JsonLine
unfolding read
copy_to_sink zero buffered output l = none
copy_to_sink (suc fuel) buffered output l =
    let (l', bytes) = read (buffered fuel) output l in
    let rest = copy_to_sink fuel buffered output l' in after_read l' rest bytes

-- What `read_json_line` tells: no bytes, or the bytes consumed and what the reader is left with. The
-- parser's reads are an argument, and what it makes of them is left out.
pub data LineRead : Type 0 where
  no_line : LineRead
  out_of_fuel : LineRead
  one_line : ℕ → List ℕ → LineRead

abbrev pub line_read : Option JsonLine → LineRead
line_read none = out_of_fuel
line_read (some l) = one_line l.consumed l.rest

unfoldable pub read_json_line : List (ℕ × ℕ) → ℕ → (ℕ → ℕ) → ℕ → List ℕ → LineRead
unfolding read_all copy_to_sink
read_json_line reads fuel buffered output [] = no_line
read_json_line reads fuel buffered output (b ∷ bs) = line_read (
    copy_to_sink fuel buffered output
      (read_all reads (record { rest = b ∷ bs; ended = false; consumed = 0 })).0)

-- The first physical line with its end, and what follows.
unfoldable pub first_line : List ℕ → List ℕ
first_line [] = []
first_line (b ∷ bs) = if b == newline then b ∷ [] else b ∷ first_line bs

unfoldable pub after_line : List ℕ → List ℕ
after_line [] = []
after_line (b ∷ bs) = if b == newline then bs else after_line bs

-- What the line still has to give, and what is behind it.
abbrev pub left : JsonLine → List ℕ
left l = if l.ended then [] else first_line l.rest

abbrev pub behind : JsonLine → List ℕ
behind l = if l.ended then l.rest else after_line l.rest
