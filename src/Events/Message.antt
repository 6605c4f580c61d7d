-- ===== src/Events/Message.antt =====
-- src/session.rs: `SessionProjection`, `SessionProjectionDelta`; src/state.rs: `stamp_session_seq`.
-- `E` is the type of transcript entries. `H` stands for the fields that a projection and a delta
-- carry alike and that a delta replaces whole (summary, busy and compaction flags, model, token
-- counts, plan mode, skills, todo phases, pending ask, commands). `O` is every other message.
use fura.Base.{ℕ, ◌+◌, ◌%◌, ◌^◌, String, Option, none, some, List, [], ◌∷◌, drop}
use fura.Base.Table.{Table, lookup, insert}

pub record SessionProjection (E H : Type 0) : Type 0 where
  pub header : H
  pub transcript : List E
  pub seq : ℕ

pub record SessionProjectionDelta (E H : Type 0) : Type 0 where
  pub header : H
  pub transcript_replace_from : ℕ
  pub transcript_append : List E
  pub base_seq : ℕ
  pub seq : ℕ

pub data ServerMessage (E H O : Type 0) : Type 0 where
  session_snapshot : String → SessionProjection E H → ServerMessage E H O
  session_delta : String → SessionProjectionDelta E H → ServerMessage E H O
  other : O → ServerMessage E H O

-- A u64 counter that goes round.
abbrev pub next_u64 : ℕ → ℕ
next_u64 n = (n + 1) % 2 ^ 64

-- `*seqs.entry(id).or_insert(0)`
abbrev pub or_zero : Option ℕ → ℕ
or_zero none = 0
or_zero (some n) = n

unfoldable pub seq_of : String → Table ℕ → ℕ
seq_of id seqs = or_zero (lookup id seqs)

module _ {E H : Type 0} where
  unfoldable pub from_projection_replace_tail :
      ℕ → SessionProjection E H → SessionProjectionDelta E H
  from_projection_replace_tail transcript_replace_from projection = record {
    header = projection.header;
    transcript_replace_from = transcript_replace_from;
    transcript_append = drop transcript_replace_from projection.transcript;
    base_seq = 0;
    seq = 0;
  }

module _ {E H O : Type 0} where
  -- The new counters, and the message with its numbers.
  unfoldable pub stamp_session_seq : Table ℕ → ServerMessage E H O → Table ℕ × ServerMessage E H O
  stamp_session_seq seqs (session_snapshot id state) =
      let seq = next_u64 (seq_of id seqs) in
      (insert id seq seqs, session_snapshot id (record state { seq = seq }))
  stamp_session_seq seqs (session_delta id state) =
      let base = seq_of id seqs in
      let seq = next_u64 base in
      (insert id seq seqs, session_delta id (record state { base_seq = base; seq = seq }))
  stamp_session_seq seqs (other m) = (seqs, other m)

  -- The messages in the order of the broadcast channel.
  unfoldable pub send_all :
      Table ℕ → List (ServerMessage E H O) → Table ℕ × List (ServerMessage E H O)
  send_all seqs [] = (seqs, [])
  send_all seqs (m ∷ ms) =
      let (seqs', m') = stamp_session_seq seqs m in
      let (seqs'', ms') = send_all seqs' ms in (seqs'', m' ∷ ms')
