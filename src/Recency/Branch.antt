-- ===== src/Recency/Branch.antt =====
-- The active branch of a journal, read backwards from its last record, and what the fold of
-- src/session_recency.rs finds on it.
use fura.Base.{
  ◌≡◌, ◌≤◌, ◌⊎◌, refl, true, false, Option, none, some, List, [], ◌∷◌, String, arith,
  str_eq as ◌==◌, if◌then◌else◌, All, Bool-cases, Option-cases, inl, inr, sym, ◌∙◌,
}
use fura.Base.Table.{Table, lookup, lookup-insert}
use fura.Recency.Fact.{Timestamp, JournalFact, Parent, absent, null, of_id, activity, is_str}
use fura.Recency.Journal.{
  JournalRecency, empty, max_time, flatten, is_leaf, parent_of, push, push_leaf, scan, note_id,
}

module _ {V : Type 0} where
  -- The branch that a parent link leads to, in a journal given newest record first: an absent link
  -- means the record before, an explicit one the nearest earlier record of that id, and null none.
  pub link : List (JournalFact V) → Parent → List (JournalFact V)
  link [] parent = []
  link (fact ∷ earlier) null = []
  link (fact ∷ earlier) absent = fact ∷ link earlier fact.parent_id
  link (fact ∷ earlier) (of_id id) = elim (is_str fact.id id) [
    | true ↦ fact ∷ link earlier fact.parent_id
    | false ↦ link earlier (of_id id)
  ]

  -- The journal's leaves, newest first.
  pub leaves : List (JournalFact V) → List (JournalFact V) → List (JournalFact V)
  leaves seen [] = seen
  leaves seen (fact ∷ facts) = leaves (if is_leaf fact.kind then fact ∷ seen else seen) facts

  pub active_branch : List (JournalFact V) → List (JournalFact V)
  unfolding leaves link
  active_branch facts = link (leaves [] facts) absent

abbrev pub AtMost : Option Timestamp → Timestamp → Type 0
AtMost none t = Unit
AtMost (some s) t = s ≤ t

max_time-some :
    (a b : Option Timestamp) (t : Timestamp)
    → max_time a b ≡ some t
    → AtMost a t × AtMost b t × ((a ≡ some t) ⊎ (b ≡ some t))
max_time-some none none t h = absurd (cc)
max_time-some none (some b) t h = (tt, ground arith, inr h)
max_time-some (some a) none t h = (ground arith, tt, inl h)
max_time-some (some a) (some b) t h = (ground arith, ground arith, ground arith)

max_time-none : (a b : Option Timestamp) → max_time a b ≡ none → (a ≡ none) × (b ≡ none)
max_time-none none b h = (refl, h)
max_time-none (some a) none h = (h, refl)
max_time-none (some a) (some b) h = ground arith

AtMost-le : (o : Option Timestamp) (s t : Timestamp) → s ≤ t → AtMost o s → AtMost o t
AtMost-le none s t h a = tt
AtMost-le (some r) s t h a = omega arith

module _ {V : Type 0} (from_rpc : V → Option Timestamp) where
  -- No record of the branch was active later than `t`.
  abbrev pub NoneAfter : Timestamp → List (JournalFact V) → Type 0
  NoneAfter t = All (λ fact. AtMost (activity from_rpc fact) t)

  -- Some record of the branch was active at `t`.
  abbrev pub ActiveAt : Timestamp → List (JournalFact V) → Type 0
  ActiveAt t [] = ⊥
  ActiveAt t (fact ∷ facts) = (activity from_rpc fact ≡ some t) ⊎ ActiveAt t facts

  -- The latest conversation on a branch.
  abbrev pub latest : List (JournalFact V) → Option Timestamp
  latest [] = none
  latest (fact ∷ facts) = max_time (latest facts) (activity from_rpc fact)

  -- The fold knows the latest activity of every branch that a later record can link to.
  record Knows (j : JournalRecency) (seen : List (JournalFact V)) : Type 0 where
    last : j.last_message_at ≡ latest (link seen absent)
    by_id : (id : String) → flatten (lookup id j.ids) ≡ latest (link seen (of_id id))

  link-null : (seen : List (JournalFact V)) → link seen null ≡ []
  unfolding link
  link-null [] = refl
  link-null (fact ∷ seen) = refl

  parent_of_lem :
      (j : JournalRecency) (seen : List (JournalFact V)) (parent : Parent)
      → Knows j seen
      → parent_of j parent ≡ latest (link seen parent)
  unfolding parent_of
  parent_of_lem j seen absent k = k.last
  parent_of_lem j seen null k = rw (link-null seen) refl
  parent_of_lem j seen (of_id id) k = k.by_id id

  noted :
      (o : Option String) (last : Option Timestamp) (id : String) (ids : Table (Option Timestamp))
      (here there : List (JournalFact V))
      → flatten (lookup id ids) ≡ latest there
      → last ≡ latest here
      → flatten (lookup id (note_id o last ids))
        ≡ latest (elim (is_str o id) [ true ↦ here | false ↦ there ])
  noted none last id ids here there h e = h
  noted (some i) last id ids here there h e = elim (Bool-cases (i == id)) [
    | inl same ↦ rw (lookup-insert i id last ids) (rw same e)
    | inr other ↦ rw (lookup-insert i id last ids) (rw other h)
  ]

  link_by_id :
      (fact : JournalFact V) (seen : List (JournalFact V)) (id : String)
      (ids : Table (Option Timestamp))
      → flatten (lookup id ids) ≡ latest (link seen (of_id id))
      → flatten (
          lookup id (
            note_id fact.id
              (max_time (latest (link seen fact.parent_id)) (activity from_rpc fact))
              ids))
        ≡ latest (link (fact ∷ seen) (of_id id))
  unfolding link
  link_by_id fact seen id ids h =
      noted fact.id (max_time (latest (link seen fact.parent_id)) (activity from_rpc fact)) id ids
        (fact ∷ link seen fact.parent_id) (link seen (of_id id)) h refl

  push_leaf-Knows :
      (j : JournalRecency) (seen : List (JournalFact V)) (fact : JournalFact V)
      → Knows j seen
      → Knows (push_leaf from_rpc j fact) (fact ∷ seen)
  unfolding push_leaf link
  push_leaf-Knows j seen fact k =
      rw (parent_of_lem j seen fact.parent_id k)
        (record { last = refl; by_id = λ id. link_by_id fact seen id j.ids (k.by_id id) })

  scan-Knows :
      (facts : List (JournalFact V)) (j : JournalRecency) (seen : List (JournalFact V))
      → Knows j seen
      → Knows (scan from_rpc j facts) (leaves seen facts)
  unfolding scan leaves push
  scan-Knows [] j seen k = k
  scan-Knows (fact ∷ facts) j seen k = elim (Bool-cases (is_leaf fact.kind)) [
    | inl leaf ↦
        rw leaf (
          scan-Knows facts (push_leaf from_rpc j fact) (fact ∷ seen)
            (push_leaf-Knows j seen fact k))
    | inr header ↦ rw header (scan-Knows facts j seen k)
  ]

  empty-Knows : Knows empty []
  unfolding link lookup
  empty-Knows = record { last = refl; by_id = λ id. refl }

  -- After a whole journal, the recency is the latest conversation on the branch that leads back from
  -- the journal's last leaf, abandoned branches left out.
  pub scan-active_branch :
      (facts : List (JournalFact V))
      → (scan from_rpc empty facts).last_message_at ≡ latest (active_branch facts)
  unfolding active_branch
  scan-active_branch facts = (scan-Knows facts empty [] empty-Knows).last

  NoneAfter-le :
      (branch : List (JournalFact V)) (s t : Timestamp)
      → s ≤ t
      → NoneAfter s branch
      → NoneAfter t branch
  NoneAfter-le [] s t h a = tt
  NoneAfter-le (fact ∷ branch) s t h a =
      (AtMost-le (activity from_rpc fact) s t h a.0, NoneAfter-le branch s t h a.1)

  NoneAfter-none :
      (branch : List (JournalFact V)) (t : Timestamp) → latest branch ≡ none → NoneAfter t branch
  NoneAfter-none [] t h = tt
  NoneAfter-none (fact ∷ branch) t h =
      let (old, new) = max_time-none (latest branch) (activity from_rpc fact) h in
      (rw new tt, NoneAfter-none branch t old)

  latest_lem :
      (branch : List (JournalFact V)) (t : Timestamp)
      → latest branch ≡ some t
      → NoneAfter t branch × ActiveAt t branch
  latest_lem [] t h = absurd (cc)
  latest_lem (fact ∷ branch) t h =
      let (older, newer, attained) = max_time-some (latest branch) (activity from_rpc fact) t h in
      let rest : NoneAfter t branch = elim (Option-cases (latest branch)) [
        | inl nothing ↦ NoneAfter-none branch t nothing
        | inr (s, found) ↦ NoneAfter-le branch s t (rw found at older) (latest_lem branch s found).0
      ] in
      (
        (newer, rest),
        elim attained [ inl before ↦ inr (latest_lem branch t before).1 | inr here ↦ inl here ],
      )

  -- If a journal's recency is `t`, then no record of the active branch was active later than `t`, and
  -- one of them was active at `t`.
  pub scan_bounds :
      (facts : List (JournalFact V)) (t : Timestamp)
      → (scan from_rpc empty facts).last_message_at ≡ some t
      → NoneAfter t (active_branch facts) × ActiveAt t (active_branch facts)
  scan_bounds facts t h = latest_lem (active_branch facts) t (sym (scan-active_branch facts) ∙ h)
