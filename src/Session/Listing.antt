-- ===== src/Session/Listing.antt =====
-- src/catalog.rs and src/control.rs: the sessions that a list of the sessions has. The order in which
-- they are listed, and what a summary says of each, are left out.
use fura.Base.{
  ◌≡◌, refl, Bool, true, false, not, none, some, List, [], ◌∷◌, String, arith, str_eq as ◌==◌,
  eq_refl, if◌then◌else◌, Bool-cases, inl, inr,
}
use fura.Base.Table.{Table, lookup}
use fura.Base.Positions.{contains}
use fura.Session.Crates.{Crates}
use fura.Session.Record.{SessionRecord}

-- `CONTROLLER_SESSION_TITLE`
abbrev pub controller_session_title : String
controller_session_title = "Fura Controller"

module _ (crates : Crates) where
  unfoldable pub is_controller_session_record : SessionRecord crates → Bool
  is_controller_session_record r = elim r.title [
    | none ↦ false
    | some title ↦ title == controller_session_title
  ]

  -- The ids of `session_summaries_from_map`, in the order of the map.
  unfoldable pub listed_session_ids : Table (SessionRecord crates) → List String
  unfolding is_controller_session_record
  listed_session_ids [] = []
  listed_session_ids ((id, r) ∷ sessions) =
      if not (is_controller_session_record r)
      then r.id ∷ listed_session_ids sessions
      else listed_session_ids sessions

  -- A session that is no controller's is listed.
  pub contains-listed_session_ids :
      (id : String) (r : SessionRecord crates) (sessions : Table (SessionRecord crates))
      → lookup id sessions ≡ some r
      → r.id ≡ id
      → is_controller_session_record r ≡ false
      → contains (listed_session_ids sessions) id ≡ true
  unfolding listed_session_ids lookup contains
  contains-listed_session_ids id r [] found own plain = absurd (cc)
  contains-listed_session_ids id r ((j, s) ∷ sessions) found own plain =
      elim (Bool-cases (j == id)) [
        | inl e ↦ let same : s ≡ r = cc (rw e at found) in rw (same, plain, own, eq_refl id) refl
        | inr e ↦
            let rest = contains-listed_session_ids id r sessions (rw e at found) own plain in
            elim (Bool-cases (is_controller_session_record s)) [
              | inl hidden ↦ rw hidden rest
              | inr shown ↦ rw (shown, rest) (ground arith)
            ]
      ]
