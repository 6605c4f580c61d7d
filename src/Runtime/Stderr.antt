-- ===== src/Runtime/Stderr.antt =====
-- src/state.rs: the last lines that a transport wrote to stderr.
use mathlib.Core.List.{append-nil, append_assoc}
use fura.Base.{
  ℕ, suc, zero, ◌-◌, ◌≤◌, ◌<◌, Option, none, some, List, [], ◌∷◌, ◌++◌, String, ◌==◌, if◌then◌else◌,
  ◌≡◌, refl, sym, ap, ◌∙◌, arith, length, drop, length-drop, length-append, Bool-cases, inl, inr,
}
use fura.Base.Table.{Table, lookup, insert, remove, lookup-insert_self}

abbrev or_empty : Option (List String) → List String
or_empty none = []
or_empty (some lines) = lines

-- `lines.remove(0)`, which panics on an empty vector
abbrev remove_first : List String → Option (List String)
remove_first [] = none
remove_first (line ∷ lines) = some lines

-- `none` is the panic.
make_room : List String → ℕ → Option (List String)
make_room lines line_limit = if length lines == line_limit then remove_first lines else some lines

store_lines :
    Table (List String) → String → String → Option (List String) → Option (Table (List String))
store_lines recent t line none = none
store_lines recent t line (some lines) = some (insert t (lines ++ line ∷ []) recent)

unfoldable pub remember_rpc_stderr :
    Table (List String) → String → String → ℕ → Option (Table (List String))
unfolding make_room store_lines
remember_rpc_stderr recent t line line_limit =
    store_lines recent t line (make_room (or_empty (lookup t recent)) line_limit)

unfoldable pub take_recent_rpc_stderr :
    Table (List String) → String → Table (List String) × List String
take_recent_rpc_stderr recent t = (remove t recent, or_empty (lookup t recent))

-- One line after the other.
abbrev and_then : {A B : Type 0} → Option A → (A → Option B) → Option B
and_then none f = none
and_then (some a) f = f a

unfoldable pub remember_all :
    Table (List String) → String → ℕ → List String → Option (Table (List String))
remember_all recent t line_limit [] = some recent
remember_all recent t line_limit (line ∷ lines) =
    and_then (remember_rpc_stderr recent t line line_limit)
      (λ recent'. remember_all recent' t line_limit lines)

abbrev pub last_lines : ℕ → List String → List String
last_lines limit lines = drop (length lines - limit) lines

drop-nil : (k : ℕ) → drop {A = String} k [] ≡ []
drop-nil zero = refl
drop-nil (suc k) = refl

drop-append : (k : ℕ) (xs ys : List String) → k ≤ length xs → drop k (xs ++ ys) ≡ drop k xs ++ ys
drop-append zero xs ys h = refl
drop-append (suc k) [] ys h = absurd (omega arith)
drop-append (suc k) (x ∷ xs) ys h = drop-append k xs ys (omega arith)

remove_first-drop :
    (k : ℕ) (xs : List String) → k < length xs → remove_first (drop k xs) ≡ some (drop (suc k) xs)
remove_first-drop k [] h = absurd (omega arith)
remove_first-drop zero (x ∷ xs) h = refl
remove_first-drop (suc k) (x ∷ xs) h = remove_first-drop k xs (omega arith)

-- A buffer of the last lines, with room made for one more.
make_room-last_lines :
    (limit : ℕ) (seen : List String) (line : String)
    → 0 < limit
    → (lines : List String) × (make_room (last_lines limit seen) limit ≡ some lines)
      × (lines ++ line ∷ [] ≡ last_lines limit (seen ++ line ∷ []))
unfolding make_room
make_room-last_lines limit seen line h =
    let n = length seen in
    let size = length-drop (n - limit) seen in
    let grown = length-append seen (line ∷ []) in
    elim (Bool-cases (length (last_lines limit seen) == limit)) [
      | inl full ↦
          let enough : limit ≤ n = ground (arith, size) in
          let index : suc (n - limit) ≡ length (seen ++ line ∷ []) - limit = omega (arith, grown) in
          (
            drop (suc (n - limit)) seen,
            rw full (remove_first-drop (n - limit) seen (omega arith)),
            sym (drop-append (suc (n - limit)) seen (line ∷ []) (omega arith))
                ∙ ap (λ k. drop k (seen ++ line ∷ [])) index,
          )
      | inr room ↦
          let few : n < limit = ground (arith, size) in
          let index : n - limit ≡ length (seen ++ line ∷ []) - limit = omega (arith, grown) in
          (
            last_lines limit seen,
            rw room refl,
            sym (drop-append (n - limit) seen (line ∷ []) (omega arith))
                ∙ ap (λ k. drop k (seen ++ line ∷ [])) index,
          )
    ]

remember_all_from :
    (limit : ℕ) (t : String) (lines seen : List String) (recent : Table (List String))
    → 0 < limit
    → or_empty (lookup t recent) ≡ last_lines limit seen
    → (recent' : Table (List String)) × (remember_all recent t limit lines ≡ some recent')
      × (or_empty (lookup t recent') ≡ last_lines limit (seen ++ lines))
unfolding remember_all remember_rpc_stderr
remember_all_from limit t [] seen recent h held = (recent, refl, rw append-nil held)
remember_all_from limit t (line ∷ lines) seen recent h held =
    let (kept, made, grown) = make_room-last_lines limit seen line h in
    let recent' = insert t (kept ++ line ∷ []) recent in
    let held' : or_empty (lookup t recent') ≡ last_lines limit (seen ++ line ∷ []) =
      ap or_empty (lookup-insert_self t (kept ++ line ∷ []) recent) ∙ grown in
    let (last, ran, shown) = remember_all_from limit t lines (seen ++ line ∷ []) recent' h held' in
    (
      last,
      rw held (rw made ran),
      shown ∙ ap (last_lines limit) (append_assoc seen (line ∷ []) lines),
    )

-- With a positive limit no call panics, and after any number of lines the buffer of a transport that
-- had none holds the last `line_limit` of them, in order.
pub remember_all_lem :
    (line_limit : ℕ) (t : String) (lines : List String) (recent : Table (List String))
    → 0 < line_limit
    → lookup t recent ≡ none
    → (recent' : Table (List String)) × (remember_all recent t line_limit lines ≡ some recent')
      × ((take_recent_rpc_stderr recent' t).1 ≡ last_lines line_limit lines)
unfolding take_recent_rpc_stderr
remember_all_lem line_limit t lines recent h fresh =
    remember_all_from line_limit t lines [] recent h
      (ap or_empty fresh ∙ sym (drop-nil (0 - line_limit)))
