-- ===== src/Web/Outbound/Kept.antt =====
-- src/web.rs: `conflate_server_messages` and which messages no later one replaces.
use mathlib.Core.List.{append_assoc, append-nil, map-append}
use fura.Base.{
  ℕ, ◌<◌, ◌≡◌, refl, sym, ap, ◌∙◌, Bool, true, false, not, ◌&&◌, Option, none, some, List, [], ◌∷◌,
  ◌++◌, map, if◌then◌else◌, All, All-append_inv, All-weaken, Bool-cases, inl, inr,
}
use fura.Base.Sort.{filter, filter-append, sort_by_key}
use fura.Base.Ordered.{filter-All, filter-always, sort-filter, sort_last}
use fura.Web.Outbound.{
  ConflationKey, same_key, Outgoing, Indexed, key_of, index_of, message_of, entry_of, put, in_order,
}

abbrev pub holds : ConflationKey → Option ConflationKey → Bool
holds k none = false
holds k (some j) = same_key j k

abbrev pub shares : Option ConflationKey → Option ConflationKey → Bool
shares none o = false
shares (some k) o = holds k o

module _ {E H S O : Type 0} where
  -- No later message has the message's conflation key.
  unfoldable pub outlives : Outgoing E H S O → List (Outgoing E H S O) → Bool
  outlives m [] = true
  outlives m (n ∷ ns) = not (shares (key_of n) (key_of m)) && outlives m ns

  -- The messages but those of which a later one has the key.
  unfoldable pub latest : List (Outgoing E H S O) → List (Outgoing E H S O)
  unfolding outlives
  latest [] = []
  latest (m ∷ ms) = if outlives m ms then m ∷ latest ms else latest ms

  abbrev pub outlived : List (Outgoing E H S O) → Indexed E H S O → Bool
  outlived ms m = outlives m.1 ms

  abbrev pub apart : ConflationKey → Indexed E H S O → Bool
  apart k m = not (holds k (key_of m.1))

  abbrev pub Keyed : List (ConflationKey × Indexed E H S O) → Type 0
  Keyed = All (λ e. key_of e.1.1 ≡ some e.0)

  abbrev pub Keyless : List (Indexed E H S O) → Type 0
  Keyless = All (λ m. key_of m.1 ≡ none)

  abbrev pub Before : ℕ → List (Indexed E H S O) → Type 0
  Before n = All (λ m. m.0 < n)

  pub kept-Keyed :
      (k : ConflationKey) (t : List (ConflationKey × Indexed E H S O))
      → Keyed t
      → map entry_of (filter (λ e. not (same_key e.0 k)) t) ≡ filter (apart k) (map entry_of t)
  unfolding filter
  kept-Keyed k [] h = refl
  kept-Keyed k ((j, m) ∷ t) (h, hs) = elim (Bool-cases (same_key j k)) [
    | inl e ↦ rw (h, e) (kept-Keyed k t hs)
    | inr e ↦ rw (h, e) (ap (λ ms. m ∷ ms) (kept-Keyed k t hs))
  ]

  pub map-put :
      (k : ConflationKey) (v : Indexed E H S O) (t : List (ConflationKey × Indexed E H S O))
      → Keyed t
      → map entry_of (put k v t) ≡ filter (apart k) (map entry_of t) ++ v ∷ []
  unfolding put
  map-put k v t h =
      map-append entry_of (filter (λ e. not (same_key e.0 k)) t) ((k, v) ∷ [])
      ∙ ap (λ ms. ms ++ v ∷ []) (kept-Keyed k t h)

  pub apart-Keyless :
      (k : ConflationKey) (ms : List (Indexed E H S O)) → Keyless ms → filter (apart k) ms ≡ ms
  apart-Keyless k ms h =
      filter-always (apart k) ms
        (All-weaken (λ m. key_of m.1 ≡ none) (λ m. apart k m ≡ true) (λ m e. rw e refl) ms h)

  -- A message without a key comes last.
  pub in_order_pass :
      (n : ℕ) (m : Outgoing E H S O) (t : List (ConflationKey × Indexed E H S O))
      (pt : List (Indexed E H S O))
      → Before n (map entry_of t ++ pt)
      → in_order t (pt ++ (n, m) ∷ []) ≡ in_order t pt ++ (n, m) ∷ []
  unfolding in_order
  in_order_pass n m t pt b =
      let vs = map entry_of t in
      ap (sort_by_key index_of) (sym (append_assoc vs pt ((n, m) ∷ [])))
      ∙ sort_last index_of (n, m) (vs ++ pt) [] b tt
      ∙ ap (λ ms. sort_by_key index_of ms ++ (n, m) ∷ []) (append-nil (vs ++ pt))

  -- A message with a key comes last, and its forerunner goes.
  pub in_order-put :
      (n : ℕ) (m : Outgoing E H S O) (k : ConflationKey)
      (t : List (ConflationKey × Indexed E H S O)) (pt : List (Indexed E H S O))
      → Keyed t
      → Keyless pt
      → Before n (map entry_of t ++ pt)
      → in_order (put k (n, m) t) pt ≡ filter (apart k) (in_order t pt) ++ (n, m) ∷ []
  unfolding in_order
  in_order-put n m k t pt h u b =
      let vs = map entry_of t in
      let (bv, bp) = All-append_inv (λ v. v.0 < n) vs pt b in
      let joined : filter (apart k) vs ++ pt ≡ filter (apart k) (vs ++ pt) =
        ap (λ ps. filter (apart k) vs ++ ps) (sym (apart-Keyless k pt u))
        ∙ sym (filter-append (apart k) vs pt) in
      ap (λ ws. sort_by_key index_of (ws ++ pt)) (map-put k (n, m) t h)
      ∙ ap (sort_by_key index_of) (append_assoc (filter (apart k) vs) ((n, m) ∷ []) pt)
      ∙ sort_last index_of (n, m) (filter (apart k) vs) pt
          (filter-All (apart k) (λ v. v.0 < n) vs bv) bp
      ∙ ap (λ ms. sort_by_key index_of ms ++ (n, m) ∷ []) (joined)
      ∙ ap (λ ms. ms ++ (n, m) ∷ []) (sort-filter index_of (apart k) (vs ++ pt))

  pub filter_one :
      (n : ℕ) (m : Outgoing E H S O) (ms : List (Outgoing E H S O))
      → filter (outlived ms) ((n, m) ∷ []) ≡ (if outlives m ms then (n, m) ∷ [] else [])
  unfolding filter
  filter_one n m ms = refl

  pub last_round :
      (n : ℕ) (m : Outgoing E H S O) (ms : List (Outgoing E H S O)) (s : List (Indexed E H S O))
      → map message_of (filter (outlived ms) (s ++ (n, m) ∷ [])) ++ latest ms
        ≡ map message_of (filter (outlived ms) s) ++ latest (m ∷ ms)
  unfolding latest
  last_round n m ms s = elim (Bool-cases (outlives m ms)) [
    | inl e ↦
        rw
          (
            filter-append (outlived ms) s ((n, m) ∷ []),
            map-append message_of (filter (outlived ms) s) _,
            filter_one n m ms,
            e,
          )
          (append_assoc (map message_of (filter (outlived ms) s)) (m ∷ []) (latest ms))
    | inr e ↦
        rw
          (
            filter-append (outlived ms) s ((n, m) ∷ []),
            map-append message_of (filter (outlived ms) s) _,
            filter_one n m ms,
            e,
          )
          (append_assoc (map message_of (filter (outlived ms) s)) [] (latest ms))
  ]
