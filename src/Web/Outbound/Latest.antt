-- ===== src/Web/Outbound/Latest.antt =====
-- src/web.rs: `conflate_server_messages` against a description without indices.
use mathlib.Core.List.{append-nil}
use fura.Base.{
  ℕ, ◌+◌, ◌<◌, ◌≡◌, refl, sym, ap, ◌∙◌, true, not, ◌&&◌, none, some, List, [], ◌∷◌, ◌++◌, map,
  arith, All-append, All-append_inv, All-weaken, All-always, Option-cases, inl, inr,
}
use fura.Base.Sort.{filter, sort_by_key}
use fura.Base.Ordered.{filter-All, filter-always, filter-filter}
use fura.Web.Outbound.{
  ConflationKey, same_key, Outgoing, Indexed, key_of, message_of, entry_of, put, in_order,
  conflate_from, conflate_server_messages,
}
use fura.Web.Outbound.Kept.{
  map-put, in_order_pass, in_order-put, last_round, shares, outlived, apart, Keyed, Keyless, Before,
  outlives, latest,
}

module _ {E H S O : Type 0} where
  later-Before : (n : ℕ) (xs : List (Indexed E H S O)) → Before n xs → Before (n + 1) xs
  later-Before n xs h = All-weaken (λ v. v.0 < n) (λ v. v.0 < n + 1) (λ v e. omega arith) xs h

  outlived_pass :
      (m : Outgoing E H S O) (ms : List (Outgoing E H S O)) (s : List (Indexed E H S O))
      → key_of m ≡ none
      → filter (outlived ms) s ≡ filter (outlived (m ∷ ms)) s
  unfolding outlives
  outlived_pass m ms s e =
      ap (λ o. filter (λ v. not (shares o (key_of v.1)) && outlives v.1 ms) s) (sym e)

  outlived_put :
      (m : Outgoing E H S O) (k : ConflationKey) (ms : List (Outgoing E H S O))
      (s : List (Indexed E H S O))
      → key_of m ≡ some k
      → filter (outlived ms) (filter (apart k) s) ≡ filter (outlived (m ∷ ms)) s
  unfolding outlives
  outlived_put m k ms s e =
      filter-filter (apart k) (outlived ms) s
      ∙ ap (λ o. filter (λ v. not (shares o (key_of v.1)) && outlives v.1 ms) s) (sym e)

  Before-pass :
      (n : ℕ) (m : Outgoing E H S O) (vs pt : List (Indexed E H S O))
      → Before n (vs ++ pt)
      → Before (n + 1) (vs ++ (pt ++ (n, m) ∷ []))
  Before-pass n m vs pt b =
      let (bv, bp) = All-append_inv (λ v. v.0 < n) vs pt b in
      All-append (λ v. v.0 < n + 1) vs (pt ++ (n, m) ∷ []) (later-Before n vs bv)
        (All-append (λ v. v.0 < n + 1) pt ((n, m) ∷ []) (later-Before n pt bp) (omega arith, tt))

  Before-put :
      (n : ℕ) (m : Outgoing E H S O) (k : ConflationKey)
      (t : List (ConflationKey × Indexed E H S O)) (pt : List (Indexed E H S O))
      → Keyed t
      → Before n (map entry_of t ++ pt)
      → Before (n + 1) (map entry_of (put k (n, m) t) ++ pt)
  Before-put n m k t pt h b =
      let (bv, bp) = All-append_inv (λ v. v.0 < n) (map entry_of t) pt b in
      rw (map-put k (n, m) t h) (
        All-append (λ v. v.0 < n + 1) (filter (apart k) (map entry_of t) ++ (n, m) ∷ []) pt
          (All-append (λ v. v.0 < n + 1) (filter (apart k) (map entry_of t)) ((n, m) ∷ [])
            (filter-All (apart k) (λ v. v.0 < n + 1) (map entry_of t)
              (later-Before n (map entry_of t) bv))
            (omega arith, tt))
          (later-Before n pt bp))

  put-Keyed :
      (k : ConflationKey) (v : Indexed E H S O) (t : List (ConflationKey × Indexed E H S O))
      → Keyed t
      → key_of v.1 ≡ some k
      → Keyed (put k v t)
  unfolding put
  put-Keyed k v t h e =
      All-append (λ x. key_of x.1.1 ≡ some x.0) (filter (λ x. not (same_key x.0 k)) t) ((k, v) ∷ [])
        (filter-All (λ x. not (same_key x.0 k)) (λ x. key_of x.1.1 ≡ some x.0) t h) (e, tt)

  conflate_pass :
      (n : ℕ) (m : Outgoing E H S O) (t : List (ConflationKey × Indexed E H S O))
      (pt : List (Indexed E H S O)) (ms : List (Outgoing E H S O))
      → key_of m ≡ none
      → conflate_from n t pt (m ∷ ms) ≡ conflate_from (n + 1) t (pt ++ (n, m) ∷ []) ms
  unfolding conflate_from
  conflate_pass n m t pt ms e = rw (e, conflate_from) refl

  conflate_put :
      (n : ℕ) (m : Outgoing E H S O) (k : ConflationKey)
      (t : List (ConflationKey × Indexed E H S O)) (pt : List (Indexed E H S O))
      (ms : List (Outgoing E H S O))
      → key_of m ≡ some k
      → conflate_from n t pt (m ∷ ms) ≡ conflate_from (n + 1) (put k (n, m) t) pt ms
  unfolding conflate_from
  conflate_put n m k t pt ms e = rw (e, conflate_from) refl

  -- What a round adds to the messages that come out.
  add_round :
      (n : ℕ) (m : Outgoing E H S O) (ms : List (Outgoing E H S O)) (r s : List (Indexed E H S O))
      → filter (outlived ms) r ≡ filter (outlived (m ∷ ms)) s
      → map message_of (filter (outlived ms) (r ++ (n, m) ∷ [])) ++ latest ms
        ≡ map message_of (filter (outlived (m ∷ ms)) s) ++ latest (m ∷ ms)
  add_round n m ms r s e = last_round n m ms r ∙ ap (λ u. map message_of u ++ latest (m ∷ ms)) e

  conflate_from-latest :
      (n : ℕ) (t : List (ConflationKey × Indexed E H S O)) (pt : List (Indexed E H S O))
      (ms : List (Outgoing E H S O))
      → Keyed t
      → Keyless pt
      → Before n (map entry_of t ++ pt)
      → map message_of (conflate_from n t pt ms)
        ≡ map message_of (filter (outlived ms) (in_order t pt)) ++ latest ms
  unfolding conflate_from latest outlives
  conflate_from-latest n t pt [] h u b =
      ap (map message_of) (
        sym (
          filter-always (outlived []) (in_order t pt)
            (All-always (λ m. outlived [] m ≡ true) (λ m. refl) (in_order t pt))))
      ∙ sym (append-nil _)
  conflate_from-latest n t pt (m ∷ ms) h u b =
      let out : List (Indexed E H S O) → List (Outgoing E H S O) =
        λ s. map message_of (filter (outlived ms) s) ++ latest ms in
      elim (Option-cases (key_of m)) [
        | inl e ↦
            ap (map message_of) (conflate_pass n m t pt ms e)
            ∙ conflate_from-latest (n + 1) t (pt ++ (n, m) ∷ []) ms h
                (All-append (λ v. key_of v.1 ≡ none) pt ((n, m) ∷ []) u (e, tt))
                (Before-pass n m (map entry_of t) pt b)
            ∙ ap out (in_order_pass n m t pt b)
            ∙ add_round n m ms (in_order t pt) (in_order t pt)
                (outlived_pass m ms (in_order t pt) e)
        | inr (k, e) ↦
            ap (map message_of) (conflate_put n m k t pt ms e)
            ∙ conflate_from-latest (n + 1) (put k (n, m) t) pt ms (put-Keyed k (n, m) t h e) u
                (Before-put n m k t pt h b)
            ∙ ap out (in_order-put n m k t pt h u b)
            ∙ add_round n m ms (filter (apart k) (in_order t pt)) (in_order t pt)
                (outlived_put m k ms (in_order t pt) e)
      ]

  -- Of waiting messages, `conflate_server_messages` keeps, in their order, all but the snapshots of
  -- the session list that another one follows and the snapshots of a session that another one of the
  -- same session follows.
  pub conflate_server_messages-latest :
      (ms : List (Outgoing E H S O)) → conflate_server_messages ms ≡ latest ms
  unfolding conflate_server_messages in_order filter sort_by_key
  conflate_server_messages-latest ms = conflate_from-latest 0 [] [] ms tt tt tt
