-- ===== src/Recency/Visit/Agreement.antt =====
-- src/session_recency.rs: the journal's rule and the rule for whole messages agree.
use fura.Base.{
  Bool, true, ◌||◌, Option, none, some, List, [], ◌∷◌, String, ◌≡◌, ◌⊎◌, refl, arith, Bool-cases,
  inl, inr,
}
use fura.Recency.Fact.{
  Timestamp, conversational_role, Content, content_summary, MessageFact, Parent, activity, is_str,
  has_text, and_then, message_activity,
}
use fura.Recency.Visit.Defs.{
  Key, role_key, attribution_key, timestamp_key, error_message_key, content_key, ignored_key,
  Message, skips_content, visit_key, visit_keys, visit_map, set_key, set_keys, message_of,
  conversation_message_timestamp, NoRole, RoleOnce,
}

-- Content matters for the assistant's messages only.
conversational_role_lem :
    (role : Option String) (agent a b : Bool)
    → skips_content role ≡ true
    → conversational_role role agent a ≡ conversational_role role agent b
unfolding conversational_role
conversational_role_lem none agent a b h = absurd (cc)
conversational_role_lem (some r) agent a b h = ground (arith)

module _ {V : Type 0} where
  -- The fact tells what the message tells, but for content that cannot matter.
  record Tells (f : MessageFact V) (m : Message V) : Type 0 where
    role : f.role ≡ m.role
    attribution : f.attribution ≡ m.attribution
    timestamp : f.timestamp ≡ m.timestamp
    error_message : f.error_message ≡ m.error_message
    content : (f.content ≡ content_summary m.content) ⊎ (skips_content f.role ≡ true)

  visit-content :
      (f : MessageFact V) (m : Message V) (c : Content)
      → Tells f m
      → Tells (visit_key f (content_key c)) (set_key m (content_key c))
  unfolding visit_key set_key
  visit-content f m c t = record {
    role = t.role;
    attribution = t.attribution;
    timestamp = t.timestamp;
    error_message = t.error_message;
    content = elim (Bool-cases (skips_content f.role)) [
      | inl skips ↦ inr skips
      | inr reads ↦ inl (rw reads refl)
    ];
  }

  visit_keys-NoRole :
      (keys : List (Key V)) (f : MessageFact V) (m : Message V)
      → NoRole keys
      → Tells f m
      → Tells (visit_keys f keys) (set_keys m keys)
  unfolding visit_keys set_keys
  visit_keys-NoRole [] f m h t = t
  visit_keys-NoRole (role_key r ∷ keys) f m h t = absurd h
  visit_keys-NoRole (attribution_key a ∷ keys) f m h t =
      visit_keys-NoRole keys (record f { attribution = a }) (record m { attribution = a }) h
        (record {
          role = t.role;
          attribution = refl;
          timestamp = t.timestamp;
          error_message = t.error_message;
          content = t.content;
        })
  visit_keys-NoRole (timestamp_key s ∷ keys) f m h t =
      visit_keys-NoRole keys (record f { timestamp = s }) (record m { timestamp = s }) h
        (record {
          role = t.role;
          attribution = t.attribution;
          timestamp = refl;
          error_message = t.error_message;
          content = t.content;
        })
  visit_keys-NoRole (error_message_key e ∷ keys) f m h t =
      visit_keys-NoRole keys (record f { error_message = e }) (record m { error_message = e }) h
        (record {
          role = t.role;
          attribution = t.attribution;
          timestamp = t.timestamp;
          error_message = refl;
          content = t.content;
        })
  visit_keys-NoRole (content_key c ∷ keys) f m h t =
      visit_keys-NoRole keys (visit_key f (content_key c)) (set_key m (content_key c)) h
        (visit-content f m c t)
  visit_keys-NoRole (ignored_key ∷ keys) f m h t = visit_keys-NoRole keys f m h t

  visit_keys-RoleOnce :
      (keys : List (Key V)) (f : MessageFact V) (m : Message V)
      → RoleOnce keys
      → f.role ≡ none
      → Tells f m
      → Tells (visit_keys f keys) (set_keys m keys)
  unfolding visit_keys set_keys visit_key
  visit_keys-RoleOnce [] f m h e t = t
  visit_keys-RoleOnce (role_key r ∷ keys) f m h e t =
      visit_keys-NoRole keys (record f { role = r }) (record m { role = r }) h
        (record {
          role = refl;
          attribution = t.attribution;
          timestamp = t.timestamp;
          error_message = t.error_message;
          content = elim t.content [
            | inl same ↦ inl same
            | inr skips ↦ absurd (ground (arith, skips, e))
          ];
        })
  visit_keys-RoleOnce (attribution_key a ∷ keys) f m h e t =
      visit_keys-RoleOnce keys (record f { attribution = a }) (record m { attribution = a }) h e
        (record {
          role = t.role;
          attribution = refl;
          timestamp = t.timestamp;
          error_message = t.error_message;
          content = t.content;
        })
  visit_keys-RoleOnce (timestamp_key s ∷ keys) f m h e t =
      visit_keys-RoleOnce keys (record f { timestamp = s }) (record m { timestamp = s }) h e
        (record {
          role = t.role;
          attribution = t.attribution;
          timestamp = refl;
          error_message = t.error_message;
          content = t.content;
        })
  visit_keys-RoleOnce (error_message_key x ∷ keys) f m h e t =
      visit_keys-RoleOnce keys (record f { error_message = x }) (record m { error_message = x }) h e
        (record {
          role = t.role;
          attribution = t.attribution;
          timestamp = t.timestamp;
          error_message = refl;
          content = t.content;
        })
  visit_keys-RoleOnce (content_key c ∷ keys) f m h e t =
      visit_keys-RoleOnce keys (visit_key f (content_key c)) (set_key m (content_key c)) h e
        (visit-content f m c t)
  visit_keys-RoleOnce (ignored_key ∷ keys) f m h e t = visit_keys-RoleOnce keys f m h e t

  visit_map-Tells : (keys : List (Key V)) → RoleOnce keys → Tells (visit_map keys) (message_of keys)
  unfolding visit_map message_of content_summary
  visit_map-Tells keys h = visit_keys-RoleOnce keys _ _ h refl (record {
    role = refl;
    attribution = refl;
    timestamp = refl;
    error_message = refl;
    content = inl refl;
  })

  Tells-activity :
      (from_rpc : V → Option Timestamp) (f : MessageFact V) (m : Message V) (t : Option V)
      → Tells f m
      → message_activity from_rpc t f
        ≡ conversation_message_timestamp from_rpc m (and_then t from_rpc)
  unfolding message_activity conversation_message_timestamp
  Tells-activity from_rpc f m t k = elim k.content [
    | inl same ↦ cc (k.role, k.attribution, k.timestamp, k.error_message, same)
    | inr skips ↦ cc (
      k.role,
      k.attribution,
      k.timestamp,
      k.error_message,
      conversational_role_lem f.role (is_str f.attribution "agent")
          (f.content || has_text f.error_message)
          (content_summary m.content || has_text f.error_message) skips,
    )
  ]

  -- If a message has at most one role, wherever it stands among the keys: what a journal's record of
  -- it counts as activity is the timestamp that the whole message has as conversation.
  pub activity-visit_map :
      (from_rpc : V → Option Timestamp) (keys : List (Key V)) (id : Option String)
      (parent_id : Parent) (timestamp : Option V)
      → RoleOnce keys
      → activity from_rpc (record {
        kind = "message";
        id = id;
        parent_id = parent_id;
        timestamp = timestamp;
        message = some (visit_map keys);
      })
        ≡ conversation_message_timestamp from_rpc (message_of keys) (and_then timestamp from_rpc)
  unfolding activity
  activity-visit_map from_rpc keys id parent_id timestamp h =
      Tells-activity from_rpc (visit_map keys) (message_of keys) timestamp (visit_map-Tells keys h)
