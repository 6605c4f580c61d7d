-- ===== src/Web/Auth/Responses.antt =====
-- src/web.rs: the auth sessions against a record of every deadline.
use fura.Base.{
  ℕ, ◌+◌, ◌≤◌, ◌≡◌, refl, sym, ap, Bool, true, false, Option, none, some, List, [], ◌∷◌, String,
  str_eq, eq_iff, arith, ltb, if◌then◌else◌, Bool-cases, Option-cases, inl, inr,
}
use fura.Base.Table.{
  Table, lookup, remove, retain, Distinct, lookup-insert, lookup-remove, lookup-retain,
  Distinct-insert, Distinct-remove, Distinct-retain,
}
use fura.Web.Auth.{
  AuthSession, auth_session_ttl, issue_auth_session, authenticate_session_id,
  authenticate_websocket_headers, origin_error, Request, auth_request, websocket_request, upgraded,
  unauthorized, respond, responses, auth_session_handler, upgrade, ws_handler,
}
use fura.Web.Auth.Deadlines.{
  Deadlines, no_deadline, is_before, cookie_deadline, after, answer, answers_to, time_of, InOrder,
}

-- The table has the deadline, or has dropped it after its time.
abbrev Agrees : ℕ → Option ℕ → Option ℕ → Type 0
Agrees clock none none = Unit
Agrees clock none (some deadline) = deadline ≤ clock
Agrees clock (some expires_at) none = ⊥
Agrees clock (some expires_at) (some deadline) = expires_at ≡ deadline

abbrev InStep : ℕ → Table AuthSession → Deadlines → Type 0
InStep clock t deadlines = Distinct t × ((id : String) → Agrees clock (lookup id t) (deadlines id))

later : (c n : ℕ) (a d : Option ℕ) → c ≤ n → Agrees c a d → Agrees n a d
later c n none none h k = tt
later c n none (some d) h k = omega (arith, h, k)
later c n (some e) none h k = elim k [ ]
later c n (some e) (some d) h k = k

same_verdict : (n : ℕ) (a d : Option ℕ) → Agrees n a d → is_before n a ≡ is_before n d
same_verdict n none none h = refl
same_verdict n none (some d) h = ground (arith, h)
same_verdict n (some e) none h = elim h [ ]
same_verdict n (some e) (some d) h = ap (λ x. ltb n x) h

-- Expired entries go.
kept :
    (n : ℕ) (a d : Option ℕ)
    → Agrees n a d
    → Agrees n (elim a [ none ↦ none | some e ↦ if ltb n e then some e else none ]) d
kept n none d h = h
kept n (some e) none h = elim h [ ]
kept n (some e) (some d) h = ground (arith, h)

dropped : (n : ℕ) (a d : Option ℕ) → Agrees n a d → is_before n a ≡ false → Agrees n none d
dropped n none d h k = h
dropped n (some e) none h k = elim h [ ]
dropped n (some e) (some d) h k = ground (arith, h, k)

-- Time goes on.
wait :
    (c n : ℕ) (t : Table AuthSession) (deadlines : Deadlines)
    → c ≤ n
    → InStep c t deadlines
    → InStep n t deadlines
wait c n t deadlines h (distinct, agrees) = (distinct, λ id. later c n _ _ h (agrees id))

issue-InStep :
    (n : ℕ) (t : Table AuthSession) (deadlines : Deadlines) (id : String)
    → InStep n t deadlines
    → InStep n
        (issue_auth_session t n id)
        (λ j. if str_eq id j then some (n + auth_session_ttl) else deadlines j)
unfolding issue_auth_session
issue-InStep n t deadlines id (distinct, agrees) =
    let fresh = retain (λ _ e. ltb n e) t in
    (
      Distinct-insert id (n + auth_session_ttl) fresh (Distinct-retain (λ _ e. ltb n e) t distinct),
      λ j. rw (lookup-insert id j (n + auth_session_ttl) fresh) (elim (Bool-cases (str_eq id j)) [
        | inl same ↦ rw same refl
        | inr other ↦
            rw (other, lookup-retain (λ _ e. ltb n e) j t distinct)
              (kept n (lookup j t) (deadlines j) (agrees j))
      ]),
    )

remove-Agrees :
    (n : ℕ) (t : Table AuthSession) (deadlines : Deadlines) (id : String)
    → ((j : String) → Agrees n (lookup j t) (deadlines j))
    → is_before n (lookup id t) ≡ false
    → (j : String) → Agrees n (lookup j (remove id t)) (deadlines j)
remove-Agrees n t deadlines id agrees over j =
    rw (lookup-remove id j t) (elim (Bool-cases (str_eq id j)) [
      | inl same ↦
          rw same
            (dropped n (lookup j t) (deadlines j) (agrees j) (rw ((eq_iff id j).0 same) at over))
      | inr other ↦ rw other (agrees j)
    ])

authenticate-InStep :
    (n : ℕ) (t : Table AuthSession) (deadlines : Deadlines) (id : String)
    → InStep n t deadlines
    → InStep n (authenticate_session_id t id n).0 deadlines
      × ((authenticate_session_id t id n).1 ≡ is_before n (deadlines id))
unfolding authenticate_session_id
authenticate-InStep n t deadlines id (distinct, agrees) =
    let verdict : is_before n (lookup id t) ≡ is_before n (deadlines id) =
      same_verdict n (lookup id t) (deadlines id) (agrees id) in
    elim (Option-cases (lookup id t)) [
      | inl e ↦ rw (e, authenticate_session_id) ((distinct, agrees), rw e at verdict)
      | inr (x, e) ↦ elim (Bool-cases (ltb n x)) [
        | inl f ↦ rw (e, f, authenticate_session_id) ((distinct, agrees), rw (e, f) at verdict)
        | inr f ↦
            let over : is_before n (lookup id t) ≡ false = rw e f in
            rw (e, f, authenticate_session_id)
              (
                (Distinct-remove id t distinct, remove-Agrees n t deadlines id agrees over),
                rw (e, f) at verdict,
              )
      ]
    ]

headers-InStep :
    (n : ℕ) (t : Table AuthSession) (deadlines : Deadlines) (cookie : Option String)
    → InStep n t deadlines
    → InStep n (authenticate_websocket_headers t cookie n).0 deadlines
      × ((authenticate_websocket_headers t cookie n).1
          ≡ is_before n (cookie_deadline deadlines cookie))
unfolding authenticate_websocket_headers
headers-InStep n t deadlines none s = (s, refl)
headers-InStep n t deadlines (some id) s = authenticate-InStep n t deadlines id s

upgrade-InStep :
    (token : String) (allowed_origins : Option (List String)) (n : ℕ) (deadlines : Deadlines)
    (out : Table AuthSession × Bool) (good : Bool)
    → InStep n out.0 deadlines
    → out.1 ≡ good
    → InStep n (upgrade token allowed_origins out).0 deadlines
      × ((upgrade token allowed_origins out).1 ≡ (if good then upgraded else unauthorized))
unfolding upgrade
upgrade-InStep token origins n deadlines (t, true) good s e = (s, rw (sym e) refl)
upgrade-InStep token origins n deadlines (t, false) good s e = (s, rw (sym e) refl)

-- Every request gets the answer of the record of deadlines, and keeps the table in step with it.
respond-InStep :
    (token : String) (allowed_origins : Option (List String)) (t : Table AuthSession)
    (deadlines : Deadlines) (request : Request)
    → InStep (time_of request) t deadlines
    → InStep
        (time_of request)
        (respond token allowed_origins t request).0
        (after token allowed_origins deadlines request)
      × ((respond token allowed_origins t request).1
          ≡ answer token allowed_origins deadlines request)
unfolding respond auth_session_handler ws_handler upgrade authenticate_websocket_headers
respond-InStep token origins t deadlines (auth_request payload id n) s =
    elim (Bool-cases (str_eq payload token)) [
      | inl good ↦ rw (good, auth_session_handler) (issue-InStep n t deadlines id s, refl)
      | inr bad ↦ rw (bad, auth_session_handler) (s, refl)
    ]
respond-InStep token origins t deadlines (websocket_request header cookie n) s =
    elim (Option-cases (origin_error origins header)) [
      | inl fine ↦
          let (kept_in_step, verdict) = headers-InStep n t deadlines cookie s in
          rw (fine, ws_handler, answer)
            (upgrade-InStep token origins n deadlines (authenticate_websocket_headers t cookie n)
              (is_before n (cookie_deadline deadlines cookie)) kept_in_step verdict)
      | inr (error, e) ↦ rw (e, ws_handler, answer) (s, refl)
    ]

responses-InStep :
    (token : String) (allowed_origins : Option (List String)) (requests : List Request) (clock : ℕ)
    (t : Table AuthSession) (deadlines : Deadlines)
    → InOrder clock requests
    → InStep clock t deadlines
    → responses token allowed_origins t requests
      ≡ answers_to token allowed_origins deadlines requests
unfolding responses answers_to
responses-InStep token origins [] clock t deadlines o s = refl
responses-InStep token origins (request ∷ requests) clock t deadlines (now, o) s =
    let (next, same) =
      respond-InStep token origins t deadlines request
        (wait clock (time_of request) t deadlines now s) in
    let rest =
      responses-InStep token origins requests (time_of request) (respond token origins t request).0
        (after token origins deadlines request) o next in
    cc (same, rest)

-- From no session on, if the times of the requests do not go back, the bridge answers like one that
-- forgets no deadline: a request with the token gets a session; one with another text gets none; and a
-- WebSocket is opened when its origin is allowed, or no origins are set, and the time is before the
-- deadline of its cookie's session, twelve hours after the session was last issued.
pub responses_lem :
    (token : String) (allowed_origins : Option (List String)) (requests : List Request) (clock : ℕ)
    → InOrder clock requests
    → responses token allowed_origins [] requests
      ≡ answers_to token allowed_origins no_deadline requests
unfolding lookup
responses_lem token origins requests clock o =
    responses-InStep token origins requests clock [] no_deadline o (tt, λ id. tt)
