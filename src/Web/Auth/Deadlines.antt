-- ===== src/Web/Auth/Deadlines.antt =====
-- src/web.rs: the answers to requests, by a record of every deadline.
use fura.Base.{
  ℕ, ◌+◌, ◌≤◌, Bool, Option, none, some, List, [], ◌∷◌, String, str_eq, ltb, if◌then◌else◌,
}
use fura.Base.Options.{some_and}
use fura.Web.Auth.{
  auth_session_ttl, origin_error, Request, auth_request, websocket_request, Response,
  session_issued, upgraded, unauthorized, forbidden,
}

-- The deadline of the session last issued under an id; none is ever forgotten.
abbrev pub Deadlines : Type 0
Deadlines = String → Option ℕ

abbrev pub no_deadline : Deadlines
no_deadline id = none

abbrev pub is_before : ℕ → Option ℕ → Bool
is_before now deadline = some_and (ltb now) deadline

abbrev pub cookie_deadline : Deadlines → Option String → Option ℕ
cookie_deadline deadlines none = none
cookie_deadline deadlines (some id) = deadlines id

module _ (token : String) (allowed_origins : Option (List String)) where
  abbrev pub after : Deadlines → Request → Deadlines
  after deadlines (auth_request payload id now) j =
      if str_eq payload token
      then (if str_eq id j then some (now + auth_session_ttl) else deadlines j)
      else deadlines j
  after deadlines (websocket_request header cookie now) j = deadlines j

  abbrev pub answer : Deadlines → Request → Response
  answer deadlines (auth_request payload id now) =
      if str_eq payload token then session_issued id else unauthorized
  answer deadlines (websocket_request header cookie now) =
      elim (origin_error allowed_origins header) [
        | some error ↦ forbidden
        | none ↦ if is_before now (cookie_deadline deadlines cookie) then upgraded else unauthorized
      ]

  unfoldable pub answers_to : Deadlines → List Request → List Response
  answers_to deadlines [] = []
  answers_to deadlines (request ∷ requests) =
      answer deadlines request ∷ answers_to (after deadlines request) requests

-- The times of requests do not go back.
abbrev pub time_of : Request → ℕ
time_of (auth_request payload id now) = now
time_of (websocket_request header cookie now) = now

abbrev pub InOrder : ℕ → List Request → Type 0
InOrder clock [] = Unit
InOrder clock (request ∷ requests) = (clock ≤ time_of request) × InOrder (time_of request) requests
