-- ===== src/Web/Auth.antt =====
-- src/web.rs: the sessions that a token buys, and which WebSocket connections they let in. A time is a
-- number of nanoseconds, and the id of a session comes from a UUID. A request is given the values of its
-- headers: the origin, when it is text, and the session of the cookie that `auth_session_cookie` finds.
pub mod Deadlines
pub mod Responses
use fura.Base.{
  ℕ, ◌+◌, ◌*◌, ◌^◌, Bool, true, false, not, ◌||◌, Option, none, some, List, [], ◌∷◌, String, str_eq,
  ltb, if◌then◌else◌,
}
use fura.Base.Table.{Table, lookup, insert, remove, retain}

-- `AuthSession`: when it expires.
abbrev pub AuthSession : Type 0
AuthSession = ℕ

abbrev pub auth_session_ttl : ℕ
auth_session_ttl = 12 * 60 * 60 * 10 ^ 9

pub data OriginError : Type 0 where
  missing invalid not_allowed : OriginError

-- The header `Origin`: none, no text, a text.
pub data OriginHeader : Type 0 where
  no_origin opaque_origin : OriginHeader
  origin : String → OriginHeader

unfoldable pub any_allowed : String → List String → Bool
any_allowed value [] = false
any_allowed value (allowed ∷ rest) = str_eq allowed value || any_allowed value rest

-- `Ok(())` is none.
unfoldable pub authenticate_websocket_origin : OriginHeader → List String → Option OriginError
unfolding any_allowed
authenticate_websocket_origin no_origin allowed_origins = some missing
authenticate_websocket_origin opaque_origin allowed_origins = some invalid
authenticate_websocket_origin (origin value) allowed_origins =
    if any_allowed value allowed_origins then none else some not_allowed

unfoldable pub issue_auth_session : Table AuthSession → ℕ → String → Table AuthSession
issue_auth_session auth_sessions now session_id =
    insert session_id (now + auth_session_ttl)
      (retain (λ _ expires_at. ltb now expires_at) auth_sessions)

-- With whether the session is good.
unfoldable pub authenticate_session_id : Table AuthSession → String → ℕ → Table AuthSession × Bool
authenticate_session_id auth_sessions session_id now = elim (lookup session_id auth_sessions) [
  | none ↦ (auth_sessions, false)
  | some expires_at ↦
      if ltb now expires_at then (auth_sessions, true) else (remove session_id auth_sessions, false)
]

unfoldable pub authenticate_websocket_headers :
    Table AuthSession → Option String → ℕ → Table AuthSession × Bool
unfolding authenticate_session_id
authenticate_websocket_headers auth_sessions none now = (auth_sessions, false)
authenticate_websocket_headers auth_sessions (some session_id) now =
    authenticate_session_id auth_sessions session_id now

-- A request for a session with a token, and a request for a WebSocket; with the time.
pub data Request : Type 0 where
  auth_request : String → String → ℕ → Request
  websocket_request : OriginHeader → Option String → ℕ → Request

pub data Response : Type 0 where
  session_issued : String → Response
  upgraded unauthorized forbidden : Response

abbrev pub origin_error : Option (List String) → OriginHeader → Option OriginError
origin_error none header = none
origin_error (some allowed_origins) header = authenticate_websocket_origin header allowed_origins

-- The bridge's token, and its allowed origins.
module _ (token : String) (allowed_origins : Option (List String)) where
  unfoldable pub auth_session_handler :
      Table AuthSession → String → String → ℕ → Table AuthSession × Response
  unfolding issue_auth_session
  auth_session_handler auth_sessions payload id now =
      if not (str_eq payload token)
      then (auth_sessions, unauthorized)
      else (issue_auth_session auth_sessions now id, session_issued id)

  unfoldable pub upgrade : Table AuthSession × Bool → Table AuthSession × Response
  upgrade (auth_sessions, true) = (auth_sessions, upgraded)
  upgrade (auth_sessions, false) = (auth_sessions, unauthorized)

  unfoldable pub ws_handler :
      Table AuthSession → OriginHeader → Option String → ℕ → Table AuthSession × Response
  unfolding authenticate_websocket_headers upgrade authenticate_websocket_origin
  ws_handler auth_sessions header cookie now = elim (origin_error allowed_origins header) [
    | some error ↦ (auth_sessions, forbidden)
    | none ↦ upgrade (authenticate_websocket_headers auth_sessions cookie now)
  ]

  unfoldable pub respond : Table AuthSession → Request → Table AuthSession × Response
  unfolding auth_session_handler ws_handler
  respond auth_sessions (auth_request payload id now) =
      auth_session_handler auth_sessions payload id now
  respond auth_sessions (websocket_request header cookie now) =
      ws_handler auth_sessions header cookie now

  unfoldable pub responses : Table AuthSession → List Request → List Response
  unfolding respond
  responses auth_sessions [] = []
  responses auth_sessions (request ∷ requests) =
      let (next, response) = respond auth_sessions request in response ∷ responses next requests
