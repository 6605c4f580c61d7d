-- ===== src/Examples/Auth.antt =====
-- src/web.rs: two sessions, of which one expires.
use fura.Base.{◌≡◌, refl, some, List, [], ◌∷◌, arith}
use fura.Base.Table.{lookup, insert, remove, retain}
use fura.Web.Auth.{
  auth_session_ttl, Request, auth_request, websocket_request, origin, session_issued, upgraded,
  unauthorized, forbidden, responses,
}
use fura.Web.Auth.Deadlines.{no_deadline, answers_to}
use fura.Web.Auth.Responses.{responses_lem}

abbrev requests : List Request
requests =
    auth_request "token" "u1" 0
    ∷ auth_request "guess" "u2" 1
    ∷ websocket_request (origin "http://a") (some "u1") 2
    ∷ websocket_request (origin "http://b") (some "u1") 3
    ∷ websocket_request (origin "http://a") (some "u2") 4
    ∷ websocket_request (origin "http://a") (some "u1") auth_session_ttl
    ∷ []

answered :
    responses "token" (some ("http://a" ∷ [])) [] requests
    ≡ session_issued "u1" ∷ unauthorized ∷ upgraded ∷ forbidden ∷ unauthorized ∷ unauthorized ∷ []
unfolding responses lookup insert remove retain
answered = refl

responses_lem_example :
    responses "token" (some ("http://a" ∷ [])) [] requests
    ≡ answers_to "token" (some ("http://a" ∷ [])) no_deadline requests
responses_lem_example = responses_lem "token" (some ("http://a" ∷ [])) requests 0 (omega arith)
