-- ===== src/Health/Checker.antt =====
-- `Checker` and its HTTP handlers.
use rdispatch.Common.{ℕ, String, Bool, false, List, [], ◌∷◌, if◌then◌else◌}
use rdispatch.Common.Json.{text, Fields, end, field}

pub record Checker : Type 0 where
  pub ready : Bool

unfoldable pub new : Checker
new = record { ready = false }

unfoldable pub set_ready : Bool → Checker → Checker
set_ready ready c = record c { ready = ready }

unfoldable pub is_ready : Checker → Bool
is_ready c = c.ready

-- `response`, the body of an answer.
pub record Response : Type 0 where
  pub status : String

-- What `writeJSON` sends: the header, the status code and the body by the tag of `response`.
pub record Answer : Type 0 where
  pub content_type : String
  pub code : ℕ
  pub body : Fields

unfoldable pub write_json : ℕ → Response → Answer
write_json code v = record {
  content_type = "application/json";
  code = code;
  body = field "status" (text v.status) end;
}

abbrev pub status_ok : ℕ
status_ok = 200

abbrev pub status_service_unavailable : ℕ
status_service_unavailable = 503

unfoldable pub handle_liveness : Checker → Answer
handle_liveness c = write_json status_ok (record { status = "alive" })

unfoldable pub handle_readiness : Checker → Answer
handle_readiness c =
    if is_ready c
    then write_json status_ok (record { status = "ready" })
    else write_json status_service_unavailable (record { status = "not ready" })

-- `Handler`: the patterns of the mux with their handlers.
unfoldable pub handler : List (String × (Checker → Answer))
handler = ("GET /healthz", handle_liveness) ∷ ("GET /readyz", handle_readiness) ∷ []
