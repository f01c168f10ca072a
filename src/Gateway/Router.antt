-- ===== src/Gateway/Router.antt =====
-- internal/gateway/rest.go: `Router`, and how the server answers calls, with the router chi as a parameter.
use rdispatch.Common.{ℕ, String, Option, none, some, List, [], ◌∷◌, Run, done, ◌>>=◌}
use rdispatch.Common.Text.{concat}
use rdispatch.Common.Json.{Result, Codec}
use rdispatch.Gateway.Rest.{
  SendRequest, Server, Reply, handle_send, handle_health, handle_queue_stats,
}

pub data Endpoint : Type 0 where
  send_endpoint health_endpoint queue_stats_endpoint : Endpoint

-- A route: the method, the pattern and the handler.
pub record Route : Type 0 where
  pub method : String
  pub pattern : String
  pub endpoint : Endpoint

-- chi's middleware, with the seconds of a timeout. `Recoverer` would answer a panic of a handler with 500;
-- the others change the request and its context only, of which the handlers read nothing.
pub data Middleware : Type 0 where
  request_id real_ip recoverer : Middleware
  timeout : ℕ → Middleware

-- `r.Route(prefix, …)`: a subrouter, below a prefix.
unfoldable pub below : String → List Route → List Route
below prefix [] = []
below prefix (r ∷ rs) = record r { pattern = concat (prefix ∷ r.pattern ∷ []) } ∷ below prefix rs

unfoldable pub middlewares : List Middleware
middlewares = request_id ∷ real_ip ∷ recoverer ∷ timeout 30 ∷ []

-- The routes of `Router`.
unfoldable pub router : List Route
router = below "/api/v1" (
    record { method = "POST"; pattern = "/notifications"; endpoint = send_endpoint }
    ∷ record { method = "GET"; pattern = "/health"; endpoint = health_endpoint }
    ∷ record { method = "GET"; pattern = "/queue/stats"; endpoint = queue_stats_endpoint }
    ∷ [])

-- chi: the handler of a method and a path, if any, and its own answer if there is none.
pub record Chi : Type 0 where
  pub find : List Route → String → String → Option Endpoint
  pub refuse : String → String → Reply

-- A call: the method, the path, and for `handleSend` the new identifier, the time and what the body decodes
-- to.
pub record Call : Type 0 where
  pub method : String
  pub path : String
  pub id : String
  pub now : ℕ
  pub decoded : Result SendRequest

module _ (chi : Chi) (codec : Codec) where
  -- The handler that was found, or chi's answer.
  unfoldable pub answer : Server → Call → Option Endpoint → Run (Server × Reply)
  answer s c (some send_endpoint) = handle_send codec s c.id c.now c.decoded
  answer s c (some health_endpoint) = done (handle_health s)
  answer s c (some queue_stats_endpoint) = done (handle_queue_stats s)
  answer s c none = done (s, chi.refuse c.method c.path)

  unfoldable pub respond : Server → Call → Run (Server × Reply)
  respond s c = answer s c (chi.find router c.method c.path)

  -- Calls in the order in which they take the lock of the queue, with the replies.
  unfoldable pub respond_all : List Call → Server → Run (Server × List Reply)
  respond_all [] s = done (s, [])
  respond_all (c ∷ cs) s = respond s c >>= λ (after, reply).
      respond_all cs after >>= λ (last, replies). done (last, reply ∷ replies)
