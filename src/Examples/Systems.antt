-- ===== src/Examples/Systems.antt =====
-- The gateway, the stream and the worker at work together.
use mathlib.Core.List.{List-discrete, erase}
use mathlib.Core.Logic.{ite}
use mathlib.Core.List.Perm
use rdispatch.Common.{
  ℕ, String, ◌≡◌, refl, Option, none, some, List, [], ◌∷◌, Perm, str_eq, ◌&&◌, if◌then◌else◌,
  Yields, ℕ_discrete, done, subst, Bool-cases, inl, inr,
}
use rdispatch.Common.Json.{ok, end}
use rdispatch.Common.Text.{concat}
use rdispatch.Gateway.Rest.{item_of, handle_send, accept}
use rdispatch.Gateway.Router.{
  Endpoint, Route, Chi, Call, router, below, answer, respond, respond_all,
}
use rdispatch.Gateway.RouterLaws.{both_eq, IsRouting, Listed}
use rdispatch.Gateway.Session.{Session, respond_all-Session}
use rdispatch.Common.Int.{pos}
use rdispatch.Priority.Queue.{new, push, pop, sift_up}
use rdispatch.Dlq.Memory.{Memory, new_memory}
use rdispatch.System.Steps.{System, answers, forwards, Steps, stays, ◌then◌, launched}
use rdispatch.System.Balance.{IsBalanced}
use rdispatch.System.Conserved.{launched-IsBalanced}
use rdispatch.System.Settling.{Settled, settles, quiet}
use rdispatch.System.Arrived.{Accepts, Whereabouts, accepted-Arrived}
use rdispatch.Gateway.Drainer.{drain_round, arrive, forward}
use rdispatch.Gateway.RouterLaws.{api}
use mathlib.Core.List.{mem-cons_self}
use rdispatch.Examples.Quarters.{quarters}
use rdispatch.Examples.Deliveries.{evening, worker}
use rdispatch.System.Stream.{Stream, IsWorkQueue}
use rdispatch.Examples.Queues.{two_items-IsValid}
use rdispatch.Examples.Requests.{request, server, request-HasMetadata}
use rdispatch.Encoding.Codec.{encoding_json}

-- A router that compares the method and the path with each route in turn.
abbrev find : List Route → String → String → Option Endpoint
find [] m p = none
find (r ∷ rs) m p = if str_eq m r.method && str_eq p r.pattern then some r.endpoint else find rs m p

abbrev mux : Chi
mux = record {
  find = find;
  refuse = λ m p. record { content_type = "text/plain"; status = 404; body = end };
}

mux-found : (r : Route) → Listed r router → find router r.method r.pattern ≡ some r.endpoint
unfolding router below concat
mux-found r h = elim h [
  | inl e ↦ rw e refl
  | inr (inl e) ↦ rw e refl
  | inr (inr (inl e)) ↦ rw e refl
  | inr (inr (inr e)) ↦ absurd e
]

mux-missed :
    (rs : List Route) (m p : String) (e : Endpoint)
    → find rs m p ≡ some e
    → Listed (record { method = m; pattern = p; endpoint = e }) rs
mux-missed [] m p e h = absurd (let clash : none ≡ some e = h in cc)
mux-missed (r ∷ rs) m p e h = elim (Bool-cases (str_eq m r.method && str_eq p r.pattern)) [
  | inl same ↦
      let (em, ep) = both_eq m p r.method r.pattern same in
      let ee : r.endpoint ≡ e = let found = rw same at h in cc in inl (rw (em, ep, ← ee) refl)
  | inr other ↦ inr (mux-missed rs m p e (rw other at h))
]

mux-IsRouting : IsRouting mux
mux-IsRouting = record { found = mux-found; missed = mux-missed router }

-- A stream that is a list.
abbrev list_stream : Stream (List (List ℕ))
list_stream = record {
  store = λ p b. p ∷ b;
  remove = λ p b. erase (List-discrete ℕ_discrete) b p;
  pending = λ b. b;
}

ite_yes : {A P : Type 0} (d : Dec P) (x y : A) → P → ite d x y ≡ x
ite_yes (yes p) x y q = refl
ite_yes (no n) x y q = absurd (n q)

erase_head :
    (p : List ℕ) (rest : List (List ℕ)) → erase (List-discrete ℕ_discrete) (p ∷ rest) p ≡ rest
erase_head p rest = ite_yes (List-discrete ℕ_discrete p p) rest _ refl

list_stream-IsWorkQueue : IsWorkQueue list_stream
list_stream-IsWorkQueue = record {
  stored = λ p b. Perm.rfl;
  removed = λ p rest b split.
      subst (λ r. Perm (erase (List-discrete ℕ_discrete) b p) r) (erase_head p rest)
        (Perm.erase (List-discrete ℕ_discrete) p split);
}

-- A request, a look at the depth, and a call that is not part of the API.
abbrev post : Call
post = record {
  method = "POST";
  path = "/api/v1/notifications";
  id = "id-1";
  now = 11;
  decoded = ok request;
}

abbrev look : Call
look = record post { method = "GET"; path = "/api/v1/queue/stats" }

abbrev stray : Call
stray = record post { method = "GET" }

respond_all-Session_example :
    Yields
      (Session mux encoding_json (post ∷ look ∷ stray ∷ []) server)
      (respond_all mux encoding_json (post ∷ look ∷ stray ∷ []) server)
respond_all-Session_example =
    respond_all-Session mux encoding_json (post ∷ look ∷ stray ∷ []) server mux-IsRouting
      two_items-IsValid

abbrev no_letters : Memory
no_letters = record { messages = []; capacity = pos 10000 }

no_letters_new : new_memory (pos 10000) ≡ done no_letters
unfolding new_memory
no_letters_new = refl

abbrev beginning : System quarters (List (List ℕ))
beginning = record {
  server = record { queue = new };
  stream = [];
  worker = record { channels = worker.channels; dlq = no_letters };
  calls = [];
  unconfirmed = [];
  acked = [];
  expired = [];
  stranded = [];
}

-- After one request.
abbrev asked : System quarters (List (List ℕ))
asked = record beginning {
  server = record { queue = record { items = item_of encoding_json "id-1" 11 request ∷ [] } };
  calls = post ∷ [];
}

asks :
    Steps quarters
      (List (List ℕ))
      mux
      encoding_json
      list_stream
      (launched quarters (List (List ℕ)) worker.channels [] no_letters)
      asked
unfolding launched respond router below concat answer handle_send accept push sift_up new
asks = stays then answers post refl

launched-IsBalanced_example :
    IsBalanced quarters (List (List ℕ)) mux encoding_json list_stream worker.channels asked
launched-IsBalanced_example =
    launched-IsBalanced quarters (List (List ℕ)) mux encoding_json list_stream worker.channels
      mux-IsRouting list_stream-IsWorkQueue [] no_letters asked refl no_letters_new asks

asked-IsBalanced :
    IsBalanced quarters (List (List ℕ)) mux encoding_json list_stream worker.channels asked
asked-IsBalanced =
    launched-IsBalanced quarters (List (List ℕ)) mux encoding_json list_stream worker.channels
      mux-IsRouting list_stream-IsWorkQueue [] no_letters asked refl no_letters_new asks

settles_example :
    (t : System quarters (List (List ℕ))) × Settled quarters
      (List (List ℕ))
      mux
      encoding_json
      list_stream
      worker.channels
      mux-IsRouting
      list_stream-IsWorkQueue
      evening
      asked
      t
settles_example =
    settles quarters (List (List ℕ)) mux encoding_json list_stream worker.channels mux-IsRouting
      list_stream-IsWorkQueue evening asked asked-IsBalanced

-- The request has been published.
abbrev published_once : System quarters (List (List ℕ))
published_once = record asked {
  server = record { queue = new };
  stream = (item_of encoding_json "id-1" 11 request).payload ∷ [];
}

publishes_once :
    Steps quarters
      (List (List ℕ))
      mux
      encoding_json
      list_stream
      (launched quarters (List (List ℕ)) worker.channels [] no_letters)
      published_once
unfolding drain_round arrive forward pop new
publishes_once = asks then forwards quiet (item_of encoding_json "id-1" 11 request) refl refl

post-Accepts : Accepts post request
unfolding api
post-Accepts = record { sends = refl; request = refl }

accepted-Arrived_example :
    ∥ Whereabouts quarters
      (List (List ℕ))
      mux
      list_stream
      worker.channels
      published_once
      post
      request ∥₁
accepted-Arrived_example =
    accepted-Arrived quarters (List (List ℕ)) mux list_stream worker.channels mux-IsRouting
      list_stream-IsWorkQueue [] no_letters published_once post request refl no_letters_new
      publishes_once mem-cons_self post-Accepts request-HasMetadata
