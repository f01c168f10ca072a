-- ===== src/Delivery/ChannelLaws.antt =====
-- The senders: how many requests, what they carry, and when a `Send` succeeds.
use rdispatch.Common.{
  ℕ, String, ◌≡◌, ◌↔◌, ◌⊎◌, ◌||◌, inl, inr, refl, Bool, true, Option, none, some, Bool-cases, List,
  [], ◌∷◌, arith, str_eq, ltb, if◌then◌else◌, All,
}
use rdispatch.Common.Text.{concat, hex, bytes}
use rdispatch.Common.Json.{Result, ok, err}
use rdispatch.Delivery.Notification.{Notification, Request, Sending}
use rdispatch.Delivery.Channels.{
  Network, Std, post, Webhook, webhook_headers, webhook_request, webhook_post, webhook_send,
  slack_request, telegram_request, Slack, slack_send, Telegram, telegram_send, is_ok,
}

-- `http.Header.Get`, for the names as the senders write them.
unfoldable pub header : String → List (String × String) → Option String
header name [] = none
header name ((k, v) ∷ rest) = if str_eq k name then some v else header name rest

-- The check that a receiver who knows the secret makes of a request.
abbrev pub IsSigned : Std → String → Request → Type 0
IsSigned std secret req =
    header "X-RDispatch-Signature" req.headers
    ≡ some (concat ("sha256=" ∷ hex (std.hmac_sha256 (bytes secret) req.body) ∷ []))

-- What a receiver sees: with a secret the signature of the very body that is sent, without one none.
abbrev pub IsAuthentic : Std → Webhook → Request → Type 0
IsAuthentic std w req =
    if str_eq w.secret ""
    then header "X-RDispatch-Signature" req.headers ≡ none
    else IsSigned std w.secret req

-- The network accepts the request at this attempt.
abbrev pub Accepted : Network → (ℕ → Bool) → Request → ℕ → Type 0
Accepted net accepts req attempt =
    (net.bad_url req.url ≡ none)
    × ((status : ℕ) × (net.reply req attempt ≡ ok status) × (accepts status ≡ true))

module _ (net : Network) (creating calling returned : String) (accepts : ℕ → Bool) (req : Request)
    (attempt : ℕ) where
  -- One request at most, and it is the one that was built.
  post_requests :
      ((post net creating calling returned accepts req attempt).0 ≡ [])
      ⊎ ((post net creating calling returned accepts req attempt).0 ≡ req ∷ [])
  unfolding post
  post_requests = ground arith

  Accepted-of_none :
      (bad : Option String) (answer : Result ℕ)
      → net.bad_url req.url ≡ bad
      → net.reply req attempt ≡ answer
      → (post net creating calling returned accepts req attempt).1 ≡ none
      → Accepted net accepts req attempt
  unfolding post
  Accepted-of_none (some e) answer b r h = absurd (ground arith)
  Accepted-of_none none (err e) b r h = absurd (ground arith)
  Accepted-of_none none (ok status) b r h = (b, (status, r, ground arith))

  -- The call succeeds exactly when the request is accepted.
  post-none :
      ((post net creating calling returned accepts req attempt).1 ≡ none)
      ↔ Accepted net accepts req attempt
  unfolding post
  post-none = (
    Accepted-of_none (net.bad_url req.url) (net.reply req attempt) refl refl,
    λ (b, (status, r, a)). rw (b, post, r, a),
  )

  -- A property of the request holds of all that is sent.
  pub post-All :
      (P : Request → Type 0)
      → P req
      → All P (post net creating calling returned accepts req attempt).0
  post-All P h = elim post_requests [ inl e ↦ rw e tt | inr e ↦ rw e (h, tt) ]

pub request-IsAuthentic :
    (std : Std) (w : Webhook) (body : List ℕ) → IsAuthentic std w (webhook_request std w body)
unfolding webhook_headers header
request-IsAuthentic std w body = elim (Bool-cases (str_eq w.secret "")) [
  | inl e ↦ rw e refl
  | inr e ↦ rw e refl
]

pub webhook_post-IsAuthentic :
    (std : Std) (net : Network) (w : Webhook) (attempt : ℕ) (m : Result (List ℕ))
    → All (IsAuthentic std w) (webhook_post std net w attempt m).0
unfolding webhook_post
webhook_post-IsAuthentic std net w attempt (err e) = tt
webhook_post-IsAuthentic std net w attempt (ok body) =
    post-All net "creating request: " "webhook POST: " "webhook returned status "
      (λ status. ltb status 300) (webhook_request std w body) attempt (IsAuthentic std w)
      (request-IsAuthentic std w body)

-- Every request that a webhook makes is authentic: with a secret it carries the HMAC signature of the
-- very body that is sent, and without one it carries no signature.
pub webhook_send-IsAuthentic :
    (std : Std) (net : Network) (w : Webhook) (notif : Notification) (attempt : ℕ)
    → All (IsAuthentic std w) (webhook_send std net w notif attempt).0
unfolding webhook_send
webhook_send-IsAuthentic std net w notif attempt = elim (Bool-cases (str_eq w.url "")) [
  | inl e ↦ rw e tt
  | inr e ↦ rw e (webhook_post-IsAuthentic std net w attempt (std.codec.marshal notif))
]

-- A webhook without a URL, a Slack channel without one, and a Telegram channel without a token or a
-- chat succeed with no request.
abbrev pub IsSilent : Sending → Type 0
IsSilent sent = (sent.0 ≡ []) × (sent.1 ≡ none)

-- A Slack `Send` with a URL succeeds exactly when the request with the formatted text is answered with
-- the status 200; without a URL it succeeds with no request.
pub slack_send-none :
    (std : Std) (net : Network) (s : Slack) (notif : Notification) (attempt : ℕ)
    → if str_eq s.webhook_url ""
      then IsSilent (slack_send std net s notif attempt)
      else (((slack_send std net s notif attempt).1 ≡ none)
          ↔ Accepted net is_ok (slack_request std s notif) attempt)
unfolding slack_send
slack_send-none std net s notif attempt = elim (Bool-cases (str_eq s.webhook_url "")) [
  | inl e ↦ rw e (refl, refl)
  | inr e ↦ rw e (
      post-none net "creating slack request: " "slack webhook call: "
        "slack webhook returned status " is_ok (slack_request std s notif) attempt)
]

-- A Telegram `Send` with a token and a chat succeeds exactly when the request with the formatted text
-- is answered with the status 200; without one of them it succeeds with no request.
pub telegram_send-none :
    (std : Std) (net : Network) (t : Telegram) (notif : Notification) (attempt : ℕ)
    → if str_eq t.token "" || str_eq t.chat_id ""
      then IsSilent (telegram_send std net t notif attempt)
      else (((telegram_send std net t notif attempt).1 ≡ none)
          ↔ Accepted net is_ok (telegram_request std t notif) attempt)
unfolding telegram_send
telegram_send-none std net t notif attempt =
    elim (Bool-cases (str_eq t.token "" || str_eq t.chat_id "")) [
      | inl e ↦ rw e (refl, refl)
      | inr e ↦ rw e (
          post-none net "creating telegram request: " "telegram API call: "
            "telegram API returned status " is_ok (telegram_request std t notif) attempt)
    ]
