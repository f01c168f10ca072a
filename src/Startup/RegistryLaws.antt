-- ===== src/Startup/RegistryLaws.antt =====
-- The registered channels, and what a `Send` of theirs does.
use rdispatch.Common.{
  ℕ, String, ◌≡◌, ◌⊎◌, inl, inr, refl, Bool, false, List, [], ◌∷◌, ◌++◌, All, str_eq, ltb, arith,
  Bool-cases,
}
use rdispatch.Common.Json.{Result, ok, err}
use rdispatch.Delivery.Notification.{Notification, Request, Channel}
use rdispatch.Delivery.Channels.{
  Network, Std, post, is_ok, Webhook, webhook_request, webhook_post, webhook_send, webhook_channel,
  Slack, slack_request, slack_send, slack_channel, Telegram, telegram_request, telegram_send,
  telegram_channel,
}
use rdispatch.Delivery.ChannelLaws.{IsSilent}
use rdispatch.Startup.Registry.{WorkerConfig, append_unless_empty, registered}

-- No `Send` of the channel succeeds without a request.
abbrev pub Speaks : Channel → Type 0
Speaks ch = (notif : Notification) (attempt : ℕ) → ¬ IsSilent (ch.send notif attempt)

module _ (net : Network) (creating calling returned : String) (accepts : ℕ → Bool) (req : Request)
    (attempt : ℕ) where
  post-Speaks : ¬ IsSilent (post net creating calling returned accepts req attempt)
  unfolding post
  post-Speaks (nothing, success) = absurd (ground arith)

module _ (std : Std) (net : Network) where
  webhook_post-Speaks :
      (w : Webhook) (attempt : ℕ) (m : Result (List ℕ))
      → ¬ IsSilent (webhook_post std net w attempt m)
  unfolding webhook_post
  webhook_post-Speaks w attempt (err e) (nothing, success) = absurd cc
  webhook_post-Speaks w attempt (ok body) h =
      post-Speaks net "creating request: " "webhook POST: " "webhook returned status "
        (λ status. ltb status 300) (webhook_request std w body) attempt h

  webhook-Speaks : (w : Webhook) → str_eq w.url "" ≡ false → Speaks (webhook_channel std net w)
  unfolding webhook_send
  webhook-Speaks w e notif attempt = rw e (webhook_post-Speaks w attempt (std.codec.marshal notif))

  slack-Speaks : (s : Slack) → str_eq s.webhook_url "" ≡ false → Speaks (slack_channel std net s)
  unfolding slack_send
  slack-Speaks s e notif attempt = rw e (
      post-Speaks net "creating slack request: " "slack webhook call: "
        "slack webhook returned status " is_ok (slack_request std s notif) attempt)

  telegram-Speaks :
      (t : Telegram)
      → str_eq t.token "" ≡ false
      → str_eq t.chat_id "" ≡ false
      → Speaks (telegram_channel std net t)
  unfolding telegram_send
  telegram-Speaks t e f notif attempt =
      rw (e, f)
        (post-Speaks net "creating telegram request: " "telegram API call: "
          "telegram API returned status " is_ok (telegram_request std t notif) attempt)

abbrev pub IsUseful : Channel → Type 0
IsUseful ch = (ch.name ≡ "log") ⊎ Speaks ch

All-append : (P : Channel → Type 0) (xs ys : List Channel) → All P xs → All P ys → All P (xs ++ ys)
All-append P [] ys h k = k
All-append P (x ∷ xs) ys (h, hs) k = (h, All-append P xs ys hs k)

append_unless_empty-All :
    (value : String) (ch : Channel) (chs : List Channel)
    → (str_eq value "" ≡ false → IsUseful ch)
    → All IsUseful chs
    → All IsUseful (append_unless_empty value ch chs)
unfolding append_unless_empty
append_unless_empty-All value ch chs h hs = elim (Bool-cases (str_eq value "")) [
  | inl e ↦ rw e hs
  | inr e ↦ rw e (All-append IsUseful chs (ch ∷ []) hs (h e, tt))
]

-- With a Telegram chat in the configuration, no registered channel other than the log succeeds without
-- a request: each `Send` makes one or reports an error.
pub registered-All :
    (std : Std) (net : Network) (cfg : WorkerConfig)
    → str_eq cfg.telegram_chat "" ≡ false
    → All IsUseful (registered std net cfg)
unfolding registered
registered-All std net cfg chat =
    append_unless_empty-All cfg.slack_webhook _ _ (λ e. inr (slack-Speaks std net _ e))
      (append_unless_empty-All cfg.telegram_token _ _ (λ e. inr (telegram-Speaks std net _ e chat))
        (append_unless_empty-All cfg.webhook_url _ _ (λ e. inr (webhook-Speaks std net _ e))
          (inl refl, tt)))
