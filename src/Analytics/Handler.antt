-- ===== src/Analytics/Handler.antt =====
-- `Handler`: the statistics as JSON.
use rdispatch.Common.{ℕ, ◌-◌, ◌/◌, ◌%◌, String, List, [], ◌∷◌}
use rdispatch.Common.Int.{ℤ, pos}
use rdispatch.Common.Int64.{signed}
use rdispatch.Common.Text.{decimal}
use rdispatch.Common.Float.{Float64}
use rdispatch.Common.Json.{number, text, object, Fields, end, field}
use rdispatch.Retry.Config.{second}
use rdispatch.Analytics.Stats.{ChannelStats, Stats, snapshot}

-- The numeral that encoding/json writes for a float64, and `Format(time.RFC3339)`.
pub record Printer (F : Type 0) : Type 0 where
  pub float : F → String
  pub rfc3339 : ℕ → String

module _ (fl : Float64) (p : Printer fl.F) where
  -- The JSON of an entry, by the tags of its struct; the total latency has none.
  unfoldable pub channel_json : ChannelStats fl → Fields
  channel_json cs = field "sent" (number (decimal (signed cs.sent))) (
      field "failed" (number (decimal (signed cs.failed))) (
        field "channel" (text cs.channel) (
          field "avg_latency_ms" (number (p.float cs.avg_ms))
            (field "success_rate" (number (p.float cs.rate)) end))))

  unfoldable pub channels_json : List (String × ChannelStats fl) → Fields
  channels_json [] = end
  channels_json ((name, cs) ∷ rest) = field name (object (channel_json cs)) (channels_json rest)

  -- `int(time.Since(since).Seconds())`: the whole seconds and the rest, as floating-point numbers.
  unfoldable pub uptime : ℕ → ℕ → ℤ
  uptime since now =
      let d = now - since in
      fl.to_int (
        fl.add (fl.of_int (pos (d / second)))
          (fl.div (fl.of_int (pos (d % second))) (fl.of_int (pos second))))

  -- The body of the answer at the time `now`.
  unfoldable pub analytics_body : ℕ → Stats fl → Fields
  analytics_body now s = field "channels" (object (channels_json (snapshot fl s))) (
      field "since" (text (p.rfc3339 s.since))
        (field "uptime_sec" (number (decimal (uptime s.since now))) end))
