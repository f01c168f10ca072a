-- ===== src/Analytics/HandlerLaws.antt =====
-- What the analytics API answers of a channel.
use rdispatch.Common.{
  ℕ, ◌≡◌, refl, ap, if◌then◌else◌, String, Option, none, some, List, [], ◌∷◌, str_eq, Bool-cases,
  inl, inr,
}
use rdispatch.Common.Float.{Float64}
use rdispatch.Common.Int64.{add64, signed, is_positive}
use rdispatch.Common.Text.{decimal}
use rdispatch.Common.Json.{Json, number, text, object, Fields, lookup}
use rdispatch.Analytics.Stats.{ChannelStats, Stats, find, snapshot}
use rdispatch.Analytics.SnapshotLaws.{Shows, ShowsFound, snapshot-ShowsFound}
use rdispatch.Analytics.Handler.{Printer, channel_json, channels_json, analytics_body}

module _ (fl : Float64) (p : Printer fl.F) where
  abbrev shown_json : Option (ChannelStats fl) → Option Json
  shown_json none = none
  shown_json (some cs) = some (object (channel_json fl p cs))

  lookup-channels_json :
      (ch : String) (m : List (String × ChannelStats fl))
      → lookup ch (channels_json fl p m) ≡ shown_json (find fl ch m)
  unfolding lookup channels_json find
  lookup-channels_json ch [] = refl
  lookup-channels_json ch ((k, cs) ∷ m) = elim (Bool-cases (str_eq k ch)) [
    | inl e ↦ rw e refl
    | inr e ↦ rw e (lookup-channels_json ch m)
  ]

  -- The members of the object for a channel, by what was counted for it.
  pub record Shown (ch : String) (cs : ChannelStats fl) (f : Fields) : Type 0 where
    pub sent : lookup "sent" f ≡ some (number (decimal (signed cs.sent)))
    pub failed : lookup "failed" f ≡ some (number (decimal (signed cs.failed)))
    pub channel : lookup "channel" f ≡ some (text ch)
    pub average :
        lookup "avg_latency_ms" f
        ≡ some (
            number (
              p.float (
                if is_positive cs.sent
                then fl.div (fl.of_int (signed cs.total_ms)) (fl.of_int (signed cs.sent))
                else cs.avg_ms)))
    pub rate :
        lookup "success_rate" f
        ≡ some (
            number (
              p.float (
                if is_positive (add64 cs.sent cs.failed)
                then fl.div
                    (fl.of_int (signed cs.sent))
                    (fl.of_int (signed (add64 cs.sent cs.failed)))
                else cs.rate)))

  channel_json-Shown :
      (ch : String) (cs shown : ChannelStats fl)
      → Shows fl ch cs shown
      → Shown ch cs (channel_json fl p shown)
  unfolding channel_json lookup
  channel_json-Shown ch cs shown h = record {
    sent = ap (λ n. some (number (decimal (signed n)))) h.sent;
    failed = ap (λ n. some (number (decimal (signed n)))) h.failed;
    channel = ap (λ c. some (text c)) h.channel;
    average = ap (λ x. some (number (p.float x))) h.average;
    rate = ap (λ x. some (number (p.float x))) h.rate;
  }

  -- The answer for a channel, by the entry that was counted for it.
  abbrev pub AnswersFor : String → Option (ChannelStats fl) → Option Json → Type 0
  AnswersFor ch none j = j ≡ none
  AnswersFor ch (some cs) j = (f : Fields) × (j ≡ some (object f)) × Shown ch cs f

  found_answer :
      (ch : String) (before after : Option (ChannelStats fl))
      → ShowsFound fl ch before after
      → AnswersFor ch before (shown_json after)
  found_answer ch none none h = refl
  found_answer ch (some cs) (some shown) h =
      (channel_json fl p shown, refl, channel_json-Shown ch cs shown h)
  found_answer ch none (some shown) h = absurd h
  found_answer ch (some cs) none h = absurd h

  -- The answer of the analytics API has an object of channels, and in it exactly the channels that were
  -- counted, each with its name, the numbers sent and failed, and as floating-point numbers its average
  -- latency once anything was sent and its rate of successes once anything was counted.
  pub analytics_body-AnswersFor :
      (s : Stats fl) (now : ℕ) (ch : String)
      → (channels : Fields) × (lookup "channels" (analytics_body fl p now s)
          ≡ some (object channels))
        × AnswersFor ch (find fl ch s.counters) (lookup ch channels)
  unfolding analytics_body lookup
  analytics_body-AnswersFor s now ch = (
    channels_json fl p (snapshot fl s),
    refl,
    rw (lookup-channels_json ch (snapshot fl s))
        (found_answer ch _ _ (snapshot-ShowsFound fl s ch)),
  )
