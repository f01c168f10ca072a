-- ===== src/Examples/Records.antt =====
-- The statistics of internal/analytics and the probes of pkg/health at work.
use rdispatch.Common.{◌≡◌, refl, ℕ, some, true, false, List, [], ◌∷◌}
use rdispatch.Common.Int.{pos}
use rdispatch.Common.Text.{decimal}
use rdispatch.Common.Json.{object, Fields, lookup}
use rdispatch.Analytics.Stats.{Stats, new, find}
use rdispatch.Analytics.Counts.{
  Report, success, failure, report_all, successes, failures, total_latency, Counted,
  report_all-Counted,
}
use rdispatch.Analytics.Handler.{Printer, analytics_body}
use rdispatch.Analytics.HandlerLaws.{AnswersFor, analytics_body-AnswersFor}
use rdispatch.Health.Checker.{new as new_checker}
use rdispatch.Health.Probes.{
  Event, sets, probes_liveness, probes_readiness, serve, promised, serve-promised,
}
use rdispatch.Examples.Quarters.{quarters}

abbrev reports : List Report
reports = success "slack" (pos 2_500_000) ∷ failure "log" ∷ failure "slack" ∷ []

report_all-Counted_example :
    Counted quarters
      (successes "slack" reports)
      (failures "slack" reports)
      (total_latency "slack" reports)
      (find quarters "slack" (report_all quarters reports (new quarters 0)).counters)
report_all-Counted_example = report_all-Counted quarters "slack" reports 0

unfoldable counted : Stats quarters
counted = report_all quarters reports (new quarters 0)

abbrev day : List Event
day =
    probes_readiness
    ∷ sets true
    ∷ probes_liveness
    ∷ probes_readiness
    ∷ sets false
    ∷ probes_readiness
    ∷ []

promised-day : promised false day ≡ 503 ∷ 200 ∷ 200 ∷ 503 ∷ []
unfolding promised
promised-day = refl

serve-promised_example : (serve day new_checker).0 ≡ promised false day
serve-promised_example = serve-promised day

abbrev printer : Printer ℕ
printer = record { float = λ x. decimal (pos x); rfc3339 = λ now. "2026-01-01T00:00:00Z" }

analytics_body-AnswersFor_example :
    (channels : Fields) × (lookup "channels" (analytics_body quarters printer 9 counted)
      ≡ some (object channels))
    × AnswersFor quarters printer "slack"
        (find quarters "slack" counted.counters)
        (lookup "slack" channels)
analytics_body-AnswersFor_example = analytics_body-AnswersFor quarters printer counted 9 "slack"
