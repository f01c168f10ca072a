-- ===== src/Delivery/Interrupted.antt =====
-- A context that ends during the retries of a channel.
use rdispatch.Common.{ℕ, String, ◌≡◌, refl, some, List, [], ◌∷◌, ◌*◌}
use rdispatch.Common.Int.{pos}
use rdispatch.Common.Float.{Float64}
use rdispatch.Dlq.Memory.{stamp}
use rdispatch.Retry.Config.{millisecond, configure, with_max_attempts, with_base_delay}
use rdispatch.Retry.Loop.{context_error, called, waited, add_jitter, retry_loop, retry_do}
use rdispatch.Delivery.Notification.{Notification, Channel}
use rdispatch.Delivery.Worker.{Surroundings, deliver, dead_letter}
use rdispatch.Delivery.Letters.{letter}

deliver_cut :
    (fl : Float64) (s : Surroundings fl.F) (notif : Notification) (i : ℕ) (ch : Channel)
    {e c : String}
    → (ch.send notif 0).1 ≡ some e
    → s.cancelled i 0 ≡ some c
    → deliver fl s i ch notif ≡ (
      called 0 ∷ waited (add_jitter fl (pos (500 * millisecond)) (s.random i 0)) ∷ [],
      some (context_error c),
    )
unfolding deliver retry_do retry_loop configure with_max_attempts with_base_delay
deliver_cut fl s notif i ch failed off = rw (failed, off)

-- If the first `Send` of a channel fails and the context ends in the wait after it, the channel has
-- been tried once; the dead letter still counts three attempts.
pub interrupted_letter :
    (fl : Float64) (s : Surroundings fl.F) (payload : List ℕ) (notif : Notification) (i : ℕ)
    (ch : Channel) {e c : String}
    → (ch.send notif 0).1 ≡ some e
    → s.cancelled i 0 ≡ some c
    → (deliver fl s i ch notif ≡ (
      called 0 ∷ waited (add_jitter fl (pos (500 * millisecond)) (s.random i 0)) ∷ [],
      some (context_error c),
    ))
      × (letter fl s payload i ch (deliver fl s i ch notif)
          ≡ stamp (s.now i) (dead_letter fl ch payload (context_error c)) ∷ [])
      × ((dead_letter fl ch payload (context_error c)).attempts ≡ pos 3)
unfolding stamp
interrupted_letter fl s payload notif i ch {e} {c} failed off =
    let cut = deliver_cut fl s notif i ch failed off in (cut, rw cut, refl)
