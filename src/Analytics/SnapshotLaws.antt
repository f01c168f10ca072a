-- ===== src/Analytics/SnapshotLaws.antt =====
-- What a snapshot shows of a channel.
use rdispatch.Common.{
  ◌≡◌, refl, String, Option, none, some, List, [], ◌∷◌, map, arith, str_eq, str_eq_iff,
  if◌then◌else◌, Bool-cases, inl, inr,
}
use rdispatch.Common.Int64.{add64, signed, is_positive}
use rdispatch.Common.Float.{Float64}
use rdispatch.Analytics.Stats.{ChannelStats, Stats, find, snap, snapshot}

module _ (fl : Float64) where
  -- An entry as a snapshot shows it: the counters as they are, the rate of the successes once anything
  -- was counted, the average latency once anything was sent, and the name of the channel.
  pub record Shows (ch : String) (cs shown : ChannelStats fl) : Type 0 where
    pub sent : shown.sent ≡ cs.sent
    pub failed : shown.failed ≡ cs.failed
    pub total_ms : shown.total_ms ≡ cs.total_ms
    pub channel : shown.channel ≡ ch
    pub rate : shown.rate ≡ (
        if is_positive (add64 cs.sent cs.failed)
        then fl.div (fl.of_int (signed cs.sent)) (fl.of_int (signed (add64 cs.sent cs.failed)))
        else cs.rate)
    pub average : shown.avg_ms ≡ (
        if is_positive cs.sent
        then fl.div (fl.of_int (signed cs.total_ms)) (fl.of_int (signed cs.sent))
        else cs.avg_ms)

  abbrev pub ShowsFound : String → Option (ChannelStats fl) → Option (ChannelStats fl) → Type 0
  ShowsFound ch none none = Unit
  ShowsFound ch (some cs) (some shown) = Shows ch cs shown
  ShowsFound ch before after = ⊥

  snap-Shows : (ch : String) (cs : ChannelStats fl) → Shows ch cs (snap fl ch cs)
  unfolding snap
  snap-Shows ch cs = record {
    sent = ground arith;
    failed = ground arith;
    total_ms = ground arith;
    channel = refl;
    rate = ground arith;
    average = ground arith;
  }

  abbrev shown_entry : String × ChannelStats fl → String × ChannelStats fl
  shown_entry (name, cs) = (name, snap fl name cs)

  find-ShowsFound :
      (ch : String) (m : List (String × ChannelStats fl))
      → ShowsFound ch (find fl ch m) (find fl ch (map shown_entry m))
  unfolding find
  find-ShowsFound ch [] = tt
  find-ShowsFound ch ((k, cs) ∷ m) = elim (Bool-cases (str_eq k ch)) [
    | inl e ↦ rw (e, (str_eq_iff k ch).0 e) (snap-Shows ch cs)
    | inr e ↦ rw e (find-ShowsFound ch m)
  ]

  -- A snapshot has exactly the channels that were counted, each with its own counters, its rate of
  -- successes and its average latency.
  pub snapshot-ShowsFound :
      (s : Stats fl) (ch : String)
      → ShowsFound ch (find fl ch s.counters) (find fl ch (snapshot fl s))
  unfolding snapshot
  snapshot-ShowsFound s ch = find-ShowsFound ch s.counters
