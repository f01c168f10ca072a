-- ===== src/Analytics/Stats.antt =====
-- `Stats`, its recorders and `Snapshot`. A method holds the mutex throughout, so it is one step.
use rdispatch.Common.{ℕ, String, Option, none, some, List, [], ◌∷◌, map, str_eq, if◌then◌else◌}
use rdispatch.Common.Int.{ℤ}
use rdispatch.Common.Int64.{add64, signed, is_positive, milliseconds}
use rdispatch.Common.Float.{Float64}

module _ (fl : Float64) where
  -- The counts are int64 patterns.
  pub record ChannelStats : Type 0 where
    pub sent : ℕ
    pub failed : ℕ
    pub total_ms : ℕ
    pub channel : String
    pub avg_ms : fl.F
    pub rate : fl.F

  -- `map[string]*ChannelStats` as an association list with one entry for each key.
  pub record Stats : Type 0 where
    pub counters : List (String × ChannelStats)
    pub since : ℕ

  unfoldable pub new : ℕ → Stats
  new now = record { counters = []; since = now }

  unfoldable pub find : String → List (String × ChannelStats) → Option ChannelStats
  find key [] = none
  find key ((k, cs) ∷ rest) = if str_eq k key then some cs else find key rest

  -- `m[key] = cs`, or a write through the pointer under `key`.
  unfoldable pub put :
      String → ChannelStats → List (String × ChannelStats) → List (String × ChannelStats)
  put key cs [] = (key, cs) ∷ []
  put key cs ((k, old) ∷ rest) = if str_eq k key then (k, cs) ∷ rest else (k, old) ∷ put key cs rest

  -- `&ChannelStats{Channel: channel}`.
  abbrev pub fresh : String → ChannelStats
  fresh channel = record {
    sent = 0;
    failed = 0;
    total_ms = 0;
    channel = channel;
    avg_ms = fl.zero;
    rate = fl.zero;
  }

  abbrev pub found_or_fresh : String → Option ChannelStats → ChannelStats
  found_or_fresh channel none = fresh channel
  found_or_fresh channel (some cs) = cs

  -- `getOrCreate`: the entry, and the statistics that hold it.
  unfoldable pub get_or_create : String → Stats → ChannelStats × Stats
  get_or_create channel s =
      let cs = found_or_fresh channel (find channel s.counters) in
      (cs, record s { counters = put channel cs s.counters })

  unfoldable pub record_success : String → ℤ → Stats → Stats
  record_success channel latency s =
      let (cs, t) = get_or_create channel s in
      let cs' = record cs {
        sent = add64 cs.sent 1;
        total_ms = add64 cs.total_ms (milliseconds latency);
      } in
      record t { counters = put channel cs' t.counters }

  unfoldable pub record_failure : String → Stats → Stats
  record_failure channel s =
      let (cs, t) = get_or_create channel s in
      record t { counters = put channel (record cs { failed = add64 cs.failed 1 }) t.counters }

  -- The copy of one entry in a snapshot.
  unfoldable pub snap : String → ChannelStats → ChannelStats
  snap name cs =
      let total = add64 cs.sent cs.failed in
      let rated =
        if is_positive total
        then record cs { rate = fl.div (fl.of_int (signed cs.sent)) (fl.of_int (signed total)) }
        else cs in
      let averaged =
        if is_positive cs.sent
        then record rated {
          avg_ms = fl.div (fl.of_int (signed cs.total_ms)) (fl.of_int (signed cs.sent));
        }
        else rated in
      record averaged { channel = name }

  -- `Snapshot`: every key once, so the order of the iteration does not matter.
  unfoldable pub snapshot : Stats → List (String × ChannelStats)
  snapshot s = map (λ (name, cs). (name, snap name cs)) s.counters
